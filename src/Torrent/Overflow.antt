-- ===== src/Torrent/Overflow.antt =====
-- The length of a string that is near the largest int.
use torrent_tv.Prelude.{
  ℕ, suc, ◌+◌, ◌*◌, ◌-◌, ◌^◌, ◌≤◌, ◌<◌, ◌≡◌, refl, ap, ◌∙◌, Time, true, false, Option, some, [],
  ◌∷◌, ◌++◌, null, length, length-append, ltb, arith,
}
use torrent_tv.Prelude.Int.{ℤ, pos, negsuc, add64, ltb_ℤ, ◌+ℤ◌}
use torrent_tv.Prelude.Bytes.{Bytes}
use torrent_tv.Torrent.{panicked, sized, read_node}
use torrent_tv.Torrent.Numerals.{AllDigits, NonEmpty}
use torrent_tv.Torrent.RoundTrip.{text_lem}
use torrent_tv.Torrent.Files.{panics, parse_torrent_manifest}

module _ (atoi : Bytes → Option ℤ) (ext : Bytes → Bytes) where
  sized-panicked :
      (whole n : ℕ) (t : Bytes)
      → length t < whole
      → whole < 2 ^ 24
      → n < 2 ^ 63
      → 2 ^ 63 ≤ whole - length t + n
      → sized whole (some (pos n)) t ≡ panicked
  unfolding sized add64 ◌+ℤ◌
  sized-panicked whole n t l w h e = rw (within, wrapped) refl
    where
      sum : add64 (pos (whole - length t)) (pos n) ≡ negsuc (2 ^ 64 - 1 - (whole - length t + n))
      sum = ground arith

      within : ltb_ℤ (pos whole) (add64 (pos (whole - length t)) (pos n)) ≡ false
      within = rw sum (ground arith)

      wrapped : ltb_ℤ (add64 (pos (whole - length t)) (pos n)) (pos (whole - length t)) ≡ true
      wrapped = rw sum (ground arith)

  -- Metadata that is a string of which the length is an int, but the end is not, makes the parser
  -- panic.
  pub parse_torrent_manifest_panics :
      (release_id digits rest : Bytes) (now : Time) (n : ℕ)
      → AllDigits digits
      → NonEmpty digits
      → atoi digits ≡ some (pos n)
      → n < 2 ^ 63
      → 2 ^ 63 ≤ length digits + 1 + n
      → length (digits ++ b':' ∷ rest) < 2 ^ 24
      → parse_torrent_manifest atoi ext release_id (digits ++ b':' ∷ rest) now ≡ panics
  unfolding parse_torrent_manifest
  parse_torrent_manifest_panics release_id digits rest now n d e a l o w =
      rw (full, small, reads) refl
    where
      whole : ℕ
      whole = length (digits ++ b':' ∷ rest)

      full : null (digits ++ b':' ∷ rest) ≡ false
      full = not_null digits
        where
          not_null : (s : Bytes) → null (s ++ b':' ∷ rest) ≡ false
          not_null [] = refl
          not_null (c ∷ s) = refl

      small : ltb (length (digits ++ b':' ∷ rest)) (2 ^ 24) ≡ true
      small = ground arith

      reads :
          read_node atoi
            (length (digits ++ b':' ∷ rest))
            (suc (2 * length (digits ++ b':' ∷ rest)))
            (digits ++ b':' ∷ rest)
          ≡ panicked
      reads =
          text_lem atoi whole (2 * whole) digits rest d e
          ∙ (ap (λ o. sized whole o rest) a
              ∙ sized-panicked whole n rest (omega (arith, length-append digits (b':' ∷ rest))) w l
                  (omega (arith, length-append digits (b':' ∷ rest))))
