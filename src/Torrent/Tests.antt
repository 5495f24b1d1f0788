-- ===== src/Torrent/Tests.antt =====
-- The metadata of a small torrent, and a function that reads decimal numbers.
use torrent_tv.Prelude.{
  ℕ, zero, suc, ◌+◌, ◌*◌, ◌-◌, ◌/◌, ◌%◌, ◌^◌, ◌≤◌, ◌<◌, ◌≡◌, refl, ap, ◌∙◌, Bool, true, false, not,
  ◌&&◌, ◌||◌, Option, none, some, [], ◌∷◌, ◌++◌, any, null, length, ltb, leb, ◌==◌, if◌then◌else◌,
  arith,
}
use torrent_tv.Prelude.Int.{ℤ, pos}
use torrent_tv.Prelude.Bytes.{Bytes, codes}
use torrent_tv.Prelude.Texts.{has_byte}
use torrent_tv.Torrent.{done, read_node}
use torrent_tv.Torrent.Format.{
  Value, number, string, array, table, nothing, first, empty, pair, digits, numeral, enc,
  enc_string, node_of, Fits, NoByte,
}
use torrent_tv.Torrent.Numerals.{AllDigits, NonEmpty, digits-AllDigits, numeral-NonEmpty}
use torrent_tv.Torrent.RoundTrip.{read_node-enc}
use torrent_tv.Torrent.Files.{parsed, panics, parse_torrent_manifest}
use torrent_tv.Torrent.Manifest.{OnParsed, IsManifest, parse_torrent_manifest-IsManifest}
use torrent_tv.Torrent.Overflow.{parse_torrent_manifest_panics}

-- `strconv.Atoi` of a text without a sign.
unfoldable value_from : ℕ → Bytes → ℕ
value_from a [] = a
value_from a (c ∷ s) = value_from (10 * a + (c - b'0')) s

abbrev is_digit : ℕ → Bool
is_digit c = leb b'0' c && leb c b'9'

unfoldable atoi : Bytes → Option ℤ
unfolding value_from
atoi s =
    if null s || any (λ c. not (is_digit c)) s || not (ltb (value_from 0 s) (2 ^ 63))
    then none
    else some (pos (value_from 0 s))

value_from-append :
    (a : ℕ) (s : Bytes) (c : ℕ) → value_from a (s ++ c ∷ []) ≡ 10 * value_from a s + (c - b'0')
unfolding value_from
value_from-append a [] c = refl
value_from-append a (x ∷ s) c = value_from-append (10 * a + (x - b'0')) s c

last_digit :
    (n : ℕ) (rest : Bytes)
    → (10 ≤ n → value_from 0 rest ≡ n / 10)
    → value_from 0 (if ltb n 10 then (b'0' + n) ∷ [] else rest ++ (b'0' + n % 10) ∷ []) ≡ n
unfolding value_from
last_digit n rest h = by_test (ltb n 10) refl
  where
    one : (d : ℕ) → value_from 0 ((b'0' + d) ∷ []) ≡ d
    one d = omega arith

    by_test :
        (b : Bool)
        → ltb n 10 ≡ b
        → value_from 0 (if b then (b'0' + n) ∷ [] else rest ++ (b'0' + n % 10) ∷ []) ≡ n
    by_test true e = one n
    by_test false e =
        value_from-append 0 rest (b'0' + n % 10)
        ∙ (ap (λ v. 10 * v + (b'0' + n % 10 - b'0')) (h (ground arith)) ∙ omega arith)

value_from-digits : (f n : ℕ) → n ≤ f → value_from 0 (digits (suc f) n) ≡ n
unfolding digits
value_from-digits zero n h = last_digit n [] (λ le. absurd (omega arith))
value_from-digits (suc f) n h =
    last_digit n (digits (suc f) (n / 10)) (λ le. value_from-digits f (n / 10) (omega arith))

digits_only : (s : Bytes) → AllDigits s → any (λ c. not (is_digit c)) s ≡ false
digits_only [] d = refl
digits_only (c ∷ s) (l, u, d) = ground (arith, digits_only s d)

all_digits : (s : Bytes) → any (λ c. not (is_digit c)) s ≡ false → AllDigits s
all_digits [] h = tt
all_digits (c ∷ s) h = (ground arith, ground arith, all_digits s (ground arith))

not_null : (s : Bytes) → NonEmpty s → null s ≡ false
not_null [] n = absurd n
not_null (c ∷ s) n = refl

atoi-numeral : (n : ℕ) → n < 2 ^ 63 → atoi (numeral n) ≡ some (pos n)
unfolding atoi numeral
atoi-numeral n h =
    rw (not_null (numeral n) (numeral-NonEmpty n), digits_only (numeral n) all_digits, reads, small)
      refl
  where
    all_digits : AllDigits (numeral n)
    all_digits = digits-AllDigits (suc n) n

    reads : value_from 0 (numeral n) ≡ n
    reads = value_from-digits n n (omega arith)

    small : ltb n (2 ^ 63) ≡ true
    small = ground arith

-- `filepath.Ext`.
unfoldable ext : Bytes → Bytes
unfolding has_byte
ext [] = []
ext (c ∷ s) =
    let rest = ext s in if null rest && c == b'.' && not (has_byte s b'/') then c ∷ s else rest

abbrev film : Bytes
film = codes "d4:infod5:filesld6:lengthi7e4:pathl1:a5:b.mkveed6:lengthi2e4:pathl5:c.txteeeee"

abbrev row : Bytes → Value → Value
row size path =
    table
      (pair (codes "length") (number size) (pair (codes "path") (array (first path nothing)) empty))

abbrev torrent : Value
torrent = table (
    pair (codes "info")
      (table (
        pair (codes "files") (array (first (row (codes "7") (string (codes "b.mkv"))) nothing))
          empty))
      empty)

torrent-length : length (enc torrent (codes "x")) ≡ 48
unfolding enc enc_string numeral
torrent-length = refl

read_node-enc_example :
    read_node atoi 100 200 (enc torrent (codes "x")) ≡ done (node_of torrent) (codes "x")
unfolding Fits NoByte
read_node-enc_example =
    read_node-enc atoi atoi-numeral 100 200 torrent (codes "x") (omega arith)
      (omega (arith, torrent-length)) (omega (arith, torrent-length))
      (((((refl, tt), ((tt, tt), tt)), tt), tt), tt)

parse_torrent_manifest-IsManifest_example :
    OnParsed
      (IsManifest atoi ext (codes "r1") film)
      (parse_torrent_manifest atoi ext (codes "r1") film 3)
parse_torrent_manifest-IsManifest_example =
    parse_torrent_manifest-IsManifest atoi ext (codes "r1") film 3

parse_torrent_manifest_panics_example :
    parse_torrent_manifest atoi ext (codes "r1") (codes "9223372036854775807:") 3 ≡ panics
unfolding atoi
parse_torrent_manifest_panics_example =
    parse_torrent_manifest_panics atoi ext (codes "r1") (codes "9223372036854775807") [] 3
      9223372036854775807 (all_digits (codes "9223372036854775807") refl) tt refl (omega arith)
      (omega arith) (omega arith)

-- What the manifest of `film` lists.
film_lists :
    parse_torrent_manifest atoi ext (codes "r1") film 3
    ≡ parsed (record {
      release_id = codes "r1";
      files =
          record {
            index = 0;
            path = codes "a/b.mkv";
            size_bytes = pos 7;
            offset = pos 0;
            playable = true;
          }
          ∷ record {
            index = 1;
            path = codes "c.txt";
            size_bytes = pos 2;
            offset = pos 7;
            playable = false;
          }
          ∷ [];
      metainfo = film;
      fetched_at = 3;
    })
unfolding parse_torrent_manifest atoi ext
film_lists = refl
