-- ===== src/Torrent/Numerals.antt =====
-- Decimal numbers as the format writes them, and texts around a separator.
use torrent_tv.Prelude.{
  ℕ, zero, suc, ◌+◌, ◌/◌, ◌%◌, ◌≤◌, ◌<◌, ◌≡◌, refl, ap, Bool, true, false, some, [], ◌∷◌, ◌++◌,
  length, take, ltb, if◌then◌else◌, arith,
}
use torrent_tv.Prelude.Bytes.{Bytes, cut}
use torrent_tv.Torrent.{drop}
use torrent_tv.Torrent.Format.{digits, numeral, NoByte}

-- Decimal digits.
abbrev pub AllDigits : Bytes → Type 0
AllDigits [] = Unit
AllDigits (c ∷ s) = (b'0' ≤ c) × (c ≤ b'9') × AllDigits s

AllDigits-append : (s t : Bytes) → AllDigits s → AllDigits t → AllDigits (s ++ t)
AllDigits-append [] t h k = k
AllDigits-append (c ∷ s) t (l, u, h) k = (l, u, AllDigits-append s t h k)

pub digits-AllDigits : (f n : ℕ) → AllDigits (digits f n)
unfolding digits
digits-AllDigits zero n = tt
digits-AllDigits (suc f) n = by_test (ltb n 10) refl (digits-AllDigits f (n / 10))
  where
    by_test :
        (b : Bool)
        → ltb n 10 ≡ b
        → AllDigits (digits f (n / 10))
        → AllDigits (if b then (b'0' + n) ∷ [] else digits f (n / 10) ++ (b'0' + n % 10) ∷ [])
    by_test true e h = (omega arith, ground arith, tt)
    by_test false e h =
        AllDigits-append (digits f (n / 10)) ((b'0' + n % 10) ∷ []) h (omega arith, omega arith, tt)

abbrev pub NonEmpty : Bytes → Type 0
NonEmpty [] = ⊥
NonEmpty (c ∷ s) = Unit

NonEmpty-append : (s : Bytes) (c : ℕ) → NonEmpty (s ++ c ∷ [])
NonEmpty-append [] c = tt
NonEmpty-append (x ∷ s) c = tt

pub numeral-NonEmpty : (n : ℕ) → NonEmpty (numeral n)
unfolding numeral
numeral-NonEmpty n = by_test (ltb n 10)
  where
    by_test :
        (b : Bool)
        → NonEmpty (if b then (b'0' + n) ∷ [] else digits n (n / 10) ++ (b'0' + n % 10) ∷ [])
    by_test true = tt
    by_test false = NonEmpty-append (digits n (n / 10)) (b'0' + n % 10)

pub AllDigits-NoByte : (c : ℕ) (s : Bytes) → b'9' < c → AllDigits s → NoByte c s
unfolding NoByte
AllDigits-NoByte c [] h d = tt
AllDigits-NoByte c (x ∷ s) h (l, u, d) = (ground arith, AllDigits-NoByte c s h d)

pub cut-append : (c : ℕ) (s t : Bytes) → NoByte c s → cut c (s ++ c ∷ t) ≡ some (s, t)
unfolding cut NoByte
cut-append c [] t h = ground arith
cut-append c (x ∷ s) t (n, h) = rw (n, cut-append c s t h) refl

pub take-append : (v rest : Bytes) → take (length v) (v ++ rest) ≡ v
take-append [] rest = refl
take-append (c ∷ v) rest = ap (λ t. c ∷ t) (take-append v rest)

pub drop-append : (v rest : Bytes) → drop (length v) (v ++ rest) ≡ rest
drop-append [] rest = refl
drop-append (c ∷ v) rest = drop-append v rest
