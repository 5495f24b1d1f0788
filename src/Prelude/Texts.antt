-- ===== src/Prelude/Texts.antt =====
-- More of package `strings`: prefixes, suffixes, splitting and trimming, and what they mean.
use torrent_tv.Prelude.{
  ℕ, ◌≡◌, refl, sym, subst₂, ap, inl, inr, Bool, true, false, ◌&&◌, ◌||◌, Option, none, some, List,
  [], ◌∷◌, ◌++◌, arith, ◌==◌, if◌then◌else◌, null, Bool-cases,
}
use torrent_tv.Prelude.Bytes.{Bytes, eqb, eqb_iff, eqb_refl}

-- `strings.HasPrefix`.
unfoldable pub has_prefix : Bytes → Bytes → Bool
has_prefix s [] = true
has_prefix [] (y ∷ ys) = false
has_prefix (x ∷ xs) (y ∷ ys) = x == y && has_prefix xs ys

-- `strings.HasSuffix`.
unfoldable pub has_suffix : Bytes → Bytes → Bool
unfolding eqb
has_suffix [] suffix = null suffix
has_suffix (x ∷ xs) suffix = eqb (x ∷ xs) suffix || has_suffix xs suffix

-- `strings.Contains` of one byte.
unfoldable pub has_byte : Bytes → ℕ → Bool
has_byte [] c = false
has_byte (x ∷ xs) c = x == c || has_byte xs c

-- Without the bytes at the end, or at the start, that pass a test.
unfoldable pub drop_right : (ℕ → Bool) → Bytes → Bytes
drop_right p [] = []
drop_right p (c ∷ s) = let rest = drop_right p s in if null rest && p c then [] else c ∷ rest

unfoldable pub drop_left : (ℕ → Bool) → Bytes → Bytes
drop_left p [] = []
drop_left p (c ∷ s) = let rest = drop_left p s in if p c then rest else c ∷ s

abbrev push : ℕ → List Bytes → List Bytes
push c [] = (c ∷ []) ∷ []
push c (w ∷ ws) = (c ∷ w) ∷ ws

-- `strings.Split` at one byte.
unfoldable pub split : ℕ → Bytes → List Bytes
split sep [] = [] ∷ []
split sep (c ∷ s) = let rest = split sep s in if c == sep then [] ∷ rest else push c rest

pub has_prefix_append : (p r : Bytes) → has_prefix (p ++ r) p ≡ true
unfolding has_prefix
has_prefix_append [] r = refl
has_prefix_append (x ∷ p) r = ground (arith, has_prefix_append p r)

pub has_prefix_rest : (s p : Bytes) → has_prefix s p ≡ true → (r : Bytes) × (s ≡ p ++ r)
unfolding has_prefix
has_prefix_rest s [] h = (s, refl)
has_prefix_rest [] (y ∷ ys) h = absurd (ground arith)
has_prefix_rest (x ∷ xs) (y ∷ ys) h =
    let (r, e) = has_prefix_rest xs ys (ground arith) in
    let same : x ≡ y = ground arith in (r, subst₂ (λ a t. a ∷ xs ≡ y ∷ t) (sym same) e refl)

pub has_suffix_append : (r suffix : Bytes) → has_suffix (r ++ suffix) suffix ≡ true
unfolding has_suffix
has_suffix_append [] [] = refl
has_suffix_append [] (x ∷ suffix) = ground (arith, eqb_refl (x ∷ suffix))
has_suffix_append (x ∷ r) suffix = ground (arith, has_suffix_append r suffix)

pub has_suffix_rest :
    (s suffix : Bytes) → has_suffix s suffix ≡ true → (r : Bytes) × (s ≡ r ++ suffix)
unfolding has_suffix
has_suffix_rest [] [] h = ([], refl)
has_suffix_rest [] (y ∷ ys) h = absurd (ground arith)
has_suffix_rest (x ∷ xs) suffix h = elim (Bool-cases (eqb (x ∷ xs) suffix)) [
  | inl e ↦ ([], (eqb_iff (x ∷ xs) suffix).0 e)
  | inr e ↦ let (r, f) = has_suffix_rest xs suffix (ground arith) in (x ∷ r, ap (λ t. x ∷ t) f)
]

-- `strings.CutPrefix` and `strings.TrimPrefix`.
unfoldable pub cut_prefix : Bytes → Bytes → Option Bytes
cut_prefix s [] = some s
cut_prefix [] (y ∷ ys) = none
cut_prefix (x ∷ xs) (y ∷ ys) = let rest = cut_prefix xs ys in if x == y then rest else none

abbrev pub either_text : Option Bytes → Bytes → Bytes
either_text none s = s
either_text (some t) s = t

unfoldable pub trim_prefix : Bytes → Bytes → Bytes
unfolding cut_prefix
trim_prefix s prefix = either_text (cut_prefix s prefix) s

-- `strings.Contains`.
unfoldable pub has_substring : Bytes → Bytes → Bool
unfolding has_prefix
has_substring [] part = null part
has_substring (c ∷ s) part = has_prefix (c ∷ s) part || has_substring s part

pub cut_prefix_same : (s p : Bytes) → has_prefix s p ≡ false → cut_prefix s p ≡ none
unfolding has_prefix cut_prefix
cut_prefix_same s [] h = cc
cut_prefix_same [] (y ∷ ys) h = refl
cut_prefix_same (x ∷ xs) (y ∷ ys) h = ground (arith, cut_prefix_same xs ys)

pub cut_prefix_append : (p r : Bytes) → cut_prefix (p ++ r) p ≡ some r
unfolding cut_prefix
cut_prefix_append [] r = refl
cut_prefix_append (x ∷ p) r = ground (arith, cut_prefix_append p r)

pub trim_prefix_same : (s p : Bytes) → has_prefix s p ≡ false → trim_prefix s p ≡ s
unfolding trim_prefix
trim_prefix_same s p h = rw (cut_prefix_same s p h) refl
