-- ===== src/Prelude/Trims.antt =====
-- Texts that are trimmed and in lower case, as the settings keep them.
use torrent_tv.Prelude.{
  ℕ, ◌≡◌, refl, ap, ◌∙◌, false, ◌&&◌, [], ◌∷◌, inl, inr, Bool-cases, null, arith,
}
use torrent_tv.Prelude.Bytes.{Bytes, lower, to_lower, is_space, trim_left, trim_right, trim_space}

is_space-to_lower : (c : ℕ) → is_space (to_lower c) ≡ is_space c
unfolding is_space to_lower
is_space-to_lower c = ground arith

to_lower-to_lower : (c : ℕ) → to_lower (to_lower c) ≡ to_lower c
unfolding to_lower
to_lower-to_lower c = ground arith

lower-lower : (s : Bytes) → lower (lower s) ≡ lower s
unfolding lower
lower-lower [] = refl
lower-lower (c ∷ s) = rw (to_lower-to_lower c, lower-lower s) refl

null-lower : (s : Bytes) → null (lower s) ≡ null s
unfolding lower
null-lower [] = refl
null-lower (c ∷ s) = refl

trim_left-lower : (s : Bytes) → trim_left (lower s) ≡ lower (trim_left s)
unfolding trim_left lower
trim_left-lower [] = refl
trim_left-lower (c ∷ s) = elim (Bool-cases (is_space c)) [
  | inl space ↦ rw (is_space-to_lower c, space) (trim_left-lower s)
  | inr other ↦ rw (is_space-to_lower c, other) refl
]

trim_right-lower : (s : Bytes) → trim_right (lower s) ≡ lower (trim_right s)
unfolding trim_right lower
trim_right-lower [] = refl
trim_right-lower (c ∷ s) = elim (Bool-cases (null (trim_right s) && is_space c)) [
  | inl space ↦ rw (is_space-to_lower c, trim_right-lower s, null-lower (trim_right s), space) refl
  | inr other ↦ rw (is_space-to_lower c, trim_right-lower s, null-lower (trim_right s), other) refl
]

trim_right-trim_right : (s : Bytes) → trim_right (trim_right s) ≡ trim_right s
unfolding trim_right
trim_right-trim_right [] = refl
trim_right-trim_right (c ∷ s) = elim (Bool-cases (null (trim_right s) && is_space c)) [
  | inl space ↦ rw (space, trim_right) refl
  | inr other ↦ rw (other, trim_right, trim_right-trim_right s) (rw other refl)
]

kept :
    (c : ℕ) (s : Bytes) → is_space c ≡ false → trim_left (trim_right (c ∷ s)) ≡ trim_right (c ∷ s)
unfolding trim_left trim_right
kept c s h = elim (Bool-cases (null (trim_right s))) [
  | inl e ↦ rw (e, h, trim_right) (rw h refl)
  | inr e ↦ rw (e, trim_right) (rw h refl)
]

trim_left-trim_space : (s : Bytes) → trim_left (trim_space s) ≡ trim_space s
unfolding trim_left trim_space
trim_left-trim_space [] = refl
trim_left-trim_space (c ∷ s) = elim (Bool-cases (is_space c)) [
  | inl space ↦ rw space (trim_left-trim_space s)
  | inr other ↦ rw other (kept c s other)
]

pub trim_space-trim_space : (s : Bytes) → trim_space (trim_space s) ≡ trim_space s
unfolding trim_space
trim_space-trim_space s =
    ap trim_right (trim_left-trim_space s) ∙ trim_right-trim_right (trim_left s)

trim_space-lower : (s : Bytes) → trim_space (lower s) ≡ lower (trim_space s)
unfolding trim_space
trim_space-lower s = ap trim_right (trim_left-lower s) ∙ trim_right-lower (trim_left s)

-- Trimming and lowering twice is doing it once.
pub lower-trim_space :
    (s : Bytes) → lower (trim_space (lower (trim_space s))) ≡ lower (trim_space s)
lower-trim_space s =
    ap lower (trim_space-lower (trim_space s))
    ∙ lower-lower (trim_space (trim_space s))
    ∙ ap lower (trim_space-trim_space s)
