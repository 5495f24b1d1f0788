-- ===== src/Prelude/Lists.antt =====
-- Lists measured by native numbers, and predicates and tests on every element.
use Prim.Native.Nat.{ℕ, zero, suc, ◌+◌, ◌≤◌, ◌<◌}
use mathlib.Core.Path.{◌≡◌, refl, sym, ap, ◌∙◌}
use mathlib.Core.Logic.{◌⊎◌, inl, inr}
use mathlib.Core.Bool.{Bool, true, false, ◌||◌}
use mathlib.Core.List.{List, [], ◌∷◌, ◌++◌}
use native.Mathlib.Omega.{arith}

module _ {ℓ} {A : Type ℓ} where
  abbrev pub length : List A → ℕ
  length [] = 0
  length (x ∷ xs) = suc (length xs)

  abbrev pub take : ℕ → List A → List A
  take zero xs = []
  take (suc n) [] = []
  take (suc n) (x ∷ xs) = x ∷ take n xs

  -- The elements that pass a Boolean test.
  abbrev pub keep : (A → Bool) → List A → List A
  keep p [] = []
  keep p (x ∷ xs) = (elim (p x) [ true ↦ x ∷ keep p xs | false ↦ keep p xs ])

  abbrev pub any : (A → Bool) → List A → Bool
  any p [] = false
  any p (x ∷ xs) = p x || any p xs

  abbrev pub null : List A → Bool
  null [] = true
  null (x ∷ xs) = false

  pub length-append : (xs ys : List A) → length (xs ++ ys) ≡ length xs + length ys
  length-append [] ys = omega arith
  length-append (x ∷ xs) ys = omega (arith, length-append xs ys)

  pub length-keep-le : (p : A → Bool) (xs : List A) → length (keep p xs) ≤ length xs
  length-keep-le p [] = omega arith
  length-keep-le p (x ∷ xs) = ground (arith, length-keep-le p xs)

module _ {A : Type 0} where
  -- Membership, with the place kept.
  abbrev pub In : A → List A → Type 0
  In a [] = ⊥
  In a (x ∷ xs) = (a ≡ x) ⊎ In a xs

  pub In-append_left : (a : A) (xs ys : List A) → In a xs → In a (xs ++ ys)
  In-append_left a [] ys i = absurd i
  In-append_left a (x ∷ xs) ys (inl e) = inl e
  In-append_left a (x ∷ xs) ys (inr i) = inr (In-append_left a xs ys i)

  pub In-append_right : (a : A) (xs ys : List A) → In a ys → In a (xs ++ ys)
  In-append_right a [] ys i = i
  In-append_right a (x ∷ xs) ys i = inr (In-append_right a xs ys i)

  pub In-append : (a : A) (xs ys : List A) → In a (xs ++ ys) → In a xs ⊎ In a ys
  In-append a [] ys i = inr i
  In-append a (x ∷ xs) ys (inl e) = inl (inl e)
  In-append a (x ∷ xs) ys (inr i) = elim (In-append a xs ys i) [
    | inl j ↦ inl (inr j)
    | inr j ↦ inr j
  ]

  -- What a test keeps.
  keep-In_step :
      (p : A → Bool) (a x : A) (xs ys : List A) (b : Bool)
      → p x ≡ b
      → (In a ys → In a xs × (p a ≡ true))
      → In a (elim b [ true ↦ x ∷ ys | false ↦ ys ])
      → In a (x ∷ xs) × (p a ≡ true)
  keep-In_step p a x xs ys true e ih (inl same) = (inl same, ap p same ∙ e)
  keep-In_step p a x xs ys true e ih (inr j) = (inr (ih j).0, (ih j).1)
  keep-In_step p a x xs ys false e ih j = (inr (ih j).0, (ih j).1)

  pub keep-In : (p : A → Bool) (a : A) (xs : List A) → In a (keep p xs) → In a xs × (p a ≡ true)
  keep-In p a [] i = absurd i
  keep-In p a (x ∷ xs) i = keep-In_step p a x xs (keep p xs) (p x) refl (keep-In p a xs) i

  In-keep_step :
      (p : A → Bool) (a x : A) (xs ys : List A) (b : Bool)
      → p x ≡ b
      → (In a xs → In a ys)
      → In a (x ∷ xs)
      → p a ≡ true
      → In a (elim b [ true ↦ x ∷ ys | false ↦ ys ])
  In-keep_step p a x xs ys true e ih (inl same) h = inl same
  In-keep_step p a x xs ys true e ih (inr j) h = inr (ih j)
  In-keep_step p a x xs ys false e ih (inl same) h =
      let clash : true ≡ false = sym h ∙ ap p same ∙ e in cc
  In-keep_step p a x xs ys false e ih (inr j) h = ih j

  pub In-keep : (p : A → Bool) (a : A) (xs : List A) → In a xs → p a ≡ true → In a (keep p xs)
  In-keep p a [] i h = absurd i
  In-keep p a (x ∷ xs) i h =
      In-keep_step p a x xs (keep p xs) (p x) refl (λ j. In-keep p a xs j h) i h

  pub keep-strict :
      (p : A → Bool) (a : A) (xs : List A) → In a xs → p a ≡ false → length (keep p xs) < length xs
  keep-strict p a [] i h = absurd i
  keep-strict p a (x ∷ xs) (inl e) h =
      let out : p x ≡ false = ap p (sym e) ∙ h in ground (arith, length-keep-le p xs)
  keep-strict p a (x ∷ xs) (inr i) h = ground (arith, keep-strict p a xs i h)

module _ {ℓ κ} {A : Type ℓ} (P : A → Type κ) where
  abbrev pub All : List A → Type κ
  All [] = Unit
  All (x ∷ xs) = P x × All xs

  pub All-append : (xs ys : List A) → All xs → All ys → All (xs ++ ys)
  All-append [] ys _ hy = hy
  All-append (x ∷ xs) ys (px, hx) hy = (px, All-append xs ys hx hy)
