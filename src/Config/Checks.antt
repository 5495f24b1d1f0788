-- ===== src/Config/Checks.antt =====
-- Boolean tests of `validate` and what they say of a setting.
use torrent_tv.Prelude.{
  ℕ, ◌≤◌, ◌≡◌, ◌≢◌, ◌↔◌, ◌⊎◌, refl, sym, ap, subst, ◌∙◌, Bool, true, false, not, ◌&&◌, ◌||◌, none,
  List, [], ◌∷◌, inl, inr, In, null, any, Bool-cases, arith,
}
use torrent_tv.Prelude.Int.{ℤ, pos, negsuc, pos_part, ltb_ℤ, eqb_ℤ, eqb_ℤ_iff}
use torrent_tv.Prelude.Bytes.{Bytes, eqb, eqb_iff}
use torrent_tv.Config.{Fault, outside, atom_of, is_known, normalize_metadata_providers, first_fault}
use torrent_tv.Config.Providers.{is_foreign, any-normalize_metadata_providers}

-- A signed number between two natural ones.
abbrev pub Within : ℕ → ℕ → ℤ → Type 0
Within low high (pos n) = (low ≤ n) × (n ≤ high)
Within low high (negsuc n) = ⊥

abbrev pub Filled : Bytes → Type 0
Filled s = null s ≡ false

pub outside_iff :
    (low high : ℕ) (v : ℤ) → (outside (pos low) (pos high) v ≡ false) ↔ Within low high v
outside_iff low high (pos n) = ground arith
outside_iff low high (negsuc n) = ground arith

pub outside_above :
    (l h : ℕ) (low v : ℤ) (high : ℕ)
    → Within l h low
    → (outside low (pos high) v ≡ false) ↔ Within (pos_part low) high v
outside_above l h (pos low) v high w = outside_iff low high v
outside_above l h (negsuc low) v high w = absurd w

pub at_least_one : (v : ℤ) → (ltb_ℤ v (pos 1) ≡ false) ↔ ((n : ℕ) × (v ≡ pos n) × (1 ≤ n))
at_least_one (pos n) =
    ((λ h. (n, refl, ground arith)), (λ (m, e, h). ground (arith, ap pos_part e)))
at_least_one (negsuc n) = ((λ h. absurd (ground arith)), (λ (m, e, h). absurd cc))

pub or_iff :
    {a b : Bool} {P Q : Type 0} → (a ≡ false) ↔ P → (b ≡ false) ↔ Q → ((a || b) ≡ false) ↔ (P × Q)
or_iff {a} {b} p q =
    ((λ h. (p.0 (left a b h), q.0 (right a b h))), (λ (x, y). both a b (p.1 x) (q.1 y)))
  where
    left : (a b : Bool) → (a || b) ≡ false → a ≡ false
    left a b h = ground arith

    right : (a b : Bool) → (a || b) ≡ false → b ≡ false
    right a b h = ground arith

    both : (a b : Bool) → a ≡ false → b ≡ false → (a || b) ≡ false
    both a b h k = ground arith

pub not_iff : (a : Bool) → (not a ≡ false) ↔ (a ≡ true)
not_iff a = ground arith

pub same : (b : Bool) → (b ≡ false) ↔ (b ≡ false)
same b = ((λ x. x), (λ x. x))

pub clash : ¬ (true ≡ false)
clash h = cc

pub any_iff :
    {A : Type 0} {P : A → Type 0} (g : A → Bool) (xs : List A)
    → ((x : A) → (g x ≡ false) ↔ P x)
    → (any g xs ≡ false) ↔ ((x : A) → In x xs → P x)
any_iff g [] h = ((λ e x i. absurd i), (λ k. refl))
any_iff {A} {P} g (y ∷ ys) h =
    let later = any_iff g ys h in
    (
      (λ e x i. head_or x (or_iff (h y) later).0 e i),
      (λ k. (or_iff (h y) later).1 (k y (inl refl), λ x i. k x (inr i))),
    )
  where
    head_or :
        (x : A)
        → ((g y || any g ys) ≡ false → P y × ((z : A) → In z ys → P z))
        → (g y || any g ys) ≡ false
        → In x (y ∷ ys)
        → P x
    head_or x f e (inl at) = subst P (sym at) (f e).0
    head_or x f e (inr i) = (f e).1 x i

abbrev pub Clean : List (Bool × Fault) → Type 0
Clean [] = Unit
Clean ((bad, fault) ∷ cs) = (bad ≡ false) × Clean cs

pub first_fault-Clean : (cs : List (Bool × Fault)) → (first_fault cs ≡ none) ↔ Clean cs
first_fault-Clean [] = ((λ e. tt), (λ u. refl))
first_fault-Clean ((true, f) ∷ cs) = ((λ h. absurd (ground arith)), (λ (x, y). absurd (clash x)))
first_fault-Clean ((false, f) ∷ cs) =
    ((λ h. (refl, (first_fault-Clean cs).0 h)), (λ (x, y). (first_fault-Clean cs).1 y))

-- A check, and the others behind it.
pub step : {P Q R S : Type 0} → P ↔ Q → (Q → R ↔ S) → (P × R) ↔ (Q × S)
step p q = ((λ (x, y). (p.0 x, (q (p.0 x)).0 y)), (λ (x, y). (p.1 x, (q x).1 y)))

pub eqb_absent : (a b : Bytes) → (not (eqb a b) ≡ false) ↔ (a ≡ b)
eqb_absent a b = (
  (λ h. (eqb_iff a b).0 ((not_iff (eqb a b)).0 h)),
  (λ e. (not_iff (eqb a b)).1 ((eqb_iff a b).1 e)),
)

-- One of two texts.
pub either_iff : (x a b : Bytes) → ((not (eqb x a) && not (eqb x b)) ≡ false) ↔ ((x ≡ a) ⊎ (x ≡ b))
either_iff x a b = (
  (λ h. elim (Bool-cases (eqb x a)) [
    | inl e ↦ inl ((eqb_iff x a).0 e)
    | inr e ↦ inr ((eqb_absent x b).0 (ap (λ c. not c && not (eqb x b)) (sym e) ∙ h))
  ]),
  (λ s. elim s [
    | inl e ↦ rw ((eqb_iff x a).1 e) refl
    | inr e ↦ rw ((eqb_iff x b).1 e) (last (eqb x a))
  ]),
)
  where
    last : (c : Bool) → (not c && not true) ≡ false
    last c = ground arith

pub ports_iff :
    (p q : ℤ)
    → ((not (eqb_ℤ p (pos 0)) && not (eqb_ℤ q (pos 0)) && eqb_ℤ p q) ≡ false)
      ↔ ((p ≡ pos 0) ⊎ ((q ≡ pos 0) ⊎ (p ≢ q)))
ports_iff p q = (
  (λ h. elim (Bool-cases (eqb_ℤ p (pos 0))) [
    | inl a ↦ inl ((eqb_ℤ_iff p (pos 0)).0 a)
    | inr a ↦ elim (Bool-cases (eqb_ℤ q (pos 0))) [
      | inl b ↦ inr (inl ((eqb_ℤ_iff q (pos 0)).0 b))
      | inr b ↦ inr (inr (λ e. clash (sym (ap₃ a b ((eqb_ℤ_iff p q).1 e)) ∙ h)))
    ]
  ]),
  (λ x. elim x [
    | inl e ↦ rw ((eqb_ℤ_iff p (pos 0)).1 e) refl
    | inr (inl e) ↦ rw ((eqb_ℤ_iff q (pos 0)).1 e) (middle (eqb_ℤ p (pos 0)) (eqb_ℤ p q))
    | inr (inr n) ↦ elim (Bool-cases (eqb_ℤ p q)) [
      | inl e ↦ absurd (n ((eqb_ℤ_iff p q).0 e))
      | inr e ↦ rw e (last (eqb_ℤ p (pos 0)) (eqb_ℤ q (pos 0)))
    ]
  ]),
)
  where
    ap₃ : {a b c : Bool} → a ≡ false → b ≡ false → c ≡ true → (not a && not b && c) ≡ true
    ap₃ x y z = ground arith

    middle : (a c : Bool) → (not a && not true && c) ≡ false
    middle a c = ground arith

    last : (a b : Bool) → (not a && not b && false) ≡ false
    last a b = ground arith

blank_or : (s : Bytes) (k : Bool) → ((not (null s) && not k) ≡ false) ↔ ((s ≡ []) ⊎ (k ≡ true))
blank_or [] k = ((λ h. inl refl), (λ x. refl))
blank_or (c ∷ s) true = ((λ h. inr refl), (λ x. refl))
blank_or (c ∷ s) false = ((λ h. absurd (clash h)), (λ x. absurd (neither x)))
  where
    neither : ¬ ((c ∷ s ≡ []) ⊎ (false ≡ true))
    neither (inl e) = cc
    neither (inr e) = cc

pub providers_iff :
    (ps : List Bytes)
    → (any (λ p. not (is_known p)) (normalize_metadata_providers ps) ≡ false)
      ↔ ((p : Bytes) → In p ps → (atom_of p ≡ []) ⊎ (is_known (atom_of p) ≡ true))
providers_iff ps =
    let each = any_iff is_foreign ps foreign in
    (
      (λ h. each.0 (sym (any-normalize_metadata_providers ps) ∙ h)),
      (λ k. any-normalize_metadata_providers ps ∙ each.1 k),
    )
  where
    foreign :
        (p : Bytes) → (is_foreign p ≡ false) ↔ ((atom_of p ≡ []) ⊎ (is_known (atom_of p) ≡ true))
    foreign p = blank_or (atom_of p) (is_known (atom_of p))
