-- ===== src/Trust/Policy.antt =====
-- The policy that the two environment variables make.
use torrent_tv.Prelude.{
  ◌≡◌, ◌≢◌, refl, sym, ap, ◌∙◌, ◌↔◌, ◌⊎◌, inl, inr, true, false, Option, List, [], ◌∷◌, arith, null,
  map, Bool-cases, In,
}
use torrent_tv.Prelude.Bytes.{Bytes, eqb, lower, trim_space, contains, eqb_iff}
use torrent_tv.Prelude.Texts.{split}
use torrent_tv.Trust.{
  Net, split_parts, split_list, new_trust_policy, host_only, host_allowed, set_of,
}

-- An atom of a list is a part of the text, trimmed and in lower case, that is not blank.
abbrev pub Atom : List Bytes → Bytes → Type 0
Atom parts x = (part : Bytes) × In part parts × (x ≡ lower (trim_space part)) × (x ≢ [])

Atom-more : (p : Bytes) (ps : List Bytes) (x : Bytes) → Atom ps x → Atom (p ∷ ps) x
Atom-more p ps x (q, i, e, n) = (q, inr i, e, n)

null_iff : (x : Bytes) → (null x ≡ true) ↔ (x ≡ [])
null_iff [] = ((λ e. refl), (λ e. refl))
null_iff (c ∷ x) = ((λ e. cc), (λ e. cc))

clash : ¬ (false ≡ true)
clash e = cc

split_parts-Atom : (parts : List Bytes) (x : Bytes) → In x (split_parts parts) ↔ Atom parts x
unfolding split_parts
split_parts-Atom [] x = ((λ i. absurd i), (λ (q, i, e, n). absurd i))
split_parts-Atom (p ∷ ps) x = elim (Bool-cases (null (lower (trim_space p)))) [
  | inl blank ↦ rw blank (blank_part blank (split_parts-Atom ps x))
  | inr filled ↦ rw filled (filled_part filled (split_parts-Atom ps x))
]
  where
    blank_part :
        null (lower (trim_space p)) ≡ true
        → In x (split_parts ps) ↔ Atom ps x
        → In x (split_parts ps) ↔ Atom (p ∷ ps) x
    blank_part blank ih = (
      (λ i. Atom-more p ps x (ih.0 i)),
      (λ (q, place, e, n). elim place [
        | inl same ↦ absurd (
            n (e ∙ ap (λ y. lower (trim_space y)) same ∙ (null_iff (lower (trim_space p))).0 blank))
        | inr i ↦ ih.1 (q, i, e, n)
      ]),
    )

    filled_part :
        null (lower (trim_space p)) ≡ false
        → In x (split_parts ps) ↔ Atom ps x
        → In x (lower (trim_space p) ∷ split_parts ps) ↔ Atom (p ∷ ps) x
    filled_part filled ih = (
      (λ i. elim i [
        | inl e ↦ (
          p,
          inl refl,
          e,
          (λ z. clash (sym filled ∙ (null_iff (lower (trim_space p))).1 (sym e ∙ z))),
        )
        | inr j ↦ Atom-more p ps x (ih.0 j)
      ]),
      (λ (q, place, e, n). elim place [
        | inl same ↦ inl (e ∙ ap (λ y. lower (trim_space y)) same)
        | inr i ↦ inr (ih.1 (q, i, e, n))
      ]),
    )

-- A list of the environment has exactly the comma-separated parts as its atoms, trimmed, in lower
-- case and without the blank ones.
pub split_list-Atom : (raw x : Bytes) → In x (split_list raw) ↔ Atom (split b',' raw) x
unfolding split_list
split_list-Atom raw x = split_parts-Atom (split b',' raw) x

module _ (net : Net) where
  abbrev pub OneOf : List Bytes → Bytes → Type 0
  OneOf hosts h = (x : Bytes) × In x hosts × (host_only net x ≡ h)

  contains-OneOf :
      (hosts : List Bytes) (h : Bytes)
      → (contains (map (host_only net) hosts) h ≡ true) ↔ OneOf hosts h
  contains-OneOf [] h = ((λ e. cc), (λ (x, i, e). absurd i))
  contains-OneOf (y ∷ hosts) h = (to (contains-OneOf hosts h).0, from (contains-OneOf hosts h).1)
    where
      to :
          (contains (map (host_only net) hosts) h ≡ true → OneOf hosts h)
          → contains (map (host_only net) (y ∷ hosts)) h ≡ true
          → OneOf (y ∷ hosts) h
      to ih e = elim (Bool-cases (eqb (host_only net y) h)) [
        | inl f ↦ (y, inl refl, (eqb_iff (host_only net y) h).0 f)
        | inr f ↦ let (x, i, g) = ih (ground arith) in (x, inr i, g)
      ]

      from :
          (OneOf hosts h → contains (map (host_only net) hosts) h ≡ true)
          → OneOf (y ∷ hosts) h
          → contains (map (host_only net) (y ∷ hosts)) h ≡ true
      from ih (x, inl same, e) =
          let f = (eqb_iff (host_only net y) h).1 (sym (ap (host_only net) same) ∙ e) in
          ground arith
      from ih (x, inr i, e) = let f = ih (x, i, e) in ground arith

  from_atoms :
      (origins : Option (List Bytes)) (atoms : List Bytes) (host : Bytes)
      → (host_allowed net
            (record { origins = origins; hosts = set_of net (host_only net) atoms })
            host
          ≡ true)
        ↔ ((atoms ≡ []) ⊎ OneOf atoms (host_only net host))
  unfolding host_allowed
  from_atoms origins [] host = ((λ e. inl refl), (λ e. refl))
  from_atoms origins (x ∷ xs) host =
      let t = contains-OneOf (x ∷ xs) (host_only net host) in
      ((λ e. inr (t.0 e)), (λ e. elim e [ inl f ↦ cc | inr f ↦ t.1 f ]))

  -- The policy of the environment takes a Host exactly if TORRENT_TV_ALLOWED_HOSTS names none, or
  -- names one that is the same host once ports, brackets and case are taken off both.
  pub host_allowed-new_trust_policy :
      (allowed_origins allowed_hosts host : Bytes)
      → (host_allowed net (new_trust_policy net allowed_origins allowed_hosts) host ≡ true)
        ↔ ((split_list allowed_hosts ≡ []) ⊎ OneOf (split_list allowed_hosts) (host_only net host))
  unfolding new_trust_policy
  host_allowed-new_trust_policy allowed_origins allowed_hosts host =
      from_atoms _ (split_list allowed_hosts) host
