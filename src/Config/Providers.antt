-- ===== src/Config/Providers.antt =====
-- The metadata providers, normalized.
use torrent_tv.Prelude.{
  ◌≡◌, refl, sym, ap, ◌∙◌, Bool, true, not, ◌&&◌, ◌||◌, List, [], ◌∷◌, inl, inr, null, any,
  Bool-cases,
}
use torrent_tv.Prelude.Bytes.{Bytes, eqb, eqb_iff, contains}
use torrent_tv.Config.{atom_of, is_known, normalize_from, normalize_metadata_providers}

-- Neither blank nor known.
abbrev pub is_foreign : Bytes → Bool
is_foreign p = not (null (atom_of p)) && not (is_known (atom_of p))

abbrev AllKnown : List Bytes → Type 0
AllKnown seen = (x : Bytes) → contains seen x ≡ true → is_known x ≡ true

known_also :
    (a : Bytes) (seen : List Bytes) → is_known a ≡ true → AllKnown seen → AllKnown (a ∷ seen)
known_also a seen k v x h = elim (Bool-cases (eqb a x)) [
  | inl same ↦ ap is_known (sym ((eqb_iff a x).0 same)) ∙ k
  | inr other ↦ v x (ap (λ b. b || contains seen x) (sym other) ∙ h)
]

any-normalize_from :
    (seen providers : List Bytes)
    → AllKnown seen
    → any (λ p. not (is_known p)) (normalize_from seen providers) ≡ any is_foreign providers
unfolding normalize_from
any-normalize_from seen [] v = refl
any-normalize_from seen (p ∷ ps) v = elim (Bool-cases (null (atom_of p))) [
  | inl blank ↦ rw (blank, any-normalize_from seen ps v) refl
  | inr named ↦ elim (Bool-cases (contains seen (atom_of p))) [
    | inl old ↦ rw (named, old, v (atom_of p) old) (any-normalize_from seen ps v)
    | inr new ↦ elim (Bool-cases (is_known (atom_of p))) [
      | inl k ↦
          rw (named, new, k)
            (any-normalize_from (atom_of p ∷ seen) ps (known_also (atom_of p) seen k v))
      | inr u ↦ rw (named, new, u) refl
    ]
  ]
]

-- The normalized list has an unknown provider exactly if some provider is neither blank nor known.
pub any-normalize_metadata_providers :
    (providers : List Bytes)
    → any (λ p. not (is_known p)) (normalize_metadata_providers providers)
      ≡ any is_foreign providers
unfolding normalize_metadata_providers
any-normalize_metadata_providers providers = any-normalize_from [] providers (λ x h. cc)
