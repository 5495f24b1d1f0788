-- ===== src/Retention/Victim.antt =====
-- Which route `evictNext` takes. `sort.Slice` is a parameter with what its documentation says.
use torrent_tv.Prelude.{
  ◌≡◌, refl, sym, ap, ◌∙◌, Bool, true, false, not, List, [], ◌∷◌, ◌⊎◌, ◌↔◌, inl, inr, Option, none,
  some, arith, keep, In, Bool-cases,
}
use torrent_tv.Prelude.Bytes.{Bytes}
use torrent_tv.Retention.{Float, RetentionRoute, Settings, less, retention_protected}
use torrent_tv.Retention.Order.{IsStrictTotal, less-IsStrictTotal}

module _ {F : Type 0} where
  -- No later element is less than an earlier one.
  abbrev pub IsSorted :
      (RetentionRoute F → RetentionRoute F → Bool) → List (RetentionRoute F) → Type 0
  IsSorted lt [] = Unit
  IsSorted lt (x ∷ xs) = ((y : RetentionRoute F) → In y xs → lt y x ≡ false) × IsSorted lt xs

-- `sort.Slice`: the same elements, sorted if the less function is a strict order.
pub record SliceSort (F : Type 0) : Type 0 where
  pub sort :
      (RetentionRoute F → RetentionRoute F → Bool)
      → List (RetentionRoute F)
      → List (RetentionRoute F)
  pub sort-In :
      (lt : RetentionRoute F → RetentionRoute F → Bool) (rs : List (RetentionRoute F))
      (r : RetentionRoute F)
      → In r (sort lt rs) ↔ In r rs
  pub sort-IsSorted :
      (lt : RetentionRoute F → RetentionRoute F → Bool) (rs : List (RetentionRoute F))
      → IsStrictTotal lt
      → IsSorted lt (sort lt rs)

module _ {F : Type 0} (float : Float F) (sorter : SliceSort F) where
  pub candidates : (Bytes → Bool) → Settings F → List (RetentionRoute F) → List (RetentionRoute F)
  candidates leases settings = keep (λ r. not (retention_protected float leases settings r))

  pub apply_eviction_rules : List Bytes → List (RetentionRoute F) → List (RetentionRoute F)
  apply_eviction_rules rules = sorter.sort (less rules)

  abbrev pub first_of_list : List (RetentionRoute F) → Option (RetentionRoute F)
  first_of_list [] = none
  first_of_list (r ∷ rs) = some r

  -- The victim of `evictNext`, if there is one.
  unfoldable pub victim_of :
      (Bytes → Bool) → Settings F → List Bytes → List (RetentionRoute F) → Option (RetentionRoute F)
  unfolding candidates apply_eviction_rules
  victim_of leases settings rules routes =
      first_of_list (apply_eviction_rules rules (candidates leases settings routes))

  abbrev Eligible :
      (Bytes → Bool) → Settings F → List (RetentionRoute F) → RetentionRoute F → Type 0
  Eligible leases settings routes r =
      In r routes × (retention_protected float leases settings r ≡ false)

  passed_over :
      (leases : Bytes → Bool) (settings : Settings F) (x : RetentionRoute F)
      (xs : List (RetentionRoute F)) (r : RetentionRoute F)
      → retention_protected float leases settings x ≡ true
      → Eligible leases settings (x ∷ xs) r
      → Eligible leases settings xs r
  passed_over leases settings x xs r shielded (inl e, h) =
      let b : true ≡ false =
        sym shielded ∙ sym (ap (retention_protected float leases settings) e) ∙ h in
      cc
  passed_over leases settings x xs r shielded (inr i, h) = (i, h)

  candidates_skip :
      (leases : Bytes → Bool) (settings : Settings F) (x : RetentionRoute F)
      (xs : List (RetentionRoute F))
      → retention_protected float leases settings x ≡ true
      → candidates leases settings (x ∷ xs) ≡ candidates leases settings xs
  unfolding candidates
  candidates_skip leases settings x xs e = ground arith

  candidates_take :
      (leases : Bytes → Bool) (settings : Settings F) (x : RetentionRoute F)
      (xs : List (RetentionRoute F))
      → retention_protected float leases settings x ≡ false
      → candidates leases settings (x ∷ xs) ≡ x ∷ candidates leases settings xs
  unfolding candidates
  candidates_take leases settings x xs e = ground arith

  In-candidates :
      (leases : Bytes → Bool) (settings : Settings F) (routes : List (RetentionRoute F))
      (r : RetentionRoute F)
      → In r (candidates leases settings routes) ↔ Eligible leases settings routes r
  In-candidates leases settings [] r = unfold candidates in ((λ h. absurd h), (λ h. absurd h.0))
  In-candidates leases settings (x ∷ xs) r =
      let ih = In-candidates leases settings xs r in
      elim (Bool-cases (retention_protected float leases settings x)) [
        | inl shielded ↦ rw (candidates_skip leases settings x xs shielded) (
          (λ i. let (j, h) = ih.0 i in (inr j, h)),
          (λ h. ih.1 (passed_over leases settings x xs r shielded h)),
        )
        | inr exposed ↦ rw (candidates_take leases settings x xs exposed) (
          (λ i. elim i [
            | inl e ↦ (inl e, ap (retention_protected float leases settings) e ∙ exposed)
            | inr j ↦ (inr (ih.0 j).0, (ih.0 j).1)
          ]),
          (λ h. elim (h.0) [ inl e ↦ inl e | inr j ↦ inr (ih.1 (j, h.1)) ]),
        )
      ]

  -- What a choice among the surveyed routes has to be.
  unfoldable pub Chosen :
      (Bytes → Bool)
      → Settings F
      → List Bytes
      → List (RetentionRoute F)
      → Option (RetentionRoute F)
      → Type 0
  Chosen leases settings rules routes none =
      (r : RetentionRoute F) → In r routes → retention_protected float leases settings r ≡ true
  Chosen leases settings rules routes (some v) =
      Eligible leases settings routes v
      × ((r : RetentionRoute F)
          → Eligible leases settings routes r
          → (less rules r v ≡ false) × ((less rules v r ≡ true) ⊎ (r.engine_id ≡ v.engine_id)))

  head-Chosen :
      (leases : Bytes → Bool) (settings : Settings F) (rules : List Bytes)
      (routes sorted : List (RetentionRoute F))
      → ((r : RetentionRoute F) → In r sorted ↔ Eligible leases settings routes r)
      → IsSorted (less rules) sorted
      → Chosen leases settings rules routes (first_of_list sorted)
  unfolding Chosen
  head-Chosen leases settings rules routes [] same sorted = λ r i.
      elim (Bool-cases (retention_protected float leases settings r)) [
        | inl h ↦ h
        | inr h ↦ absurd ((same r).1 (i, h))
      ]
  head-Chosen leases settings rules routes (v ∷ rest) same (first, sorted) =
      ((same v).0 (inl refl), λ r h. after_first r ((same r).1 h))
    where
      order : IsStrictTotal {F = F} (less rules)
      order = less-IsStrictTotal rules

      after_first :
          (r : RetentionRoute F)
          → In r (v ∷ rest)
          → (less rules r v ≡ false) × ((less rules v r ≡ true) ⊎ (r.engine_id ≡ v.engine_id))
      after_first r (inl e) = (
        ap (λ x. less rules x v) e ∙ order.irrefl v,
        inr (ap (λ (x : RetentionRoute F). x.engine_id) e),
      )
      after_first r (inr i) = (
        first r i,
        elim (Bool-cases (less rules v r)) [
          | inl h ↦ inl h
          | inr h ↦ inr (order.total r v (first r i) h)
        ],
      )

  -- The victim is a surveyed route that is not protected, and comes strictly before every other such
  -- route in the order of the configured rules, so it does not depend on how `sort.Slice` sorts; there
  -- is none exactly if every surveyed route is protected.
  pub victim_of-Chosen :
      (leases : Bytes → Bool) (settings : Settings F) (rules : List Bytes)
      (routes : List (RetentionRoute F))
      → Chosen leases settings rules routes (victim_of leases settings rules routes)
  unfolding victim_of
  victim_of-Chosen leases settings rules routes =
      head-Chosen leases settings rules routes _
        (λ r.
          let s = sorter.sort-In (less rules) (candidates leases settings routes) r in
          let c = In-candidates leases settings routes r in
          ((λ i. c.0 (s.0 i)), (λ h. s.1 (c.1 h))))
        (sorter.sort-IsSorted (less rules) (candidates leases settings routes)
          (less-IsStrictTotal rules))
