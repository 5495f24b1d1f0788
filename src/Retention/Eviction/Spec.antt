-- ===== src/Retention/Eviction/Spec.antt =====
-- What one call of `evictNext` comes to.
use torrent_tv.Prelude.{
  ◌<◌, ◌≡◌, refl, sym, subst, Bool, true, false, Option, none, some, List, [], ◌∷◌, ◌⊎◌, inl, inr,
  In, All, length,
}
use torrent_tv.Prelude.Bytes.{Bytes}
use torrent_tv.Retention.{
  Float, Download, RetentionRoute, RetentionPlan, Settings, less, retention_protected,
}
use torrent_tv.Retention.Victim.{SliceSort, victim_of, Chosen, victim_of-Chosen}
use torrent_tv.Retention.Survey.{Round, Failure}
use torrent_tv.Retention.Eviction.{
  Evicted, nobody, eviction_failed, evicted, outcome_of, evict_next, remove_torrent,
}
use torrent_tv.Retention.Eviction.Shrinks.{IsManaged, remove_torrent-lt}
use torrent_tv.Retention.Eviction.Removes.{
  TakesOnly, TakesAll, remove_torrent-TakesOnly, remove_torrent-TakesAll,
}

All-In : {A : Type 0} (P : A → Type 0) (xs : List A) (a : A) → In a xs → All P xs → P a
All-In P [] a i v = absurd i
All-In P (x ∷ xs) a (inl e) v = subst P (sym e) v.0
All-In P (x ∷ xs) a (inr i) v = All-In P xs a i v.1

pub Evicted-cases :
    {F : Type 0} (r : Evicted F)
    → (r ≡ nobody)
      ⊎ (((e : Failure) × (rows : List (Download F)) × (r ≡ eviction_failed e rows))
          ⊎ ((v : RetentionRoute F) × (rows : List (Download F)) × (r ≡ evicted v rows)))
Evicted-cases nobody = inl refl
Evicted-cases (eviction_failed e rows) = inr (inl (e, rows, refl))
Evicted-cases (evicted v rows) = inr (inr (v, rows, refl))

module _ {F : Type 0} (float : Float F) (sorter : SliceSort F) (registered leases : Bytes → Bool)
    (settings : Settings F) where
  -- The victim of a plan: surveyed, not protected, and no unprotected route before it.
  abbrev pub IsVictim : List Bytes → RetentionPlan F → RetentionRoute F → Type 0
  IsVictim rules plan v =
      In v plan.routes
      × (retention_protected float leases settings v ≡ false)
      × ((r : RetentionRoute F)
          → In r plan.routes
          → retention_protected float leases settings r ≡ false
          → less rules r v ≡ false)

  -- With nobody evicted every surveyed route is protected; an eviction takes all rows of a victim and
  -- no others, and leaves fewer; one that fails takes none but rows of a victim.
  abbrev pub IsEviction : List Bytes → RetentionPlan F → List (Download F) → Evicted F → Type 0
  IsEviction rules plan rows nobody =
      (r : RetentionRoute F) → In r plan.routes → retention_protected float leases settings r ≡ true
  IsEviction rules plan rows (eviction_failed e rows') =
      (v : RetentionRoute F) × IsVictim rules plan v × TakesOnly v.engine_id rows rows'
  IsEviction rules plan rows (evicted v rows') =
      IsVictim rules plan v
      × TakesOnly v.engine_id rows rows'
      × TakesAll v.engine_id rows'
      × (length rows' < length rows)

  outcome-IsEviction :
      (rules : List Bytes) (plan : RetentionPlan F) (rows : List (Download F))
      (v : RetentionRoute F) (r : List (Download F) × Option Failure)
      → Chosen float sorter leases settings rules plan.routes (some v)
      → TakesOnly v.engine_id rows r.0
      → (r.1 ≡ none → TakesAll v.engine_id r.0)
      → (r.1 ≡ none → length r.0 < length rows)
      → IsEviction rules plan rows (outcome_of v r)
  unfolding Chosen
  outcome-IsEviction rules plan rows v (rows', none) c only all h =
      ((c.0.0, c.0.1, (λ r i p. (c.1 r (i, p)).0)), only, all refl, h refl)
  outcome-IsEviction rules plan rows v (rows', some e) c only all h =
      (v, (c.0.0, c.0.1, (λ r i p. (c.1 r (i, p)).0)), only)

  choice-IsEviction :
      (round : Round F) (rules : List Bytes) (plan : RetentionPlan F) (rows : List (Download F))
      (choice : Option (RetentionRoute F))
      → victim_of float sorter leases settings rules plan.routes ≡ choice
      → Chosen float sorter leases settings rules plan.routes choice
      → All (IsManaged rows) plan.routes
      → IsEviction rules plan rows
          (evict_next float sorter registered leases settings round rules plan rows)
  unfolding evict_next Chosen
  choice-IsEviction round rules plan rows none e c v = rw (e, evict_next) c
  choice-IsEviction round rules plan rows (some victim) e c v =
      let (stored, mine) = All-In (IsManaged rows) plan.routes victim c.0.0 v in
      rw (e, evict_next)
        (outcome-IsEviction rules plan rows victim
          (remove_torrent registered round victim.engine_id rows) c
          (remove_torrent-TakesOnly registered round victim.engine_id rows)
          (remove_torrent-TakesAll registered round victim.engine_id rows)
          (remove_torrent-lt registered round victim.engine_id rows victim.first stored mine))

  pub evict_next-IsEviction :
      (round : Round F) (rules : List Bytes) (plan : RetentionPlan F) (rows : List (Download F))
      → All (IsManaged rows) plan.routes
      → IsEviction rules plan rows
          (evict_next float sorter registered leases settings round rules plan rows)
  evict_next-IsEviction round rules plan rows v =
      choice-IsEviction round rules plan rows
        (victim_of float sorter leases settings rules plan.routes) refl
        (victim_of-Chosen float sorter leases settings rules plan.routes) v
