-- ===== src/Retention/Admission.antt =====
-- internal/application/service.go, `ensureAllocationRoom`: a new download is admitted behind the same
-- eviction as the retention run makes. `admissionMu` keeps one admission at a time; what other
-- requests have reserved is read anew each round (`claimed`), since they may release meanwhile.
use torrent_tv.Prelude.{
  ℕ, zero, suc, ◌<◌, ◌≡◌, refl, subst, Bool, true, false, ◌&&◌, none, some, List, [], ◌∷◌, ◌⊎◌, inl,
  inr, In, All, length, Bool-cases, Option-cases, arith, if◌then◌else◌,
}
use torrent_tv.Prelude.Int.{ℤ, pos, ltb_ℤ, add64, sub64}
use torrent_tv.Prelude.Bytes.{Bytes}
use torrent_tv.Retention.{
  Float, Download, RetentionRoute, RetentionPlan, Settings, Reason, cap, reserve,
  retention_protected, retention_deficit, normalize_eviction_rules,
}
use torrent_tv.Retention.Victim.{SliceSort}
use torrent_tv.Retention.Survey.{Round, Failure, failed, done, retention_survey}
use torrent_tv.Retention.Eviction.{nobody, eviction_failed, evicted, evict_next}
use torrent_tv.Retention.Eviction.Shrinks.{IsManaged, retention_survey-IsManaged}
use torrent_tv.Retention.Eviction.Spec.{IsEviction, Evicted-cases, evict_next-IsEviction}
use torrent_tv.Retention.Run.Finish.{Attempt-cases}

-- `unlimited`: no allocation is configured. An admission under a cap carries the last plan, with the
-- incoming and the reserved bytes counted as stored.
pub data Admission (F : Type 0) : Type 0 where
  unlimited : Admission F
  admitted : RetentionPlan F → Admission F
  over_allocation : RetentionPlan F → Admission F
  uncertain : List Bytes → Admission F
  admission_failed : Failure → Admission F
  no_fuel : Admission F

list-cases : {A : Type 0} (xs : List A) → (xs ≡ []) ⊎ ((y : A) × (ys : List A) × (xs ≡ y ∷ ys))
list-cases [] = inl refl
list-cases (x ∷ xs) = inr (x, xs, refl)

module _ {F : Type 0} (float : Float F) (sorter : SliceSort F) (registered leases : Bytes → Bool)
    (settings : Settings F) (rounds : ℕ → Round F) (claimed : ℕ → ℤ) (incoming : ℤ) where
  -- `plan.storedBytes += incoming + s.reservedBytes.Load()`
  pub counted : ℕ → RetentionPlan F → RetentionPlan F
  unfolding add64
  counted n plan = record plan {
    stored_bytes = add64 plan.stored_bytes (add64 incoming (claimed n));
  }

  -- What a breach that nothing evictable can fix comes to.
  abbrev breach : Reason → RetentionPlan F → Admission F
  breach cap plan = over_allocation plan
  breach reserve plan = admitted plan

  -- The loop, with the counted plan.
  pub make_room : ℕ → ℕ → List (Download F) → RetentionPlan F → Admission F
  unfolding counted retention_deficit evict_next retention_survey normalize_eviction_rules
  make_room zero n rows plan = no_fuel
  make_room (suc fuel) n rows plan = elim (retention_deficit float plan settings) [
    | none ↦ admitted plan
    | some reason ↦
        elim (evict_next float sorter registered leases settings (rounds (suc n))
          (normalize_eviction_rules settings.eviction_rules) plan rows) [
            | nobody ↦ breach reason plan
            | eviction_failed e rows' ↦ admission_failed e
            | evicted v rows' ↦ elim (retention_survey registered (rounds (suc n)) rows') [
              | failed e ↦ admission_failed e
              | done plan' ↦ elim (plan'.uncertain_owners) [
                | [] ↦ make_room fuel (suc n) rows' (counted (suc n) plan')
                | o ∷ os ↦ uncertain (o ∷ os)
              ]
            ]
          ]
  ]

  pub ensure_allocation_room : ℕ → List (Download F) → Admission F
  unfolding make_room counted retention_survey
  ensure_allocation_room fuel rows =
      if float.le settings.allocation_gb float.nought
      then unlimited
      else (elim (retention_survey registered (rounds 0) rows) [
        | failed e ↦ admission_failed e
        | done plan ↦ elim (plan.uncertain_owners) [
          | [] ↦ make_room fuel 0 rows (counted 0 plan)
          | o ∷ os ↦ uncertain (o ∷ os)
        ]
      ])

  -- No bytes above the allocation, in `int64`.
  abbrev pub FitsCap : RetentionPlan F → Type 0
  FitsCap plan =
      (float.lt float.nought settings.allocation_gb
        && ltb_ℤ (pos 0) (sub64 plan.stored_bytes (float.gibi_bytes settings.allocation_gb)))
      ≡ false

  -- The stored bytes of the plan are those of a survey with the incoming and the claimed ones, and its
  -- routes are those of the survey.
  abbrev pub Counts : RetentionPlan F → Type 0
  Counts plan =
      (n : ℕ) × (rows : List (Download F)) × (seen : RetentionPlan F) × (retention_survey registered
          (rounds n) rows
        ≡ done seen)
      × (plan.stored_bytes ≡ add64 seen.stored_bytes (add64 incoming (claimed n)))
      × (plan.routes ≡ seen.routes)

  abbrev pub IsAdmission : Admission F → Type 0
  IsAdmission unlimited = float.le settings.allocation_gb float.nought ≡ true
  IsAdmission (admitted plan) = FitsCap plan × Counts plan × (plan.uncertain_owners ≡ [])
  IsAdmission (over_allocation plan) =
      ¬ FitsCap plan
      × Counts plan
      × (plan.uncertain_owners ≡ [])
      × ((r : RetentionRoute F)
          → In r plan.routes
          → retention_protected float leases settings r ≡ true)
  IsAdmission (uncertain owners) = ¬ (owners ≡ [])
  IsAdmission (admission_failed e) = Unit
  IsAdmission no_fuel = ⊥

  fits_without :
      (plan : RetentionPlan F) → retention_deficit float plan settings ≡ none → FitsCap plan
  unfolding retention_deficit
  fits_without plan e = ground arith

  fits_reserve :
      (plan : RetentionPlan F) → retention_deficit float plan settings ≡ some reserve → FitsCap plan
  unfolding retention_deficit
  fits_reserve plan e = ground arith

  over_cap :
      (plan : RetentionPlan F) → retention_deficit float plan settings ≡ some cap → ¬ FitsCap plan
  unfolding retention_deficit
  over_cap plan e = λ h. ground arith

  breach-IsAdmission :
      (reason : Reason) (plan : RetentionPlan F)
      → retention_deficit float plan settings ≡ some reason
      → Counts plan
      → plan.uncertain_owners ≡ []
      → ((r : RetentionRoute F)
          → In r plan.routes
          → retention_protected float leases settings r ≡ true)
      → IsAdmission (breach reason plan)
  breach-IsAdmission cap plan e c u h = (over_cap plan e, c, u, h)
  breach-IsAdmission reserve plan e c u h = (fits_reserve plan e, c, u)

  counted-IsManaged :
      (n : ℕ) (rows : List (Download F)) (plan : RetentionPlan F)
      → All (IsManaged rows) plan.routes
      → All (IsManaged rows) (counted n plan).routes
  unfolding counted
  counted-IsManaged n rows plan v = v

  counted-Counts :
      (n : ℕ) (rows : List (Download F)) (plan : RetentionPlan F)
      → retention_survey registered (rounds n) rows ≡ done plan
      → Counts (counted n plan)
  unfolding counted
  counted-Counts n rows plan e = (n, rows, plan, e, refl, refl)

  counted-owners :
      (n : ℕ) (plan : RetentionPlan F)
      → plan.uncertain_owners ≡ []
      → (counted n plan).uncertain_owners ≡ []
  unfolding counted
  counted-owners n plan u = u

  owners-cases :
      (plan : RetentionPlan F)
      → (plan.uncertain_owners ≡ [])
        ⊎ ((o : Bytes) × (os : List Bytes) × (plan.uncertain_owners ≡ o ∷ os))
  owners-cases plan = list-cases plan.uncertain_owners

  make_room-IsAdmission :
      (fuel n : ℕ) (rows : List (Download F)) (plan : RetentionPlan F)
      → length rows < fuel
      → All (IsManaged rows) plan.routes
      → Counts plan
      → plan.uncertain_owners ≡ []
      → IsAdmission (make_room fuel n rows plan)
  unfolding make_room
  make_room-IsAdmission zero n rows plan h v c u = absurd (omega arith)
  make_room-IsAdmission (suc fuel) n rows plan h v c u =
      let rules = normalize_eviction_rules settings.eviction_rules in
      let step =
        evict_next float sorter registered leases settings (rounds (suc n)) rules plan rows in
      let spec =
        evict_next-IsEviction float sorter registered leases settings (rounds (suc n)) rules plan
          rows v in
      elim (Option-cases (retention_deficit float plan settings)) [
        | inl fits ↦ rw (fits, make_room) (fits_without plan fits, c, u)
        | inr (reason, tripped) ↦ elim (Evicted-cases step) [
          | inl none_left ↦
              rw (tripped, none_left, make_room)
                (breach-IsAdmission reason plan tripped c u (
                  subst (IsEviction float sorter registered leases settings rules plan rows)
                    none_left spec))
          | inr (inl (e, rows', broke)) ↦ rw (tripped, broke, make_room) tt
          | inr (inr (victim, rows', gone)) ↦
              let (victim_is, takes, all, fewer) =
                subst (IsEviction float sorter registered leases settings rules plan rows) gone
                  spec in
              elim (Attempt-cases (retention_survey registered (rounds (suc n)) rows')) [
                | inl (e, lost) ↦ rw (tripped, gone, lost, make_room) tt
                | inr (plan', seen) ↦ elim (owners-cases plan') [
                  | inl certain ↦
                      rw (tripped, gone, seen, certain, make_room)
                        (make_room-IsAdmission fuel (suc n) rows' (counted (suc n) plan')
                          (omega arith)
                          (counted-IsManaged (suc n) rows' plan' (
                            retention_survey-IsManaged registered (rounds (suc n)) rows' plan'
                              seen))
                          (counted-Counts (suc n) rows' plan' seen)
                          (counted-owners (suc n) plan' certain))
                  | inr (o, os, doubt) ↦ rw (tripped, gone, seen, doubt, make_room) (λ e. cc)
                ]
              ]
        ]
      ]

  -- An admission gate over managed rows that it alone changes answers, after at most as many evictions
  -- as there are rows. It admits without a look only with no allocation configured; else it admits
  -- only if the incoming bytes fit the allocation together with the surveyed and the reserved ones
  -- (in `int64`) and no engine's storage is unknown; it refuses for the allocation only if they do
  -- not fit and every surveyed route is protected; and every other refusal names an engine of unknown
  -- storage or a failed operation.
  pub ensure_allocation_room-IsAdmission :
      (fuel : ℕ) (rows : List (Download F))
      → length rows < fuel
      → IsAdmission (ensure_allocation_room fuel rows)
  unfolding ensure_allocation_room
  ensure_allocation_room-IsAdmission fuel rows h =
      elim (Bool-cases (float.le settings.allocation_gb float.nought)) [
        | inl off ↦ rw (off, ensure_allocation_room) off
        | inr on ↦ elim (Attempt-cases (retention_survey registered (rounds 0) rows)) [
          | inl (e, lost) ↦ rw (on, lost, ensure_allocation_room) tt
          | inr (plan, seen) ↦ elim (owners-cases plan) [
            | inl certain ↦
                rw (on, seen, certain, ensure_allocation_room)
                  (make_room-IsAdmission fuel 0 rows (counted 0 plan) h
                    (counted-IsManaged 0 rows plan
                      (retention_survey-IsManaged registered (rounds 0) rows plan seen))
                    (counted-Counts 0 rows plan seen) (counted-owners 0 plan certain))
            | inr (o, os, doubt) ↦ rw (on, seen, doubt, ensure_allocation_room) (λ e. cc)
          ]
        ]
      ]
