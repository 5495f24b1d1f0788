-- ===== src/Retention/Run.antt =====
-- `runRetention`. The managed rows change by the run alone.
pub mod Finish
use torrent_tv.Prelude.{
  ℕ, zero, suc, ◌+◌, ◌≡◌, refl, Bool, true, false, not, Option, none, some, List, [], ◌∷◌, ◌++◌,
}
use torrent_tv.Prelude.Int.{ℤ, pos, add64}
use torrent_tv.Prelude.Bytes.{Bytes}
use torrent_tv.Retention.{
  Float, Download, RetentionRoute, RetentionPlan, Settings, Reason, retention_deficit,
  normalize_eviction_rules,
}
use torrent_tv.Retention.Victim.{SliceSort}
use torrent_tv.Retention.Survey.{Round, Failure, Attempt, failed, done, retention_survey}
use torrent_tv.Retention.Eviction.{Evicted, nobody, eviction_failed, evicted, evict_next}

-- How a run ends: the storage fits, or is over a limit with every surveyed route protected, or an
-- operation failed. `out_of_fuel` is no end of the program.
pub data Ending (F : Type 0) : Type 0 where
  within_limits : RetentionPlan F → Ending F
  all_protected : Reason → RetentionPlan F → Ending F
  run_failed : Failure → Ending F
  out_of_fuel : Ending F

pub record Report (F : Type 0) : Type 0 where
  pub ending : Ending F
  pub rows : List (Download F)
  pub evicted : List (RetentionRoute F)
  pub freed : ℤ

module _ {F : Type 0} where
  abbrev pub ends : Ending F → List (Download F) → Report F
  ends e rows = record { ending = e; rows = rows; evicted = []; freed = pos 0 }

  -- The report of the rest of the run behind one more eviction.
  unfoldable pub evicts : RetentionRoute F → Report F → Report F
  unfolding add64
  evicts v r = record r { evicted = v ∷ r.evicted; freed = add64 v.status.total_bytes r.freed }

module _ {F : Type 0} (float : Float F) (sorter : SliceSort F) (registered leases : Bytes → Bool)
    (settings : Settings F) (rounds : ℕ → Round F) where
  -- The rounds of the loop from the `n`th on, with the plan of the last survey.
  pub enforce : ℕ → ℕ → List (Download F) → RetentionPlan F → Report F
  unfolding retention_deficit evict_next retention_survey evicts normalize_eviction_rules
  enforce zero n rows plan = ends out_of_fuel rows
  enforce (suc fuel) n rows plan = elim (retention_deficit float plan settings) [
    | none ↦ ends (within_limits plan) rows
    | some reason ↦
        elim (evict_next float sorter registered leases settings (rounds (suc n))
          (normalize_eviction_rules settings.eviction_rules) plan rows) [
            | nobody ↦ ends (all_protected reason plan) rows
            | eviction_failed e rows' ↦ ends (run_failed e) rows'
            | evicted v rows' ↦ elim (retention_survey registered (rounds (suc n)) rows') [
              | failed e ↦ evicts v (ends (run_failed e) rows')
              | done plan' ↦ evicts v (enforce fuel (suc n) rows' plan')
            ]
          ]
  ]

  pub run_retention : ℕ → List (Download F) → Report F
  unfolding enforce retention_survey
  run_retention fuel rows = elim (retention_survey registered (rounds 0) rows) [
    | failed e ↦ ends (run_failed e) rows
    | done plan ↦ enforce fuel 0 rows plan
  ]
