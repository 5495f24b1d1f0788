-- ===== src/Retention/Run/Finish.antt =====
-- How a retention run ends.
use torrent_tv.Prelude.{
  ℕ, ◌≤◌, ◌≡◌, refl, Bool, true, false, none, some, List, ◌⊎◌, inl, inr, In, All, length,
}
use torrent_tv.Prelude.Bytes.{Bytes}
use torrent_tv.Retention.{
  Float, Download, RetentionRoute, RetentionPlan, Settings, retention_protected, retention_deficit,
}
use torrent_tv.Retention.Victim.{SliceSort}
use torrent_tv.Retention.Survey.{Round, Failure, Attempt, failed, done, retention_survey}
use torrent_tv.Retention.Run.{Ending, within_limits, all_protected, run_failed, out_of_fuel, Report}
use torrent_tv.Retention.Eviction.Removes.{IsTaken}

pub Attempt-cases :
    {A : Type 0} (a : Attempt A) → ((e : Failure) × (a ≡ failed e)) ⊎ ((x : A) × (a ≡ done x))
Attempt-cases (failed e) = inl (e, refl)
Attempt-cases (done x) = inr (x, refl)

module _ {F : Type 0} (float : Float F) (sorter : SliceSort F) (registered leases : Bytes → Bool)
    (settings : Settings F) (rounds : ℕ → Round F) where
  -- What is true at the end.
  abbrev pub IsFinished : Ending F → Type 0
  IsFinished (within_limits plan) = retention_deficit float plan settings ≡ none
  IsFinished (all_protected reason plan) =
      (retention_deficit float plan settings ≡ some reason)
      × ((r : RetentionRoute F)
          → In r plan.routes
          → retention_protected float leases settings r ≡ true)
  IsFinished (run_failed e) = Unit
  IsFinished out_of_fuel = ⊥

  -- A route that is not protected, of a survey of rows that were there at the start.
  abbrev pub IsLoose : List (Download F) → RetentionRoute F → Type 0
  IsLoose rows v =
      (n : ℕ) × (seen : List (Download F)) × (plan : RetentionPlan F) × (retention_protected float
          leases settings v
        ≡ false)
      × ((d : Download F) → In d seen → In d rows)
      × (retention_survey registered (rounds n) seen ≡ done plan)
      × In v plan.routes

  -- `d` has the id of a row that was there at the start, of an engine route that was surveyed and not
  -- protected.
  abbrev pub IsDispensable : List (Download F) → Download F → Type 0
  IsDispensable rows d = (v : RetentionRoute F) × IsLoose rows v × IsTaken v.engine_id rows d

  -- A run from the managed rows `rows`.
  pub record IsSound (rows : List (Download F)) (r : Report F) : Type 0 where
    pub finished : IsFinished r.ending
    pub unprotected : All (IsLoose rows) r.evicted
    pub bounded : length r.evicted ≤ length rows
    pub only_old : (d : Download F) → In d r.rows → In d rows
    pub spares : (d : Download F) → In d rows → In d r.rows ⊎ IsDispensable rows d
