-- ===== src/Jobs/Recovery.antt =====
-- `recoverInterruptedJobs`: what a restart makes of the jobs that it finds queued or running.
use torrent_tv.Prelude.{
  ◌+◌, ◌≡◌, refl, sym, subst, Time, Bool, true, false, not, ◌&&◌, ◌||◌, Option, none, some, List,
  [], ◌∷◌, ◌⊎◌, inl, inr, Bool-cases, length, any, null, ltb, if◌then◌else◌,
}
use torrent_tv.Prelude.Bytes.{Bytes, codes, eqb, eqb_iff, trim_space, contains}
use torrent_tv.Prelude.Texts.{trim_prefix}
use torrent_tv.Jobs.{queued, failed, is_active, Job, hour}

-- A request for the title-refresh worker.
pub record Refresh : Type 0 where
  pub title_id : Bytes
  pub query : Bytes

-- The job is left in the store as it is, or saved, with a request that is queued if there is room.
pub data Recovered : Type 0 where
  left : Recovered
  saved : Job → Option Refresh → Recovered

abbrev kinds_of_old : List Bytes
kinds_of_old =
    codes "tracker-search"
    ∷ codes "catalog-latest"
    ∷ codes "catalog-rebuild"
    ∷ codes "catalog-title-refresh"
    ∷ []

abbrev with_tracker : Job → Job
with_tracker job =
    if null job.tracker_id && contains kinds_of_old job.kind
    then record job { tracker_id = codes "filelist" }
    else job

abbrev pub refresh_prefix : Bytes
refresh_prefix = codes "Refresh all versions of "

abbrev pub query_of : Job → Bytes
query_of job = trim_prefix job.label refresh_prefix

abbrev pub title_of : Job → Bytes
title_of job = trim_prefix job.dedupe_key (codes "catalog-title-refresh:")

abbrev pub is_overlooked : Job → Bool
is_overlooked job = eqb (query_of job) job.label || ltb (length (trim_space (query_of job))) 3

-- Whether every source of the title is excluded; for each source of an answer, whether it is.
abbrev pub all_excluded : Option (List Bool) → Bool
all_excluded none = false
all_excluded (some []) = false
all_excluded (some (x ∷ xs)) = not (any not (x ∷ xs))

abbrev pub interrupted : Job → Time → Job
interrupted job now = record job {
  state = failed;
  error = codes "interrupted by server restart; safe to retry";
  retryable = true;
  next_attempt_at = some (now + hour);
  updated_at = now;
}

abbrev pub excluded : Job → Time → Job
excluded job now = record job {
  state = failed;
  error = codes "category is excluded from discovery";
  updated_at = now;
}

abbrev pub requeued : Job → Time → Job
requeued job now = record job { state = queued; error = []; updated_at = now }

unfoldable pub recover_refresh : (Bytes → Option (List Bool)) → Time → Job → Recovered
unfolding trim_prefix eqb trim_space
recover_refresh sources now job =
    if is_overlooked job
    then left
    else if all_excluded (sources (title_of job))
    then saved (excluded job now) none
    else saved (requeued job now) (some (record { title_id = title_of job; query = query_of job }))

abbrev pub recover_found : (Bytes → Option (List Bool)) → Time → Job → Recovered
recover_found sources now job =
    if not (is_active job.state)
    then left
    else if eqb job.kind (codes "catalog-title-refresh")
    then recover_refresh sources now job
    else saved (interrupted job now) none

-- The round of the loop for one listed job.
unfoldable pub recover_job : (Bytes → Option (List Bool)) → Time → Job → Recovered
unfolding recover_refresh
recover_job sources now job = recover_found sources now (with_tracker job)

with_tracker-eq :
    (job : Job) → with_tracker job ≡ record job { tracker_id = (with_tracker job).tracker_id }
with_tracker-eq job = elim (Bool-cases (null job.tracker_id && contains kinds_of_old job.kind)) [
  | inl e ↦ rw e refl
  | inr e ↦ rw e refl
]

abbrev IsRefresh : Job → Type 0
IsRefresh job = job.kind ≡ codes "catalog-title-refresh"

abbrev pub IsRecovered : (Bytes → Option (List Bool)) → Time → Job → Recovered → Type 0
IsRecovered sources now job left =
    (is_active job.state ≡ false) ⊎ (IsRefresh job × (is_overlooked job ≡ true))
IsRecovered sources now job (saved j none) =
    (is_active job.state ≡ true)
    × (j.state ≡ failed)
    × (((j.retryable ≡ true) × (j.next_attempt_at ≡ some (now + hour)))
        ⊎ (IsRefresh job
            × (all_excluded (sources (title_of job)) ≡ true)
            × (j.retryable ≡ job.retryable)
            × (j.next_attempt_at ≡ job.next_attempt_at)))
IsRecovered sources now job (saved j (some request)) =
    (is_active job.state ≡ true)
    × (j.state ≡ queued)
    × IsRefresh job
    × (request ≡ record { title_id = title_of job; query = query_of job })

refresh-IsRecovered :
    (sources : Bytes → Option (List Bool)) (now : Time) (job : Job)
    → is_active job.state ≡ true
    → IsRefresh job
    → IsRecovered sources now job (recover_refresh sources now job)
unfolding recover_refresh
refresh-IsRecovered sources now job act k = elim (Bool-cases (is_overlooked job)) [
  | inl over ↦ rw (over, recover_refresh) (inr (k, over))
  | inr seen ↦ elim (Bool-cases (all_excluded (sources (title_of job)))) [
    | inl none_left ↦
        rw (seen, none_left, recover_refresh) (act, refl, inr (k, none_left, refl, refl))
    | inr some_left ↦ rw (seen, some_left, recover_refresh) (act, refl, k, refl)
  ]
]

found-IsRecovered :
    (sources : Bytes → Option (List Bool)) (now : Time) (job : Job)
    → IsRecovered sources now job (recover_found sources now job)
found-IsRecovered sources now job = elim (Bool-cases (is_active job.state)) [
  | inl act ↦ elim (Bool-cases (eqb job.kind (codes "catalog-title-refresh"))) [
    | inl k ↦
        rw (act, k)
          (refresh-IsRecovered sources now job act
            ((eqb_iff job.kind (codes "catalog-title-refresh")).0 k))
    | inr k ↦ rw (act, k) (act, refl, inl (refl, refl))
  ]
  | inr ended ↦ rw ended (inl ended)
]

-- A restart leaves a job as it was only if it was neither queued nor running, or if it is a title
-- refresh without a query of three letters behind the known words of its label. Every other one is
-- failed, to be retried in an hour, or, if it is a title refresh all of whose sources are excluded,
-- failed with its mark and time for a retry as they were; or it is a title refresh that is queued
-- again for its title and query.
pub recover_job-IsRecovered :
    (sources : Bytes → Option (List Bool)) (now : Time) (job : Job)
    → IsRecovered sources now job (recover_job sources now job)
unfolding recover_job
recover_job-IsRecovered sources now job =
    subst (λ j. IsRecovered sources now job (recover_found sources now j))
      (sym (with_tracker-eq job))
      (found-IsRecovered sources now (record job { tracker_id = (with_tracker job).tracker_id }))
