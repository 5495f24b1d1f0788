-- ===== src/Jobs.antt =====
-- internal/application/service.go and retention.go: the persisted jobs. Texts are ASCII, and an
-- instant is a number of nanoseconds. What the repository lists and finds is an argument.
pub mod Queue
pub mod Retry
pub mod Recovery
mod Tests
use torrent_tv.Prelude.{
  ℕ, ◌+◌, ◌*◌, ◌/◌, ◌^◌, Time, Bool, true, false, not, ◌&&◌, ◌||◌, Option, none, some, is_some,
  List, [], ◌∷◌, length, ltb, leb, ◌==◌, if◌then◌else◌, null,
}
use torrent_tv.Prelude.Bytes.{Bytes, codes, eqb, lower, trim_space}
use torrent_tv.Prelude.Texts.{trim_prefix, has_substring}

pub data State : Type 0 where
  queued running retry_wait completed failed : State

abbrev pub is_active : State → Bool
is_active queued = true
is_active running = true
is_active retry_wait = false
is_active completed = false
is_active failed = false

abbrev pub is_waiting : State → Bool
is_waiting retry_wait = true
is_waiting queued = false
is_waiting running = false
is_waiting completed = false
is_waiting failed = false

abbrev pub is_failed : State → Bool
is_failed failed = true
is_failed queued = false
is_failed running = false
is_failed retry_wait = false
is_failed completed = false

pub record Job : Type 0 where
  pub id : Bytes
  pub tracker_id : Bytes
  pub kind : Bytes
  pub state : State
  pub label : Bytes
  pub dedupe_key : Bytes
  pub attempt : ℕ
  pub error : Bytes
  pub retryable : Bool
  pub next_attempt_at : Option Time
  pub updated_at : Time

abbrev pub hour : ℕ
hour = 3600 * 1000000000

-- The job that runs already, or the one to save.
pub data Enqueued : Type 0 where
  existing fresh : Job → Enqueued

abbrev pub same_key : Job → Job → Bool
same_key job e = eqb e.dedupe_key job.dedupe_key

-- The loop of `SyncCatalog` and of `RunRetention` over the listed jobs.
unfoldable pub enqueue : Job → List Job → Enqueued
unfolding eqb
enqueue job [] = fresh job
enqueue job (e ∷ rest) =
    let later = enqueue (record job { attempt = e.attempt + 1 }) rest in
    let same = enqueue job rest in
    if same_key job e && is_active e.state
    then existing e
    else if same_key job e && leb job.attempt e.attempt
    then later
    else same

abbrev pub new_job : Bytes → Bytes → Time → Job
new_job kind label now = record {
  id = kind;
  tracker_id = [];
  kind = kind;
  state = queued;
  label = label;
  dedupe_key = kind;
  attempt = 1;
  error = [];
  retryable = false;
  next_attempt_at = none;
  updated_at = now;
}

-- The Go error of an attempt: its text, and what `errors.Is` and `errors.As` find in it; a rate
-- limit carries its `RetryAt`, which may be zero.
pub record Error : Type 0 where
  pub text : Bytes
  pub rate_limit : Option Time
  pub deadline_exceeded : Bool
  pub canceled : Bool

unfoldable pub is_transient : Error → Bool
unfolding has_substring lower
is_transient e =
    let text = lower e.text in
    is_some e.rate_limit
    || e.deadline_exceeded
    || e.canceled
    || has_substring text (codes "timeout")
    || has_substring text (codes "temporar")
    || has_substring text (codes "connection reset")
    || has_substring text (codes "http 5")
    || has_substring text (codes "returned 5")

abbrev pub or_in_an_hour : Time → Time → Time
or_in_an_hour now at = if at == 0 then now + hour else at

-- The state behind a failed attempt: by the rate limit, and by whether the error is transient.
abbrev pub settle : Option Time → Bool → Time → Job → Job
settle (some at) transient now job = record job {
  state = retry_wait;
  next_attempt_at = some (or_in_an_hour now at);
}
settle none transient now job = record job {
  state = failed;
  next_attempt_at = if transient then some (now + hour) else job.next_attempt_at;
}

unfoldable pub fail_or_wait : Job → Error → Time → Job
unfolding is_transient
fail_or_wait job e now =
    settle e.rate_limit (is_transient e) now
      (record job { error = e.text; updated_at = now; retryable = is_transient e })

abbrev pub is_due : Option Time → Time → Bool
is_due none now = false
is_due (some at) now = leb at now

-- `SaveJob` and `ListDueJobs` keep an instant as its whole seconds.
abbrev pub whole_seconds : Time → Time
whole_seconds t = t / 10 ^ 9 * 10 ^ 9

abbrev pub kept_time : Option Time → Option Time
kept_time none = none
kept_time (some t) = some (whole_seconds t)

-- A job that is saved and listed again.
abbrev pub stored : Job → Job
stored job = record job {
  next_attempt_at = kept_time job.next_attempt_at;
  updated_at = whole_seconds job.updated_at;
}

-- Whether a pass of `retryDueJobs` retries a listed job, and what it saves before it does.
unfoldable pub picks : Bool → Time → Job → Bool
picks waiting_only now job =
    is_due job.next_attempt_at now
    && not (waiting_only && not (is_waiting job.state))
    && not (not waiting_only && (not (is_failed job.state) || not job.retryable))

abbrev pub before_retry : Job → Job
before_retry job = record job { state = failed; next_attempt_at = none }

-- What `RetryJob` does about a found job.
pub data Decision : Type 0 where
  still_active not_retryable : Decision
  syncs fetches_metadata refreshes searches : Bytes → Decision
  enforces : Decision

abbrev pub search_query : Bytes → Bytes
search_query label =
    let query = trim_prefix label (codes "Search for ") in
    if eqb query label then trim_prefix label (codes "Search FileList for ") else query

unfoldable pub retry_job : Job → Decision
unfolding eqb trim_prefix
retry_job job =
    if is_active job.state || is_waiting job.state
    then still_active
    else if eqb job.kind (codes "catalog-latest")
    then syncs (codes "latest")
    else if eqb job.kind (codes "catalog-rebuild")
    then syncs (codes "rebuild")
    else if eqb job.kind (codes "metadata")
    then fetches_metadata (trim_prefix job.dedupe_key (codes "metadata:"))
    else if eqb job.kind (codes "catalog-title-refresh")
    then refreshes (trim_prefix job.dedupe_key (codes "catalog-title-refresh:"))
    else if eqb job.kind (codes "tracker-search")
    then searches (search_query job.label)
    else if eqb job.kind (codes "retention")
    then enforces
    else not_retryable
