-- ===== src/Jobs/Retry.antt =====
-- From a failed attempt to the pass that retries it.
use torrent_tv.Prelude.{
  ◌||◌, ◌+◌, ◌≡◌, refl, Time, Bool, true, false, not, ◌&&◌, Option, none, some, leb, arith,
  if◌then◌else◌,
}
use torrent_tv.Jobs.{
  Job, Error, hour, or_in_an_hour, is_transient, is_due, settle, fail_or_wait, picks, stored,
  kept_time, whole_seconds,
}

-- When a pass takes a job that failed at `now`: by the whole second that the store keeps.
abbrev pub taken_at : Bool → Option Time → Bool → Time → Time → Bool
taken_at waiting_only (some at) transient now later =
    waiting_only && leb (whole_seconds (or_in_an_hour now at)) later
taken_at waiting_only none transient now later =
    not waiting_only && (transient && leb (whole_seconds (now + hour)) later)

waiting_case :
    (l w r : Bool) → (l && not (w && not true) && not (not w && (not false || not r))) ≡ (w && l)
waiting_case l w r = ground arith

failed_case :
    (due t l w : Bool)
    → ((if t then l else due) && not (w && not false) && not (not w && (not true || not t)))
      ≡ (not w && (t && l))
failed_case due t l w = ground arith

due_if :
    (t : Bool) (at later : Time) (o : Option Time)
    → is_due (kept_time (if t then some at else o)) later
      ≡ (if t then leb (whole_seconds at) later else is_due (kept_time o) later)
due_if true at later o = refl
due_if false at later o = refl

picks-settle :
    (waiting_only : Bool) (limit : Option Time) (job : Job) (now later : Time)
    → picks waiting_only later (stored (settle limit job.retryable now job))
      ≡ taken_at waiting_only limit job.retryable now later
unfolding picks
picks-settle waiting_only (some at) job now later =
    waiting_case (leb (whole_seconds (or_in_an_hour now at)) later) waiting_only job.retryable
picks-settle waiting_only none job now later =
    rw (due_if job.retryable (now + hour) later job.next_attempt_at) (
      failed_case (is_due (kept_time job.next_attempt_at) later) job.retryable
        (leb (whole_seconds (now + hour)) later) waiting_only)

-- An attempt that failed and is saved is retried by the pass over waiting jobs from the whole second
-- of the provider's reset on (of an hour later if the provider named none) if it was rate limited, by
-- the other pass from the whole second an hour later on if its error is transient otherwise, and by
-- neither if it is not.
pub picks-fail_or_wait :
    (waiting_only : Bool) (job : Job) (e : Error) (now later : Time)
    → picks waiting_only later (stored (fail_or_wait job e now))
      ≡ taken_at waiting_only e.rate_limit (is_transient e) now later
unfolding fail_or_wait
picks-fail_or_wait waiting_only job e now later =
    picks-settle waiting_only e.rate_limit
      (record job { error = e.text; updated_at = now; retryable = is_transient e }) now later
