-- ===== src/Outbound.antt =====
-- internal/platform/outbound/retry.go: the attempts of one request to a provider. A delay is an int64
-- of nanoseconds.
pub mod Attempts
mod Tests
use torrent_tv.Prelude.{
  ℕ, zero, suc, ◌+◌, ◌^◌, ◌-◌, ◌/◌, ◌*◌, min, Bool, true, false, not, ◌&&◌, ◌||◌, Option, none,
  some, List, [], ◌∷◌, null, ◌==◌, if◌then◌else◌,
}
use torrent_tv.Prelude.Int.{ℤ, pos, pos_part, ltb_ℤ, mul64}
use torrent_tv.Prelude.Bytes.{Bytes, trim_space}

-- `strconv.Atoi`, and how far off the instant is that a header names: by `http.ParseTime`, and as a
-- number of seconds since 1970.
pub record Clock : Type 0 where
  pub atoi : Bytes → Option ℤ
  pub until_time : Bytes → Option ℤ
  pub until_unix : Bytes → Option ℤ

pub record Policy : Type 0 where
  pub attempts : ℤ
  pub max_inline_delay : ℤ

pub record Header : Type 0 where
  pub retry_after : Bytes
  pub rate_limit_reset : Bytes

-- What one attempt meets: the request cannot be made, the client fails, or an answer comes.
pub data Reply : Type 0 where
  not_made failed : Bytes → Reply
  answered : ℕ → Header → Reply

-- `gone` is the context's error; `exhausted` would be the return behind the loop.
pub data Result : Type 0 where
  errs : Bytes → Result
  responds : ℕ → Result
  limited : ℕ → ℤ → Result
  gone exhausted : Result

-- The requests sent, the delays slept, and the result.
pub record Trace : Type 0 where
  pub sent : ℕ
  pub slept : List ℤ
  pub result : Result

abbrev pub second : ℤ
second = pos (10 ^ 9)

abbrev pub max_duration : ℤ → ℤ → ℤ
max_duration a b = if ltb_ℤ b a then a else b

-- The last resort: it doubles with each attempt, up to 32 seconds, with some jitter.
abbrev pub backoff : (ℕ → ℕ) → ℕ → ℤ
backoff jitter attempt =
    let base = 10 ^ 9 * 2 ^ (min (attempt - 1) 5) in pos (base + jitter (base / 4 + 1))

module _ (clock : Clock) where
  abbrev pub by_reset : ℤ → Option ℤ → ℤ
  by_reset last none = last
  by_reset last (some until) = max_duration until second

  abbrev pub reset_delay : Bytes → ℤ → ℤ
  reset_delay raw last = if null raw then last else by_reset last (clock.until_unix raw)

  abbrev pub by_time : Option ℤ → ℤ → ℤ
  by_time none last = last
  by_time (some until) last = max_duration until second

  abbrev pub by_seconds : Option ℤ → ℤ → ℤ
  by_seconds none last = last
  by_seconds (some n) last = if ltb_ℤ n (pos 0) then last else mul64 n second

  -- `jitter` is `rand.Int63n`.
  unfoldable pub retry_delay : (ℕ → ℕ) → Header → ℕ → ℤ
  unfolding trim_space mul64
  retry_delay jitter header attempt =
      let raw = trim_space header.retry_after in
      let later = reset_delay (trim_space header.rate_limit_reset) (backoff jitter attempt) in
      if null raw then later else by_seconds (clock.atoi raw) (by_time (clock.until_time raw) later)

  abbrev pub attempts_of : Policy → ℕ
  attempts_of policy = if ltb_ℤ policy.attempts (pos 1) then 3 else pos_part policy.attempts

  abbrev pub max_delay_of : Policy → ℤ
  max_delay_of policy =
      if ltb_ℤ (pos 0) policy.max_inline_delay then policy.max_inline_delay else pos (15 * 10 ^ 9)

  abbrev pub stops : Result → Trace
  stops result = record { sent = 1; slept = []; result = result }

  abbrev pub sleeps : ℤ → Trace → Trace
  sleeps delay t = record { sent = t.sent + 1; slept = delay ∷ t.slept; result = t.result }

  -- Behind an answer with the status 429; `last` is whether this is the last attempt.
  abbrev pub wait : Bool → ℤ → Bool → ℕ → ℤ → Trace → Trace
  wait last most canceled attempt delay rest =
      if last || ltb_ℤ most delay
      then stops (limited attempt delay)
      else if canceled
      then stops gone
      else sleeps delay rest

  abbrev pub react : Bool → ℤ → Bool → (ℕ → ℕ) → ℕ → Trace → Reply → Trace
  react last most canceled jitter attempt rest (not_made e) = record {
    sent = 0;
    slept = [];
    result = errs e;
  }
  react last most canceled jitter attempt rest (failed e) = stops (errs e)
  react last most canceled jitter attempt rest (answered status header) =
      if not (status == 429)
      then stops (responds status)
      else wait last most canceled attempt (retry_delay jitter header attempt) rest

  -- The loop, with the attempts that are left. The context of attempt n is done by its delay if
  -- `canceled n`.
  unfoldable pub attempts : (ℕ → Reply) → (ℕ → Bool) → (ℕ → ℕ) → ℤ → ℕ → ℕ → Trace
  unfolding retry_delay
  attempts reply canceled jitter most zero attempt = record {
    sent = 0;
    slept = [];
    result = exhausted;
  }
  attempts reply canceled jitter most (suc n) attempt =
      let rest = attempts reply canceled jitter most n (attempt + 1) in
      react (n == 0) most (canceled attempt) jitter attempt rest (reply attempt)

  unfoldable pub do_request : (ℕ → Reply) → (ℕ → Bool) → (ℕ → ℕ) → Policy → Trace
  unfolding attempts
  do_request reply canceled jitter policy =
      attempts reply canceled jitter (max_delay_of policy) (attempts_of policy) 1
