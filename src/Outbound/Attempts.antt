-- ===== src/Outbound/Attempts.antt =====
-- How often a provider is asked, and how long the code waits in between.
use torrent_tv.Prelude.{
  ℕ, zero, suc, ◌+◌, ◌*◌, ◌^◌, ◌-◌, ◌≤◌, ◌<◌, ◌≡◌, ap, ◌∙◌, Bool, true, false, ◌||◌, some, All, inl,
  inr, null, ◌==◌, Bool-cases, if◌then◌else◌, arith,
}
use torrent_tv.Prelude.Int.{ℤ, pos, negsuc, pos_part, ltb_ℤ, mul64, of_word, to_word, sub_ℕ}
use torrent_tv.Prelude.Bytes.{trim_space}
use torrent_tv.Outbound.{
  Clock, Policy, Header, Reply, not_made, failed, answered, Result, errs, responds, limited, gone,
  exhausted, Trace, retry_delay, attempts_of, max_delay_of, wait, react, attempts, do_request,
}

-- A response is returned for no status 429, and the loop does not run out.
abbrev pub IsSettled : Result → Type 0
IsSettled (responds status) = (status == 429) ≡ false
IsSettled exhausted = ⊥
IsSettled (errs e) = Unit
IsSettled (limited n d) = Unit
IsSettled gone = Unit

abbrev pub Bounded : ℤ → ℕ → Trace → Type 0
Bounded most n t = (t.sent ≤ n) × All (λ d. ltb_ℤ most d ≡ false) t.slept × IsSettled t.result

module _ (clock : Clock) (most : ℤ) where
  -- The last attempt does not look at what would follow.
  wait-Bounded :
      (last canceled : Bool) (attempt n : ℕ) (delay : ℤ) (rest : Trace)
      → (last ≡ false → Bounded most n rest)
      → Bounded most (suc n) (wait clock last most canceled attempt delay rest)
  wait-Bounded last canceled attempt n delay rest v = elim (Bool-cases (last || ltb_ℤ most delay)) [
    | inl stop ↦ rw stop (omega arith, tt, tt)
    | inr on ↦ elim (Bool-cases canceled) [
      | inl left ↦ rw (on, left) (omega arith, tt, tt)
      | inr stays ↦
          let (s, d, r) = v (left_of last (ltb_ℤ most delay) on) in
          rw (on, stays) (omega arith, (right_of last (ltb_ℤ most delay) on, d), r)
    ]
  ]
    where
      left_of : (a b : Bool) → (a || b) ≡ false → a ≡ false
      left_of a b h = ground arith

      right_of : (a b : Bool) → (a || b) ≡ false → b ≡ false
      right_of a b h = ground arith

  react-Bounded :
      (last canceled : Bool) (jitter : ℕ → ℕ) (attempt n : ℕ) (rest : Trace) (r : Reply)
      → (last ≡ false → Bounded most n rest)
      → Bounded most (suc n) (react clock last most canceled jitter attempt rest r)
  react-Bounded last canceled jitter attempt n rest (not_made e) v = (omega arith, tt, tt)
  react-Bounded last canceled jitter attempt n rest (failed e) v = (omega arith, tt, tt)
  react-Bounded last canceled jitter attempt n rest (answered status header) v =
      elim (Bool-cases (status == 429)) [
        | inl limit ↦
            rw limit (
              wait-Bounded last canceled attempt n (retry_delay clock jitter header attempt) rest v)
        | inr other ↦ rw other (omega arith, tt, other)
      ]

  different : ¬ (true ≡ false)
  different e = cc

  attempts-Bounded :
      (reply : ℕ → Reply) (canceled : ℕ → Bool) (jitter : ℕ → ℕ) (n attempt : ℕ)
      → Bounded most (suc n) (attempts clock reply canceled jitter most (suc n) attempt)
  unfolding attempts
  attempts-Bounded reply canceled jitter zero attempt =
      react-Bounded true (canceled attempt) jitter attempt zero
        (attempts clock reply canceled jitter most zero (attempt + 1)) (reply attempt)
        (λ e. absurd (different e))
  attempts-Bounded reply canceled jitter (suc n) attempt =
      react-Bounded (suc n == 0) (canceled attempt) jitter attempt (suc n)
        (attempts clock reply canceled jitter most (suc n) (attempt + 1)) (reply attempt)
        (λ e. attempts-Bounded reply canceled jitter n (attempt + 1))

  from_one :
      (reply : ℕ → Reply) (canceled : ℕ → Bool) (jitter : ℕ → ℕ) (n : ℕ)
      → 1 ≤ n
      → Bounded most n (attempts clock reply canceled jitter most n 1)
  from_one reply canceled jitter zero h = absurd (omega arith)
  from_one reply canceled jitter (suc n) h = attempts-Bounded reply canceled jitter n 1

not_below : (n : ℕ) → ltb_ℤ (pos n) (pos 0) ≡ false
not_below n = ground arith

mul64_wraps :
    (m n : ℕ)
    → 2 ^ 63 ≤ m * n
    → m * n < 2 ^ 64
    → mul64 (pos m) (pos n) ≡ negsuc (2 ^ 64 - 1 - m * n)
unfolding mul64
mul64_wraps m n a b = ap (λ z. of_word (to_word z)) whole ∙ wrapped (m * n) a b
  where
    whole : sub_ℕ (m * n + 0 * 0) (m * 0 + 0 * n) ≡ pos (m * n)
    whole = ground arith

    wrapped :
        (x : ℕ) → 2 ^ 63 ≤ x → x < 2 ^ 64 → of_word (to_word (pos x)) ≡ negsuc (2 ^ 64 - 1 - x)
    wrapped x a b = ground arith

module _ (clock : Clock) where
  attempts_of_lem : (policy : Policy) → 1 ≤ attempts_of clock policy
  attempts_of_lem policy = by_sign policy.attempts
    where
      by_sign : (a : ℤ) → 1 ≤ (if ltb_ℤ a (pos 1) then 3 else pos_part a)
      by_sign (pos n) = ground arith
      by_sign (negsuc n) = ground arith

  -- A request is sent at most as often as the policy says (3 times without a number), the code sleeps
  -- between two attempts for no longer than the policy allows (15 seconds without a bound), it ends
  -- with a response, an error or a rate limit, and never returns a response with the status 429.
  pub do_request-Bounded :
      (reply : ℕ → Reply) (canceled : ℕ → Bool) (jitter : ℕ → ℕ) (policy : Policy)
      → Bounded
          (max_delay_of clock policy)
          (attempts_of clock policy)
          (do_request clock reply canceled jitter policy)
  unfolding do_request
  do_request-Bounded reply canceled jitter policy =
      from_one clock (max_delay_of clock policy) reply canceled jitter (attempts_of clock policy)
        (attempts_of_lem policy)

  -- A Retry-After of so many seconds that their nanoseconds are 2^63 or more, and less than 2^64, is
  -- a negative delay.
  pub retry_delay_wraps :
      (jitter : ℕ → ℕ) (header : Header) (attempt seconds : ℕ)
      → null (trim_space header.retry_after) ≡ false
      → clock.atoi (trim_space header.retry_after) ≡ some (pos seconds)
      → 2 ^ 63 ≤ seconds * 10 ^ 9
      → seconds * 10 ^ 9 < 2 ^ 64
      → retry_delay clock jitter header attempt ≡ negsuc (2 ^ 64 - 1 - seconds * 10 ^ 9)
  unfolding retry_delay
  retry_delay_wraps jitter header attempt seconds filled e a b =
      rw (filled, e, not_below seconds) (mul64_wraps seconds (10 ^ 9) a b)
