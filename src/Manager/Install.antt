-- ===== src/Manager/Install.antt =====
-- `install`: the pipeline of an accepted update. The files that it leaves or removes are left out.
use torrent_tv.Prelude.{
  ℕ, suc, zero, ◌+◌, ◌≤◌, ◌≡◌, ◌⊎◌, refl, Bool, true, false, Option, none, some, is_some, inl, inr,
  arith, if◌then◌else◌,
}
use torrent_tv.Prelude.Bytes.{Bytes}

-- One attempt at the release: the download, the staging or the extraction fails, or a payload is
-- ready.
pub data Attempt : Type 0 where
  no_body not_staged not_extracted : Bytes → Attempt
  extracted : Attempt

-- What the steps answer; `none` is no error. `lost n` is the context's error in the pause behind the
-- attempt `n`.
pub record Answers : Type 0 where
  pub barrier : Option Bytes
  pub stop_serving : Option Bytes
  pub attempt : ℕ → Attempt
  pub lost : ℕ → Option Bytes
  pub open_journal : Option Bytes
  pub prepare : Option Bytes
  pub activate : Option Bytes
  pub under_systemd : Bool
  pub set_relaunch_args : Option Bytes
  pub handoff : Option Bytes

-- `failure` is the variable that the deferred call reads.
pub record Outcome : Type 0 where
  pub failure : Option Bytes
  pub attempts : ℕ
  pub activated : Bool
  pub handed_off : Bool
  pub exited : Bool

abbrev pub start : Outcome
start = record {
  failure = none;
  attempts = 0;
  activated = false;
  handed_off = false;
  exited = false;
}

abbrev pub failed_with : Bytes → Outcome → Outcome
failed_with e o = record o { failure = some e }

-- A step that may fail, and the rest.
abbrev pub then_go : Option Bytes → (Outcome → Outcome) → Outcome → Outcome
then_go none rest o = rest o
then_go (some e) rest o = failed_with e o

abbrev pub exit_process : Outcome → Outcome
exit_process o = record o { exited = true }

abbrev pub hand_off : Answers → Outcome → Outcome
hand_off a o =
    then_go a.set_relaunch_args
      (then_go a.handoff (λ o. exit_process (record o { handed_off = true }))) o

abbrev pub activated : Answers → Outcome → Outcome
activated a o =
    if a.under_systemd
    then exit_process (record o { activated = true })
    else hand_off a (record o { activated = true })

abbrev pub mutate : Answers → Outcome → Outcome
mutate a o = then_go a.open_journal (then_go a.prepare (then_go a.activate (activated a))) o

-- Behind a rejected attempt: the failure is kept, and `last` is whether this was the third.
abbrev pub retry : Bool → Option Bytes → (Outcome → Outcome) → Outcome → Outcome
retry true lost rest o = o
retry false (some e) rest o = failed_with e o
retry false none rest o = rest o

abbrev pub react : Answers → Bool → Option Bytes → (Outcome → Outcome) → Outcome → Attempt → Outcome
react a last lost rest o (no_body e) = failed_with e o
react a last lost rest o (not_staged e) = retry last lost rest (failed_with e o)
react a last lost rest o (not_extracted e) = retry last lost rest (failed_with e o)
react a last lost rest o extracted = mutate a o

-- The loop, with the attempts that are left behind this one.
unfoldable pub attempts : Answers → ℕ → ℕ → Outcome → Outcome
attempts a zero n o = react a true none (λ o. o) (record o { attempts = n }) (a.attempt n)
attempts a (suc left) n o =
    react a false (a.lost n) (λ o. attempts a left (n + 1) o) (record o { attempts = n })
      (a.attempt n)

unfoldable pub install : Answers → Outcome
unfolding attempts
install a = then_go a.barrier (then_go a.stop_serving (attempts a 2 1)) start

-- The process exits only with the new installation in place and, without a supervisor, a helper at
-- work; otherwise nothing exits and a failure is recorded.
abbrev pub Ends : Answers → Outcome → Type 0
Ends a o =
    ((o.exited ≡ true) × (o.activated ≡ true) × (o.handed_off ≡ true) × (a.under_systemd ≡ false))
    ⊎ (((o.exited ≡ true)
          × (o.activated ≡ true)
          × (o.handed_off ≡ false)
          × (a.under_systemd ≡ true))
        ⊎ ((o.exited ≡ false) × (is_some o.failure ≡ true)))

-- Before the end.
abbrev Going : Outcome → Type 0
Going o = (o.exited ≡ false) × (o.activated ≡ false) × (o.handed_off ≡ false) × (o.attempts ≤ 3)

abbrev pub EndsWithin : Answers → Outcome → Type 0
EndsWithin a o = Ends a o × (o.attempts ≤ 3)

failed_with-Ends :
    (a : Answers) (e : Bytes) (o : Outcome)
    → o.exited ≡ false
    → o.attempts ≤ 3
    → EndsWithin a (failed_with e o)
failed_with-Ends a e o x n = (inr (inr (x, refl)), n)

then_go-Ends :
    (a : Answers) (step : Option Bytes) (rest : Outcome → Outcome) (o : Outcome)
    → o.exited ≡ false
    → o.attempts ≤ 3
    → EndsWithin a (rest o)
    → EndsWithin a (then_go step rest o)
then_go-Ends a none rest o x n h = h
then_go-Ends a (some e) rest o x n h = failed_with-Ends a e o x n

activated-Ends : (a : Answers) (o : Outcome) → Going o → EndsWithin a (activated a o)
activated-Ends a o (x, y, z, n) = by_supervision a.under_systemd refl
  where
    done : Outcome
    done = record o { activated = true }

    by_supervision :
        (b : Bool)
        → a.under_systemd ≡ b
        → EndsWithin a (if b then exit_process done else hand_off a done)
    by_supervision true e = (inr (inl (refl, refl, z, e)), n)
    by_supervision false e =
        then_go-Ends a a.set_relaunch_args
          (then_go a.handoff (λ o. exit_process (record o { handed_off = true }))) done x n
          (then_go-Ends a a.handoff (λ o. exit_process (record o { handed_off = true })) done x n
            (inl (refl, refl, refl, e), n))

mutate-Ends : (a : Answers) (o : Outcome) → Going o → EndsWithin a (mutate a o)
mutate-Ends a o (x, y, z, n) =
    then_go-Ends a a.open_journal (then_go a.prepare (then_go a.activate (activated a))) o x n (
      then_go-Ends a a.prepare (then_go a.activate (activated a)) o x n
        (then_go-Ends a a.activate (activated a) o x n (activated-Ends a o (x, y, z, n))))

retry-Ends :
    (a : Answers) (last : Bool) (lost : Option Bytes) (rest : Outcome → Outcome) (o : Outcome)
    (e : Bytes)
    → o.exited ≡ false
    → o.attempts ≤ 3
    → (last ≡ false → EndsWithin a (rest (failed_with e o)))
    → EndsWithin a (retry last lost rest (failed_with e o))
retry-Ends a true lost rest o e x n h = failed_with-Ends a e o x n
retry-Ends a false (some c) rest o e x n h = failed_with-Ends a c (failed_with e o) x n
retry-Ends a false none rest o e x n h = h refl

react-Ends :
    (a : Answers) (last : Bool) (lost : Option Bytes) (rest : Outcome → Outcome) (o : Outcome)
    (t : Attempt)
    → Going o
    → (last ≡ false → (e : Bytes) → EndsWithin a (rest (failed_with e o)))
    → EndsWithin a (react a last lost rest o t)
react-Ends a last lost rest o (no_body e) (x, y, z, n) h = failed_with-Ends a e o x n
react-Ends a last lost rest o extracted g h = mutate-Ends a o g
react-Ends a last lost rest o (not_staged e) (x, y, z, n) h =
    retry-Ends a last lost rest o e x n (λ l. h l e)
react-Ends a last lost rest o (not_extracted e) (x, y, z, n) h =
    retry-Ends a last lost rest o e x n (λ l. h l e)

attempts-Ends :
    (a : Answers) (left n : ℕ) (o : Outcome)
    → Going o
    → left + n ≤ 3
    → EndsWithin a (attempts a left n o)
unfolding attempts
attempts-Ends a zero n o (x, y, z, k) le =
    react-Ends a true none (λ o. o) (record o { attempts = n }) (a.attempt n) (x, y, z, omega arith)
      (λ l. absurd (clash l))
  where
    clash : ¬ (true ≡ false)
    clash e = cc
attempts-Ends a (suc left) n o (x, y, z, k) le =
    react-Ends a false (a.lost n) (λ o. attempts a left (n + 1) o) (record o { attempts = n })
      (a.attempt n) (x, y, z, omega arith)
      (λ l e.
        attempts-Ends a left (n + 1) (record o { attempts = n; failure = some e })
          (x, y, z, omega arith) (omega arith))

-- Whatever the steps answer: the release is fetched at most three times, and the process exits only
-- with the new installation activated, with the helper at work exactly if systemd does not supervise
-- the service. If it does not exit, a failure is recorded.
pub install-EndsWithin : (a : Answers) → EndsWithin a (install a)
unfolding install
install-EndsWithin a =
    then_go-Ends a a.barrier (then_go a.stop_serving (attempts a 2 1)) start refl (omega arith) (
      then_go-Ends a a.stop_serving (attempts a 2 1) start refl (omega arith)
        (attempts-Ends a 2 1 start (refl, refl, refl, omega arith) (omega arith)))
