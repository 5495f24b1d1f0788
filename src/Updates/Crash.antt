-- ===== src/Updates/Crash.antt =====
-- A crash inside `activate`, and what the next startup does.
use torrent_tv.Prelude.{
  ℕ, zero, suc, ◌<◌, Time, ◌≡◌, refl, sym, ap, subst, ltb_iff, ◌↔◌, Bool, true, false, not, ◌&&◌,
  ◌||◌, none, some, [], ltb, if◌then◌else◌,
}
use torrent_tv.Prelude.Bytes.{Bytes, eqb, eqb_iff, eqb_refl}
use torrent_tv.Updates.{
  Phase, staged, activated, confirmed, rolled_back, other, Operation, RecoveryAction, acknowledges,
  rolls_back, cleans_up, suppresses, needs_repair, Disk, evaluate_recovery, live_state,
  install_state, recovery_action, crashed, by_link, acknowledge, awaits,
}

-- The previous executable is still there, where the decision looks for it.
abbrev pub KeepsPrevious : Bytes → Bytes → Bytes → Time → Disk → RecoveryAction → Type 0
KeepsPrevious old new version now d cleans_up = d.live ≡ some old
KeepsPrevious old new version now d rolls_back = d.backup ≡ some old
KeepsPrevious old new version now d acknowledges =
    (d.live ≡ some new) × (d.backup ≡ some old) × (version ≡ d.op.version) × (now < d.op.deadline)
KeepsPrevious old new version now d suppresses = ⊥
KeepsPrevious old new version now d needs_repair = ⊥

-- The disk before `activate`: the staged operation of `Prepare`.
abbrev pub prepared : Bytes → Bytes → Bytes → Disk
prepared old id version = record {
  live = some old;
  backup = none;
  op = record {
    id = id;
    version = version;
    phase = staged;
    prior_state = some old;
    deadline = 0;
    suppress_next = false;
    failed_error = [];
  };
}

unchanged : (old : Bytes) → live_state (some old) none (some old) ≡ (false, true)
unfolding live_state
unchanged old = ap (λ b. (not b, b)) (eqb_refl old)

backed_up : (old : Bytes) → live_state (some old) (some old) (some old) ≡ (false, true)
unfolding live_state
backed_up old = ap (λ (b : Bool). if b then (false, true) else (true, false)) (eqb_refl old)

swapped :
    (old new : Bytes)
    → eqb new old ≡ false
    → live_state (some new) (some old) (some old) ≡ (true, false)
unfolding live_state
swapped old new ne = ap (λ (b : Bool). if b then (false, true) else (true, false)) ne

abbrev decided : Disk → Bytes → Time → Bool × Bool → RecoveryAction
decided d version now (is_activated, is_pristine) =
    (evaluate_recovery d.op (record {
      current_version = version;
      now = now;
      is_activated = is_activated;
      is_pristine = is_pristine;
    })).0

-- The decision of a disk whose live state is known.
by_live_state :
    (old new version : Bytes) (now : Time) (d : Disk) (s : Bool × Bool)
    → live_state d.live d.backup d.op.prior_state ≡ s
    → KeepsPrevious old new version now d (decided d version now s)
    → KeepsPrevious old new version now d (recovery_action d version now)
unfolding recovery_action install_state
by_live_state old new version now d s e h =
    subst (λ x. KeepsPrevious old new version now d (decided d version now x)) (sym e) h

installed :
    (old new id target version : Bytes) (deadline now : Time)
    → KeepsPrevious old new version now (crashed 3 by_link new deadline (prepared old id target)) (
        decided (crashed 3 by_link new deadline (prepared old id target)) version now (true, false))
unfolding crashed evaluate_recovery
installed old new id target version deadline now =
    by_tests (eqb version target) (ltb now deadline) refl refl
  where
    d : Disk
    d = crashed 3 by_link new deadline (prepared old id target)

    test : Bool → Bool → RecoveryAction × Operation
    test b c =
        if true && b && c
        then (acknowledges, d.op)
        else if true || not false
        then (rolls_back, d.op)
        else (cleans_up, d.op)

    by_tests :
        (b c : Bool)
        → eqb version target ≡ b
        → ltb now deadline ≡ c
        → KeepsPrevious old new version now d (test b c).0
    by_tests true true e f = (refl, refl, (eqb_iff version target).0 e, (ltb_iff now deadline).0 f)
    by_tests true false e f = refl
    by_tests false c e f = refl

-- Where the file system takes hard links, for an operation that is staged with the digest of the live
-- executable, no backup yet and a new executable that differs: wherever a crash cuts `activate` off,
-- the next startup cleans up only with the previous executable live, rolls back only with it in the
-- backup, and acknowledges only the announced version, live, before the deadline and with the
-- previous executable in the backup; it asks for no repair.
pub crashed-KeepsPrevious :
    (n : ℕ) (old new id target version : Bytes) (deadline now : Time)
    → eqb new old ≡ false
    → KeepsPrevious old new version now
        (crashed n by_link new deadline (prepared old id target))
        (recovery_action (crashed n by_link new deadline (prepared old id target)) version now)
unfolding crashed evaluate_recovery
crashed-KeepsPrevious zero old new id target version deadline now ne =
    by_live_state old new version now (prepared old id target) (false, true) (unchanged old) refl
crashed-KeepsPrevious (suc zero) old new id target version deadline now ne =
    by_live_state old new version now (crashed 1 by_link new deadline (prepared old id target))
      (false, true) (backed_up old) refl
crashed-KeepsPrevious (suc (suc zero)) old new id target version deadline now ne =
    by_live_state old new version now (crashed 2 by_link new deadline (prepared old id target))
      (true, false) (swapped old new ne) refl
crashed-KeepsPrevious (suc (suc (suc zero))) old new id target version deadline now ne =
    by_live_state old new version now (crashed 3 by_link new deadline (prepared old id target))
      (true, false) (swapped old new ne) (installed old new id target version deadline now)
crashed-KeepsPrevious (suc (suc (suc (suc n)))) old new id target version deadline now ne =
    by_live_state old new version now (crashed 3 by_link new deadline (prepared old id target))
      (true, false) (swapped old new ne) (installed old new id target version deadline now)

awaits-activated : (phase : Phase) → (awaits phase ≡ true) ↔ (phase ≡ activated)
awaits-activated activated = ((λ e. refl), (λ e. refl))
awaits-activated staged = ((λ e. cc), (λ e. cc))
awaits-activated confirmed = ((λ e. cc), (λ e. cc))
awaits-activated rolled_back = ((λ e. cc), (λ e. cc))
awaits-activated other = ((λ e. cc), (λ e. cc))

accepted :
    (a b c : Bool) (confirmed_op saved : Operation)
    → ((if not a then none else if not b || not c then none else some confirmed_op) ≡ some saved)
      ↔ ((a ≡ true) × (b ≡ true) × (c ≡ true) × (some confirmed_op ≡ some saved))
accepted false b c x saved = ((λ e. cc), (λ (p, q, r, e). cc))
accepted true false c x saved = ((λ e. cc), (λ (p, q, r, e). cc))
accepted true true false x saved = ((λ e. cc), (λ (p, q, r, e). cc))
accepted true true true x saved = ((λ e. (refl, refl, refl, e)), (λ (p, q, r, e). e))

-- An acknowledgement of a recorded operation is accepted exactly if the operation awaits it and has
-- the id and the version that it names; what is saved is then the operation, confirmed.
pub acknowledge_iff :
    (op : Operation) (id version : Bytes) (saved : Operation)
    → (acknowledge (some op) id version ≡ some saved) ↔ (
        (op.phase ≡ activated)
        × (op.id ≡ id)
        × (op.version ≡ version)
        × (some (record op { phase = confirmed }) ≡ some saved))
unfolding acknowledge
acknowledge_iff op id version saved =
    let t =
      accepted (awaits op.phase) (eqb op.id id) (eqb op.version version)
        (record op { phase = confirmed }) saved in
    let a = awaits-activated op.phase in
    let i = eqb_iff op.id id in
    let v = eqb_iff op.version version in
    (
      (λ e. let (p, q, r, f) = t.0 e in (a.0 p, i.0 q, v.0 r, f)),
      (λ (p, q, r, f). t.1 (a.1 p, i.1 q, v.1 r, f)),
    )
