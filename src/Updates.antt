-- ===== src/Updates.antt =====
-- internal/application/updates/recovery.go, and the steps of `activate` in install_unix.go: what a
-- startup does about an unfinished update of a single executable. A file is its digest, and `none` a
-- file that is not there.
pub mod Crash
pub mod Transaction
pub mod Decisions
pub mod Guarded
pub mod Course
pub mod Repair
mod Tests
use torrent_tv.Prelude.{
  ◌++◌, ℕ, ◌+◌, Time, Bool, true, false, not, ◌&&◌, ◌||◌, Option, none, some, List, [], ◌∷◌, take,
  ltb, if◌then◌else◌, null,
}
use torrent_tv.Prelude.Bytes.{Bytes, eqb}

pub data Phase : Type 0 where
  staged activated confirmed rolled_back other : Phase

-- The fields that decide; `prior_state` is decoded, and `none` where it is no digest.
pub record Operation : Type 0 where
  pub id : Bytes
  pub version : Bytes
  pub phase : Phase
  pub prior_state : Option Bytes
  pub deadline : Time
  pub suppress_next : Bool
  pub failed_error : Bytes

pub data RecoveryAction : Type 0 where
  acknowledges rolls_back cleans_up suppresses needs_repair : RecoveryAction

pub record InstallState : Type 0 where
  pub current_version : Bytes
  pub now : Time
  pub is_activated : Bool
  pub is_pristine : Bool

abbrev pub by_phase : Phase → Operation → InstallState → RecoveryAction × Operation
by_phase staged op st =
    if st.is_activated then (rolls_back, record op { phase = activated }) else (cleans_up, op)
by_phase activated op st =
    if st.is_activated && eqb st.current_version op.version && ltb st.now op.deadline
    then (acknowledges, op)
    else if st.is_activated || not st.is_pristine
    then (rolls_back, op)
    else (cleans_up, op)
by_phase confirmed op st = (cleans_up, op)
by_phase rolled_back op st = (suppresses, op)
by_phase other op st = (needs_repair, op)

unfoldable pub evaluate_recovery : Operation → InstallState → RecoveryAction × Operation
unfolding eqb
evaluate_recovery op st =
    if not (null op.failed_error) then (needs_repair, op) else by_phase op.phase op st

-- `liveState` of an executable: the live file, the backup and the recorded digest.
unfoldable pub live_state : Option Bytes → Option Bytes → Option Bytes → Bool × Bool
unfolding eqb
live_state none backup prior = (false, false)
live_state (some live) (some backup) prior =
    if eqb live backup then (false, true) else (true, false)
live_state (some live) none none = (false, false)
live_state (some live) none (some prior) = (not (eqb live prior), eqb live prior)

-- What survives a crash.
pub record Disk : Type 0 where
  pub live : Option Bytes
  pub backup : Option Bytes
  pub op : Operation

unfoldable pub install_state : Disk → Bytes → Time → InstallState
unfolding live_state
install_state d version now =
    let (is_activated, is_pristine) = live_state d.live d.backup d.op.prior_state in
    record {
      current_version = version;
      now = now;
      is_activated = is_activated;
      is_pristine = is_pristine;
    }

-- The decision of `Recover` over a journal with an operation.
unfoldable pub recovery_action : Disk → Bytes → Time → RecoveryAction
unfolding evaluate_recovery install_state
recovery_action d version now = (evaluate_recovery d.op (install_state d version now)).0

-- `backupFile`: a hard link, which is one change.
abbrev pub by_link : List (Disk → Disk)
by_link = (λ d. record d { backup = d.live }) ∷ []

-- `backupFile` where the file system has no links: the copy has the digest `part` while it is written.
abbrev pub by_copy : Bytes → List (Disk → Disk)
by_copy part = (λ d. record d { backup = some part }) ∷ (λ d. record d { backup = d.live }) ∷ []

-- The changes that `activate` makes behind those of its backup.
unfoldable pub activate_steps : List (Disk → Disk) → Bytes → Time → List (Disk → Disk)
activate_steps backup new deadline =
    backup
    ++ ((λ d. record d { live = some new })
        ∷ (λ d. record d { op = record d.op { phase = activated; deadline = deadline } })
        ∷ [])

abbrev pub run_steps : List (Disk → Disk) → Disk → Disk
run_steps [] d = d
run_steps (f ∷ fs) d = run_steps fs (f d)

-- `activate` cut off after its first `n` changes.
unfoldable pub crashed : ℕ → List (Disk → Disk) → Bytes → Time → Disk → Disk
unfolding activate_steps
crashed n backup new deadline d = run_steps (take n (activate_steps backup new deadline)) d

-- `Journal.Acknowledge` of the loaded record: the record to save, or `none` for a mismatch.
abbrev pub awaits : Phase → Bool
awaits activated = true
awaits staged = false
awaits confirmed = false
awaits rolled_back = false
awaits other = false

unfoldable pub acknowledge : Option Operation → Bytes → Bytes → Option Operation
unfolding eqb
acknowledge none id version = none
acknowledge (some op) id version =
    if not (awaits op.phase)
    then none
    else if not (eqb op.id id) || not (eqb op.version version)
    then none
    else some (record op { phase = confirmed })
