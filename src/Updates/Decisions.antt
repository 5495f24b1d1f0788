-- ===== src/Updates/Decisions.antt =====
-- The decision of `Recover` over a new executable.
use torrent_tv.Prelude.{◌≡◌, refl, Bool, true, false, not, ◌&&◌, ◌||◌, ltb, null, if◌then◌else◌}
use torrent_tv.Prelude.Bytes.{eqb}
use torrent_tv.Updates.{
  Phase, staged, activated, confirmed, rolled_back, other, Operation, RecoveryAction, acknowledges,
  rolls_back, cleans_up, needs_repair, InstallState, by_phase, evaluate_recovery,
}

abbrev action_of : RecoveryAction × Operation → RecoveryAction
action_of r = r.0

staged_lem :
    (b : Bool) (op pending : Operation)
    → b ≡ true
    → action_of (if b then (rolls_back, pending) else (cleans_up, op)) ≡ cleans_up
    → ⊥
staged_lem true op pending h e = cc
staged_lem false op pending h e = cc

activated_lem :
    (b c d p : Bool) (op : Operation)
    → b ≡ true
    → action_of (
        if b && c && d
        then (acknowledges, op)
        else if b || p
        then (rolls_back, op)
        else (cleans_up, op))
      ≡ cleans_up
    → ⊥
activated_lem false c d p op h e = cc
activated_lem true true true p op h e = cc
activated_lem true true false p op h e = cc
activated_lem true false d p op h e = cc

-- Over a new executable, only a confirmed operation is cleaned up.
by_phase_lem :
    (phase : Phase) (op : Operation) (st : InstallState)
    → st.is_activated ≡ true
    → (by_phase phase op st).0 ≡ cleans_up
    → phase ≡ confirmed
by_phase_lem staged op st h e =
    absurd (staged_lem st.is_activated op (record op { phase = activated }) h e)
by_phase_lem activated op st h e = absurd (
    activated_lem st.is_activated (eqb st.current_version op.version) (ltb st.now op.deadline)
      (not st.is_pristine) op h e)
by_phase_lem confirmed op st h e = refl
by_phase_lem rolled_back op st h e = cc
by_phase_lem other op st h e = cc

pub evaluate_recovery_lem :
    (op : Operation) (st : InstallState)
    → st.is_activated ≡ true
    → (evaluate_recovery op st).0 ≡ cleans_up
    → op.phase ≡ confirmed
unfolding evaluate_recovery
evaluate_recovery_lem op st h e = by_failure (not (null op.failed_error)) e
  where
    by_failure :
        (b : Bool)
        → action_of (if b then (needs_repair, op) else by_phase op.phase op st) ≡ cleans_up
        → op.phase ≡ confirmed
    by_failure true e = cc
    by_failure false e = by_phase_lem op.phase op st h e
