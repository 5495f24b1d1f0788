-- ===== src/Portal/Hub/Cycle/History.antt =====
-- Whole histories of the hub, from `NewHub` on. Cycles overlap: what another cycle commits during a
-- wait is what that cycle makes of a hub and of actions that are part of a history themselves.
use torrent_tv.Prelude.{◌≡◌, String, List, [], ◌∷◌, Option, arith, All}
use torrent_tv.Portal.Types.{Time, Notice}
use torrent_tv.Portal.Hub.{Error, Reply, ok, fail, HubState, Hub, new_hub, account_call}
use torrent_tv.Portal.Hub.Cycle.{
  Action, notes, fetches, expires, observes, commits, act, Script, account_wait, refresh, committed,
}
use torrent_tv.Portal.Hub.Cycle.Invariant.{IsCoherent, IsSafe, IsSafeScript, act-IsCoherent}
use torrent_tv.Portal.Hub.Cycle.Phases.{refresh-IsCoherent, committed-IsCoherent}

mutual
  -- A hub that a history leads to: a refresh cycle, another goroutine's action, or a gated account
  -- operation with the client's answer, and so on.
  pub data Reach (key : String) : Hub → Type 0 where
    starts : Reach key (new_hub key)
    does : {h : Hub} (a : Action) → Reach key h → IsReal key a → Reach key (act a h)
    asks : {h : Hub} (answer : Reply String) → Reach key h → Reach key (account_call answer h).0
    refreshes :
        {h : Hub} (script : Script)
        → Reach key h
        → IsRealScript key script
        → Reach key (refresh script h).0

  -- A commit is the one of a cycle.
  pub data IsReal (key : String) : Action → Type 0 where
    real_notes : (k : String) → IsReal key (notes k)
    real_fetches : (answer : Reply Notice) → IsReal key (fetches answer)
    real_expires : (now : Time) → IsReal key (expires now)
    real_observes : (outcome : Option Error) → IsReal key (observes outcome)
    real_commits :
        {h : Hub} {next : HubState} {errs : List Error} (script : Script)
        → Reach key h
        → IsRealScript key script
        → (refresh script h).1 ≡ committed next errs
        → IsReal key (commits next)

  pub data AllReal (key : String) : List Action → Type 0 where
    no_more : AllReal key []
    and_then :
        {a : Action} {as' : List Action} → IsReal key a → AllReal key as' → AllReal key (a ∷ as')

  pub data IsRealScript (key : String) : Script → Type 0 where
    real_script :
        {script : Script}
        → AllReal key script.before_generation
        → AllReal key script.before_state
        → AllReal key script.settings.meanwhile
        → AllReal key script.links.meanwhile
        → AllReal key (account_wait script).meanwhile
        → AllReal key script.delivery.meanwhile
        → AllReal key script.availability.meanwhile
        → AllReal key script.recovery.meanwhile
        → AllReal key script.before_commit
        → IsRealScript key script

account_call-IsCoherent :
    (answer : Reply String) (h : Hub)
    → IsCoherent h.state
    → IsCoherent (account_call answer h).0.state
unfolding account_call act
account_call-IsCoherent (ok a) h v = ground arith
account_call-IsCoherent (fail e) h v = ground arith

new_hub-IsCoherent : (key : String) → IsCoherent (new_hub key).state
unfolding new_hub
new_hub-IsCoherent key = ground arith

mutual
  hub-IsCoherent : (key : String) {h : Hub} → Reach key h → IsCoherent h.state
  hub-IsCoherent key starts = new_hub-IsCoherent key
  hub-IsCoherent key (does {h} a r real) =
      act-IsCoherent a h (action-IsSafe key real) (hub-IsCoherent key r)
  hub-IsCoherent key (asks {h} answer r) = account_call-IsCoherent answer h (hub-IsCoherent key r)
  hub-IsCoherent key (refreshes {h} script r real) =
      refresh-IsCoherent script h (script-IsSafeScript key real) (hub-IsCoherent key r)

  action-IsSafe : (key : String) {a : Action} → IsReal key a → IsSafe a
  action-IsSafe key (real_notes k) = tt
  action-IsSafe key (real_fetches answer) = tt
  action-IsSafe key (real_expires now) = tt
  action-IsSafe key (real_observes outcome) = tt
  action-IsSafe key (real_commits {h} script r real e) =
      committed-IsCoherent script h (script-IsSafeScript key real) (hub-IsCoherent key r) e

  all-IsSafe : (key : String) {as' : List Action} → AllReal key as' → All IsSafe as'
  all-IsSafe key no_more = tt
  all-IsSafe key (and_then a rest) = (action-IsSafe key a, all-IsSafe key rest)

  script-IsSafeScript :
      (key : String) {script : Script} → IsRealScript key script → IsSafeScript script
  script-IsSafeScript key
        (real_script g s settings links account delivery availability recovery last) =
      record {
        before_generation = all-IsSafe key g;
        before_state = all-IsSafe key s;
        settings = all-IsSafe key settings;
        links = all-IsSafe key links;
        account = all-IsSafe key account;
        delivery = all-IsSafe key delivery;
        availability = all-IsSafe key availability;
        recovery = all-IsSafe key recovery;
        before_commit = all-IsSafe key last;
      }

-- After any history from `NewHub`, with any answers of the client and any actions of other goroutines
-- between the critical sections of a refresh cycle, the commits of overlapping cycles among them, the
-- cached state is coherent: a live promotion slot means that ads are on and that the household is no
-- donor; promotions are cached only while the slot is live; a donor has an open account surface; and
-- who is no donor has no expiry.
pub Reach-IsCoherent : (key : String) {h : Hub} → Reach key h → IsCoherent h.state
Reach-IsCoherent key r = hub-IsCoherent key r
