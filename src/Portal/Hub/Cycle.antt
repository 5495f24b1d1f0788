-- ===== src/Portal/Hub/Cycle.antt =====
-- The refresh cycle, `Hub.refresh`. A cycle is given by what the outside does to it: the key that
-- it reads, the answer to each call it may make, what other goroutines do to the hub while the call
-- waits, and whether the context has ended by then. `Run` starts its cycles without `refreshMu`, so
-- another cycle's commit is one of the things that may happen during a wait.
pub mod Flows
pub mod Invariant
pub mod Drafts
pub mod Phases
pub mod Walk
pub mod Stale
pub mod Quiet
pub mod History
pub mod Slots
pub mod Surfaces
use torrent_tv.Prelude.{
  ℕ, String, Bool, true, false, not, ◌&&◌, Option, none, some, List, [], ◌∷◌, ◌++◌, ltb,
  if◌then◌else◌,
}
use torrent_tv.Portal.Types.{Time, Link, Promotion, Notice, AccountStatus, PublicSettings}
use torrent_tv.Portal.Hub.{
  Error, credentials, Reply, ok, fail, HubState, Hub, refresh_notice, note_settings, gate, commit,
  expire_donor, observe_account_outcome, without_donor,
}

-- What the other goroutines do.
pub data Action : Type 0 where
  notes : String → Action
  fetches : Reply Notice → Action
  expires : Time → Action
  observes : Option Error → Action
  commits : HubState → Action

unfoldable pub act : Action → Hub → Hub
unfolding note_settings refresh_notice expire_donor observe_account_outcome commit
act (notes key) h = (note_settings key h).0
act (fetches answer) h = (refresh_notice answer h).0
act (expires now) h = expire_donor now h
act (observes outcome) h = observe_account_outcome outcome h
act (commits next) h = commit next h

unfoldable pub acts : List Action → Hub → Hub
acts [] h = h
acts (a ∷ rest) h = acts rest (act a h)

pub record Wait (A : Type 0) : Type 0 where
  pub answer : Reply A
  pub meanwhile : List Action
  pub context : Option Error

pub record Script : Type 0 where
  pub key : String
  -- between the critical sections of `noteSettings`, `currentGeneration` and `current`
  pub before_generation : List Action
  pub before_state : List Action
  pub context : Option Error
  pub settings : Wait PublicSettings
  pub links : Wait (List Link)
  -- the key that is read for the account call, and the call for any key
  pub account_key : String
  pub account : String → Wait AccountStatus
  pub now : Time
  pub delivery : Wait (List Promotion)
  pub availability : Wait Bool
  pub recovery : Wait (List Promotion)
  -- between the last gate and the critical section of `commit`
  pub before_commit : List Action

abbrev pub account_wait : Script → Wait AccountStatus
account_wait script = script.account script.account_key

-- How a cycle goes on: it leaves with an error, or has a value.
pub data Flow (A : Type 0) : Type 0 where
  leave : Error → Flow A
  keeps : A → Flow A

abbrev pub M : Type 0 → Type 0
M A = Hub → Hub × Flow A

abbrev pub after : {A B : Type 0} → Hub × Flow A → (A → M B) → Hub × Flow B
after (h, leave e) f = (h, leave e)
after (h, keeps a) f = f a h

infixl 5 ◌>>=◌
abbrev pub ◌>>=◌ : {A B : Type 0} → M A → (A → M B) → M B
◌>>=◌ m f h = after (m h) f

abbrev pub return : {A : Type 0} → A → M A
return a h = (h, keeps a)

abbrev pub flow_of : {A : Type 0} → Option Error → A → Flow A
flow_of none a = keeps a
flow_of (some e) a = leave e

-- A client call and the gate behind it: `answer, err := call(); if stale := h.gate(ctx, g) …`.
pub call : {A : Type 0} → Wait A → ℕ → M (Reply A)
unfolding acts gate
call w g h = let h' = acts w.meanwhile h in (h', flow_of (gate w.context g h') w.answer)

-- The candidate state and the errors so far.
abbrev pub Draft : Type 0
Draft = HubState × List Error

abbrev pub without_portal : HubState → HubState
without_portal s = record (without_donor s) {
  accounts_enabled = false;
  ads_enabled = false;
  promotion_live = false;
  promotions = [];
}

pub take_links : Reply (List Link) → HubState → Draft
take_links (fail e) s = (record s { links = [] }, e ∷ [])
take_links (ok ls) s = (record s { links = ls }, [])

abbrev until_of : Time → Option Time → HubState → HubState
until_of now none s = record s { donor = true }
until_of now (some t) s = if ltb now t then record s { donor = true; donor_until = t } else s

abbrev donor_of : Time → AccountStatus → HubState → HubState
donor_of now status s = if status.donor then until_of now status.donor_until s else s

pub take_account : Time → Reply AccountStatus → HubState → Draft
take_account now (ok status) s = (donor_of now status (without_donor s), [])
take_account now (fail credentials) s = (without_donor s, [])
take_account now (fail e) s = (record (without_donor s) { accounts_enabled = false }, e ∷ [])

abbrev pub hide_promotions : HubState → HubState
hide_promotions s = record s { promotions = []; promotion_live = false }

pub take_delivery : Reply (List Promotion) → Draft → Draft
take_delivery (fail e) (s, errs) = (hide_promotions s, errs ++ e ∷ [])
take_delivery (ok ps) (s, errs) = (record s { promotions = ps }, errs)

pub take_recovery : Reply (List Promotion) → Draft → Draft
take_recovery (fail e) (s, errs) = (hide_promotions s, errs ++ e ∷ [])
take_recovery (ok ps) (s, errs) = (record s { promotions = ps; promotion_live = true }, errs)

abbrev no_promotions : HubState → HubState
no_promotions s = record s { promotions = [] }

module _ (script : Script) (g : ℕ) where
  account_phase : PublicSettings → Draft → M Draft
  unfolding call take_account
  account_phase settings (s, errs) =
      let ask : M Draft = (do
        answer ← call (account_wait script) g
        let (s', more) = take_account script.now answer s
        return (s', errs ++ more)) in
      if settings.accounts_enabled then ask else return (without_donor s, errs)

  recover : Reply Bool → Draft → M Draft
  unfolding call take_recovery
  recover (fail e) (s, errs) = return (no_promotions s, errs ++ e ∷ [])
  recover (ok false) (s, errs) = return (no_promotions s, errs)
  recover (ok true) draft = do answer ← call script.recovery g; return (take_recovery answer draft)

  deliver : Draft → M Draft
  unfolding call take_delivery
  deliver draft = do answer ← call script.delivery g; return (take_delivery answer draft)

  probe : Draft → M Draft
  unfolding call recover
  probe draft = do answer ← call script.availability g; recover answer draft

  pub promotion_phase : PublicSettings → Draft → M Draft
  unfolding deliver probe
  promotion_phase settings draft =
      if settings.ads_enabled && not draft.0.donor && draft.0.promotion_live
      then deliver draft
      else if settings.ads_enabled && not draft.0.donor
      then probe draft
      else return (hide_promotions draft.0, draft.1)

  -- What follows the public settings: the next state and its errors.
  settings_phase : Reply PublicSettings → HubState → M Draft
  unfolding call take_links account_phase promotion_phase
  settings_phase (fail e) s = return (without_portal s, e ∷ [])
  settings_phase (ok settings) s = do
    let s₁ = record s {
      accounts_enabled = settings.accounts_enabled;
      ads_enabled = settings.ads_enabled;
    }
    links ← call script.links g
    draft ← account_phase settings (take_links links s₁)
    promotion_phase settings draft

-- How a cycle ends: with an error and nothing committed, or committed with the joined errors.
pub data Ending : Type 0 where
  discarded : Error → Ending
  committed : HubState → List Error → Ending

pub close : Script → Hub × Flow Draft → Hub × Ending
unfolding acts commit
close script (h, leave e) = (h, discarded e)
close script (h, keeps (next, errs)) =
    (commit next (acts script.before_commit h), committed next errs)

pub check_context : Option Error → M (Unit {0})
check_context none h = (h, keeps tt)
check_context (some e) h = (h, leave e)

-- `current`, with what other goroutines do before it.
pub read_state : Script → M HubState
unfolding acts
read_state script h = let h' = acts script.before_state h in (h', keeps h'.state)

pub draft_of : Script → ℕ → M Draft
unfolding check_context read_state call settings_phase
draft_of script g = do
  _ ← check_context script.context
  next ← read_state script
  answer ← call script.settings g
  settings_phase script g answer next

-- The hub when the cycle reads its generation.
unfoldable pub begun : Script → Hub → Hub
unfolding note_settings acts
begun script h = acts script.before_generation (note_settings script.key h).0

unfoldable pub refresh : Script → Hub → Hub × Ending
unfolding begun draft_of close
refresh script h = let b = begun script h in close script (draft_of script b.generation b)
