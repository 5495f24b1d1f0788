-- ===== src/Manager.antt =====
-- internal/application/updates/manager.go: the coordinator of self-updates. Its methods run in any
-- number of goroutines; each constructor of `Step` is what one of them does in one critical section.
-- Contexts and the channels of the response barrier are left out.
pub mod Token
pub mod Stale
pub mod Install
mod Tests
use torrent_tv.Prelude.{
  ℕ, ◌+◌, ◌-◌, ◌<◌, ◌≡◌, Bool, true, false, not, ◌&&◌, Option, none, some, is_some, List, [], ◌∷◌,
  ◌++◌, same, if◌then◌else◌,
}
use torrent_tv.Prelude.Bytes.{Bytes, eqb, codes}

pub record Status : Type 0 where
  pub current_version : Bytes
  pub available : Bool
  pub latest : Bytes
  pub notes : Bytes
  pub released_at : Bytes
  pub releases_url : Bytes
  pub self_update : Bool
  pub applying : Bool

abbrev pub same_status : Status → Status → Bool
same_status a b =
    eqb a.current_version b.current_version
    && same a.available b.available
    && eqb a.latest b.latest
    && eqb a.notes b.notes
    && eqb a.released_at b.released_at
    && eqb a.releases_url b.releases_url
    && same a.self_update b.self_update
    && same a.applying b.applying

-- What a fetch found: no notice, a release that is not newer, or a newer one with its version, notes
-- and date.
pub data Fetched : Type 0 where
  no_notice not_newer : Fetched
  newer : Bytes → Bytes → Bytes → Fetched

-- The two kinds of events.
pub data Notice : Type 0 where
  status_event : Status → Notice
  failed_event : Bytes → Notice

-- `idle` is the channel that `WaitIdle` waits for, `none` the one that is closed from the start.
-- `fetching`, `drafts` and `offers` are the applies in flight, by how far they have come: they hold
-- the token, have drafted a status, or have committed it. `checks` are the drafts of other checks.
-- `panicked` is whether a closed channel was closed.
pub record Manager : Type 0 where
  pub status : Status
  pub applying : Bool
  pub idle : Option ℕ
  pub made : ℕ
  pub sent : List Notice
  pub panicked : Bool
  pub fetching : ℕ
  pub drafts : List Status
  pub offers : List Status
  pub installing : ℕ
  pub checks : List Status

abbrev pub first_status : Bytes → Bytes → Bool → Status
first_status version url capable = record {
  current_version = version;
  available = false;
  latest = [];
  notes = [];
  released_at = [];
  releases_url = url;
  self_update = capable;
  applying = false;
}

-- `NewManager`, with the result of `capable`.
abbrev pub new_manager : Bytes → Bytes → Bool → Manager
new_manager version url capable = record {
  status = first_status version url capable;
  applying = false;
  idle = none;
  made = 0;
  sent = [];
  panicked = false;
  fetching = 0;
  drafts = [];
  offers = [];
  installing = 0;
  checks = [];
}

unfoldable pub base_status : Manager → Status
base_status m = record m.status { available = false; latest = []; notes = []; released_at = [] }

-- The draft of `check` behind its fetch.
abbrev pub draft : Fetched → Status → Status
draft no_notice st = st
draft not_newer st = st
draft (newer version notes date) st = record st {
  available = true;
  latest = version;
  notes = notes;
  released_at = date;
}

unfoldable pub commit : Status → Manager → Manager
unfolding eqb
commit st m =
    if same_status st m.status
    then m
    else record m { status = st; sent = m.sent ++ status_event st ∷ [] }

-- `beginOperation` without its two refusals.
abbrev pub may_begin : Manager → Bool
may_begin m = not m.applying && m.status.self_update

unfoldable pub begin_operation : Manager → Manager
begin_operation m = record m {
  applying = true;
  idle = some m.made;
  made = m.made + 1;
  fetching = m.fetching + 1;
}

-- `applyAccepted` from an available release on.
unfoldable pub accept : Manager → Manager
accept m =
    let st = record m.status { applying = true } in
    record m { status = st; sent = m.sent ++ status_event st ∷ []; installing = m.installing + 1 }

abbrev pub failed_events : Option Bytes → List Notice
failed_events none = []
failed_events (some e) = failed_event e ∷ []

-- `finishOperation`, with the failure.
unfoldable pub finish_operation : Option Bytes → Manager → Manager
finish_operation failure m =
    let st = record m.status { applying = false } in
    record m {
      status = st;
      applying = false;
      idle = none;
      panicked = if is_some m.idle then m.panicked else true;
      sent =
          if m.status.applying
          then m.sent ++ failed_events failure ++ status_event st ∷ []
          else m.sent ++ failed_events failure;
    }

pub data Step (m : Manager) : Manager → Type 0 where
  begins : may_begin m ≡ true → Step m (begin_operation m)
  -- The check of an apply fails, or its client goes away.
  gives_up :
      (failure : Option Bytes)
      → 0 < m.fetching
      → Step m (finish_operation failure (record m { fetching = m.fetching - 1 }))
  drafts_offer :
      (found : Fetched)
      → 0 < m.fetching
      → Step m
          (record m { fetching = m.fetching - 1; drafts = draft found (base_status m) ∷ m.drafts })
  commits_offer :
      (st : Status) (before after : List Status)
      → m.drafts ≡ before ++ st ∷ after
      → Step m (commit st (record m { drafts = before ++ after; offers = st ∷ m.offers }))
  declines :
      (st : Status) (before after : List Status)
      → m.offers ≡ before ++ st ∷ after
      → st.available ≡ false
      → Step m (finish_operation none (record m { offers = before ++ after }))
  accepts :
      (st : Status) (before after : List Status)
      → m.offers ≡ before ++ st ∷ after
      → st.available ≡ true
      → Step m (accept (record m { offers = before ++ after }))
  -- The deferred call of `install`.
  ends :
      (failure : Option Bytes)
      → 0 < m.installing
      → Step m (finish_operation failure (record m { installing = m.installing - 1 }))
  drafts_check :
      (found : Fetched) → Step m (record m { checks = draft found (base_status m) ∷ m.checks })
  commits_check :
      (st : Status) (before after : List Status)
      → m.checks ≡ before ++ st ∷ after
      → Step m (commit st (record m { checks = before ++ after }))

pub data Reach (start : Manager) : Manager → Type 0 where
  here : Reach start start
  next : {s t : Manager} → Reach start s → Step s t → Reach start t
