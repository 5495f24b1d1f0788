-- ===== src/Portal/Hub.antt =====
-- internal/application/portal/hub.go: the state of the hub and its operations on the cached state.
-- Each operation takes the hub to the next one. What the code reads from outside, the supporter
-- key, the clock and the answers of the upstream client, is an argument. `sent` holds the payloads
-- that went to the sink, the newest first; `h.emit` takes its snapshot where the state is written.
-- The generation counter is taken not to wrap.
pub mod Cycle
pub mod Account
pub mod Donor
use torrent_tv.Prelude.{
  ℕ, suc, ◌+◌, ◌-◌, ◌^◌, min, String, Bool, true, false, not, ◌&&◌, ◌||◌, Option, none, some, List,
  [], ◌∷◌, ltb, leb, ◌==◌, same, null, if◌then◌else◌, str_eq,
}
use torrent_tv.Prelude.Int.{ℤ, pos, eqb_ℤ, ltb_ℤ, add64}
use torrent_tv.Portal.Types.{Time, Link, Snapshot, Promotion, Notice, AccountStatus, PublicSettings}

-- The sentinels of the package; `done` is the error of a context that has ended.
pub data Error : Type 0 where
  credentials unavailable notice_absent accounts_unavailable promotions_unavailable : Error
  superseded : Error
  done : Error
  other : String → Error

pub data Reply {ℓ} (A : Type ℓ) : Type ℓ where
  ok : A → Reply A
  fail : Error → Reply A

pub record HubState : Type 0 where
  pub accounts_enabled : Bool
  pub ads_enabled : Bool
  pub promotion_live : Bool
  pub donor : Bool
  pub donor_until : Time
  pub links : List Link
  pub promotions : List Promotion

pub record Hub : Type 0 where
  pub state : HubState
  pub generation : ℕ
  pub last_key : String
  pub cached : Notice
  pub has_notice : Bool
  pub sent : List Snapshot

-- `hubState{}` and `Notice{}`.
abbrev pub blank_state : HubState
blank_state = record {
  accounts_enabled = false;
  ads_enabled = false;
  promotion_live = false;
  donor = false;
  donor_until = 0;
  links = [];
  promotions = [];
}

abbrev pub blank_notice : Notice
blank_notice = record {
  version = "";
  notes = "";
  released_at = 0;
  download_url = "";
  binaries = [];
}

unfoldable pub new_hub : String → Hub
new_hub key = record {
  state = blank_state;
  generation = 0;
  last_key = key;
  cached = blank_notice;
  has_notice = false;
  sent = [];
}

abbrev pub default_refresh_interval : ℤ
default_refresh_interval = pos 3_600_000_000_000

-- The cadence, with the jitter function if there is one. Durations are `int64` nanoseconds.
pub next_interval : ℤ → Option (ℤ → ℤ) → ℤ
unfolding add64
next_interval interval none = interval
next_interval interval (some jitter) =
    let jittered = add64 interval (jitter interval) in
    if ltb_ℤ (pos 0) jittered then jittered else interval

unfoldable pub snapshot : Hub → Snapshot
snapshot h = record {
  accounts_enabled = h.state.accounts_enabled;
  ads_enabled = h.state.ads_enabled && h.state.promotion_live;
  donor = h.state.donor;
  links = h.state.links;
}

pub promotions : Hub → List Promotion
promotions h = h.state.promotions

pub notice : Hub → Notice × Bool
notice h = (h.cached, h.has_notice)

unfoldable pub emit : Hub → Hub
unfolding snapshot
emit h = record h { sent = snapshot h ∷ h.sent }

-- `RefreshNotice`, with the client's answer.
pub refresh_notice : Reply Notice → Hub → Hub × Reply (Notice × Bool)
refresh_notice (ok n) h = (record h { cached = n; has_notice = true }, ok (n, true))
refresh_notice (fail notice_absent) h =
    (record h { cached = blank_notice; has_notice = false }, ok (blank_notice, false))
refresh_notice (fail e) h = (record h { cached = blank_notice; has_notice = false }, fail e)

-- `noteSettings`, with the key that the settings reader returns.
unfoldable pub note_settings : String → Hub → Hub × Bool
note_settings key h =
    if str_eq key h.last_key
    then (h, false)
    else (record h { last_key = key; generation = suc h.generation }, true)

unfoldable pub gate : Option Error → ℕ → Hub → Option Error
gate (some e) g h = some e
gate none g h = if h.generation == g then none else some superseded

abbrev pub same_link : Link → Link → Bool
same_link a b =
    eqb_ℤ a.id b.id
    && str_eq a.title b.title
    && str_eq a.url b.url
    && str_eq a.description b.description

abbrev pub same_links : List Link → List Link → Bool
same_links [] [] = true
same_links [] (b ∷ bs) = false
same_links (a ∷ as') [] = false
same_links (a ∷ as') (b ∷ bs) = same_link a b && same_links as' bs

unfoldable pub snapshot_changed : HubState → HubState → Bool
snapshot_changed before after =
    not (same before.accounts_enabled after.accounts_enabled)
    || not (same before.ads_enabled after.ads_enabled)
    || not (same before.promotion_live after.promotion_live)
    || not (same before.donor after.donor)
    || not (before.donor_until == after.donor_until)
    || not (same_links before.links after.links)

unfoldable pub commit : HubState → Hub → Hub
unfolding snapshot_changed emit
commit next h =
    let committed = record h { state = next } in
    if snapshot_changed h.state next then emit committed else committed

-- `time.Duration` ends at 2^63 - 1, where `Time.Sub` stops.
abbrev pub max_duration : ℕ
max_duration = 2 ^ 63 - 1

-- `donorDelay` at the time `now`.
unfoldable pub donor_delay : Time → Hub → Option ℕ
donor_delay now h =
    if not h.state.donor || h.state.donor_until == 0
    then none
    else if leb h.state.donor_until now
    then none
    else some (min (h.state.donor_until - now) max_duration)

abbrev pub without_donor : HubState → HubState
without_donor s = record s { donor = false; donor_until = 0 }

unfoldable pub expire_donor : Time → Hub → Hub
unfolding emit
expire_donor now h =
    if h.state.donor && not (h.state.donor_until == 0) && not (ltb now h.state.donor_until)
    then emit (record h { state = without_donor h.state })
    else h

abbrev pub is_credentials : Error → Bool
is_credentials credentials = true
is_credentials _ = false

abbrev pub is_unavailable : Error → Bool
is_unavailable unavailable = true
is_unavailable _ = false

pub account_gate_open : Hub → Bool
account_gate_open h = h.state.accounts_enabled

pub promotions_live : Hub → Bool
promotions_live h = h.state.ads_enabled && h.state.promotion_live

-- `observeAccountOutcome`; `none` is the nil error.
unfoldable pub observe_account_outcome : Option Error → Hub → Hub
unfolding emit
observe_account_outcome none h = h
observe_account_outcome (some e) h =
    if is_credentials e || not (is_unavailable e)
    then h
    else (let closed = record h {
      state = record (without_donor h.state) { accounts_enabled = false };
    } in
        if h.state.accounts_enabled || h.state.donor then emit closed else closed)

abbrev pub error_of {ℓ} : {A : Type ℓ} → Reply A → Option Error
error_of (ok a) = none
error_of (fail e) = some e

-- What a gated operation does: `answer` is the client's, if the client is called at all.
-- `AccountStatus`, `Login`, `Register` and `Me` differ only in the call that they make.
pub data Asked {ℓ} (A : Type ℓ) : Type ℓ where
  refused : Error → Asked A
  called : Reply A → Asked A

unfoldable pub account_call {ℓ} : {A : Type ℓ} → Reply A → Hub → Hub × Asked A
unfolding account_gate_open observe_account_outcome
account_call answer h =
    if account_gate_open h
    then (observe_account_outcome (error_of answer) h, called answer)
    else (h, refused accounts_unavailable)

pub click : Reply String → Hub → Asked String
unfolding promotions_live
click answer h = if promotions_live h then called answer else refused promotions_unavailable
