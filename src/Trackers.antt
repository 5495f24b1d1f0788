-- ===== src/Trackers.antt =====
-- internal/application/trackers.go: the registry of trackers. The callbacks of a registration read the
-- live settings, of a type `S`; a nil pointer or callback is `none`.
pub mod Registry
mod Tests
use torrent_tv.Prelude.{
  ◌≡◌, Bool, true, false, ◌&&◌, Option, none, some, is_some, List, [], ◌∷◌, ◌++◌, keep, null,
  if◌then◌else◌,
}
use torrent_tv.Prelude.Bytes.{Bytes, eqb, trim_space}

pub record TrackerCapabilities : Type 0 where
  pub imdb_search : Bool
  pub season_filter : Bool
  pub episode_filter : Bool
  pub categories : Bool

-- What the registry asks of a `Tracker`.
pub record Adapter : Type 0 where
  pub id : Bytes
  pub name : Bytes
  pub capabilities : TrackerCapabilities

pub record TrackerRegistration (S : Type 0) : Type 0 where
  pub adapter : Option Adapter
  pub enabled : Option (S → Bool)
  pub configured : Option (S → Bool)

-- A registration that has everything.
pub record Entry (S : Type 0) : Type 0 where
  pub adapter : Adapter
  pub enabled : S → Bool
  pub configured : S → Bool

pub record TrackerRegistry (S : Type 0) : Type 0 where
  pub order : List Bytes
  pub registrations : Bytes → Option (Entry S)

pub record TrackerStatus : Type 0 where
  pub id : Bytes
  pub name : Bytes
  pub enabled : Bool
  pub configured : Bool
  pub capabilities : TrackerCapabilities

pub data Error : Type 0 where
  nil_adapter empty_id : Error
  duplicate nil_enabled nil_configured : Bytes → Error
  registry_disabled : Error
  unknown disabled unconfigured : Bytes → Error

pub data Result {ℓ} (A : Type ℓ) : Type ℓ where
  ok : A → Result A
  fail : Error → Result A

module _ {S : Type 0} where
  abbrev pub blank : TrackerRegistry S
  blank = record { order = []; registrations = λ id. none }

  abbrev pub register : Bytes → Entry S → TrackerRegistry S → TrackerRegistry S
  register id e reg = record {
    order = reg.order ++ id ∷ [];
    registrations = λ x. if eqb id x then some e else reg.registrations x;
  }

  -- The callbacks of a registration whose id is new.
  abbrev pub entry_of : Bytes → Adapter → Option (S → Bool) → Option (S → Bool) → Result (Entry S)
  entry_of id a none configured = fail (nil_enabled id)
  entry_of id a (some enabled) none = fail (nil_configured id)
  entry_of id a (some enabled) (some configured) =
      ok (record { adapter = a; enabled = enabled; configured = configured })

  abbrev pub with_id : Bytes → Result (Entry S) → Result (Bytes × Entry S)
  with_id id (ok e) = ok (id, e)
  with_id id (fail x) = fail x

  abbrev pub checked_adapter :
      TrackerRegistry S → TrackerRegistration S → Option Adapter → Result (Bytes × Entry S)
  checked_adapter reg r none = fail nil_adapter
  checked_adapter reg r (some a) =
      let id = trim_space a.id in
      if null id
      then fail empty_id
      else if is_some (reg.registrations id)
      then fail (duplicate id)
      else with_id id (entry_of id a r.enabled r.configured)

  -- One round of the loop of `NewTrackerRegistry`, up to the entry and its id.
  unfoldable pub checked : TrackerRegistry S → TrackerRegistration S → Result (Bytes × Entry S)
  unfolding trim_space
  checked reg r = checked_adapter reg r r.adapter

  abbrev pub then_register :
      (TrackerRegistry S → Result (TrackerRegistry S))
      → TrackerRegistry S
      → Result (Bytes × Entry S)
      → Result (TrackerRegistry S)
  then_register rest reg (fail x) = fail x
  then_register rest reg (ok (id, e)) = rest (register id e reg)

  unfoldable pub add_all :
      List (TrackerRegistration S) → TrackerRegistry S → Result (TrackerRegistry S)
  unfolding checked
  add_all [] reg = ok reg
  add_all (r ∷ rs) reg = then_register (λ g. add_all rs g) reg (checked reg r)

  unfoldable pub new_tracker_registry : List (TrackerRegistration S) → Result (TrackerRegistry S)
  unfolding add_all
  new_tracker_registry rs = add_all rs blank

  abbrev pub entry : Option (TrackerRegistry S) → Bytes → Option (Entry S)
  entry none id = none
  entry (some reg) id = reg.registrations id

  abbrev pub adapter_of : Option (Entry S) → Option Adapter
  adapter_of none = none
  adapter_of (some e) = some e.adapter

  unfoldable pub lookup : Option (TrackerRegistry S) → Bytes → Option Adapter
  lookup reg id = adapter_of (entry reg id)

  abbrev pub is_eligible : S → Option (Entry S) → Bool
  is_eligible s none = false
  is_eligible s (some e) = e.enabled s && e.configured s

  unfoldable pub eligible : S → Option (TrackerRegistry S) → Bytes → Bool
  eligible s reg id = is_eligible s (entry reg id)

  abbrev pub is_configured : S → Option (Entry S) → Bool
  is_configured s none = false
  is_configured s (some e) = e.configured s

  unfoldable pub configured : S → Option (TrackerRegistry S) → Bytes → Bool
  configured s reg id = is_configured s (entry reg id)

  unfoldable pub eligible_ids : S → Option (TrackerRegistry S) → List Bytes
  eligible_ids s none = []
  eligible_ids s (some reg) = keep (λ id. is_eligible s (reg.registrations id)) reg.order

  abbrev pub require_entry : S → Bytes → Option (Entry S) → Result Adapter
  require_entry s id none = fail (unknown id)
  require_entry s id (some e) =
      if e.enabled s
      then (if e.configured s then ok e.adapter else fail (unconfigured e.adapter.name))
      else fail (disabled e.adapter.name)

  unfoldable pub require_eligible : S → Option (TrackerRegistry S) → Bytes → Result Adapter
  require_eligible s none id = fail registry_disabled
  require_eligible s (some reg) id = require_entry s id (reg.registrations id)

  -- The ids of `order` all have entries; a missing one would be a nil adapter.
  abbrev pub statuses : S → TrackerRegistry S → List Bytes → List TrackerStatus
  statuses s reg [] = []
  statuses s reg (id ∷ ids) = elim (reg.registrations id) [
    | none ↦ statuses s reg ids
    | some e ↦
        record {
          id = id;
          name = e.adapter.name;
          enabled = e.enabled s;
          configured = e.configured s;
          capabilities = e.adapter.capabilities;
        }
        ∷ statuses s reg ids
  ]

  unfoldable pub status : S → Option (TrackerRegistry S) → List TrackerStatus
  status s none = []
  status s (some reg) = statuses s reg reg.order
