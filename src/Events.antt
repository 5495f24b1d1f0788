-- ===== src/Events.antt =====
-- The event bus: `publish`, `SubscribeEvents` and `CloseEventStreams` of
-- internal/application/service.go, the journal behind them (internal/adapters/sqlite/repository.go),
-- and the stream handler `events` of internal/adapters/httpapi/api.go.
pub mod Fanout
pub mod Replay
mod Tests
use torrent_tv.Prelude.{
  ℕ, zero, suc, ◌≡◌, Bool, true, false, not, ◌&&◌, ◌||◌, Option, none, some, List, [], ◌∷◌, ◌++◌,
  map, max, length, take, keep, ltb, leb, ◌==◌, if◌then◌else◌,
}
use torrent_tv.Prelude.Bytes.{Bytes}

pub record Event : Type 0 where
  pub id : ℕ
  pub kind : Bytes
  pub payload : Bytes

abbrev pub Journal : Type 0
Journal = List Event

-- A subscriber's channel, with what its reader has received. `subscribed` is whether the channel is
-- in `eventSubscribers`; it is closed once it is not. `start` is the journal when it was made.
pub record Channel : Type 0 where
  pub start : Journal
  pub received : List Event
  pub buffer : List Event
  pub subscribed : Bool

pub record Bus : Type 0 where
  pub journal : Journal
  pub channels : List Channel
  pub events_closed : Bool

abbrev pub capacity : ℕ
capacity = 32

-- The `select` of `publish`: what does not fit closes the channel.
abbrev pub offer : Event → Channel → Channel
offer event c =
    if not c.subscribed
    then c
    else if ltb (length c.buffer) capacity
    then record c { buffer = c.buffer ++ event ∷ [] }
    else record c { subscribed = false }

-- `AppendEvent` and the fan-out; the journal answers the event with its new id, or an error.
unfoldable pub publish : Option Event → Bus → Bus
publish none bus = bus
publish (some event) bus = record bus {
  journal = bus.journal ++ event ∷ [];
  channels = map (offer event) bus.channels;
}

unfoldable pub subscribe_events : Bus → Bus
subscribe_events bus = record bus {
  channels =
      record { start = bus.journal; received = []; buffer = []; subscribed = not bus.events_closed }
      ∷ bus.channels;
}

abbrev pub unsubscribed : Channel → Channel
unsubscribed c = record c { subscribed = false }

unfoldable pub close_event_streams : Bus → Bus
close_event_streams bus = record bus {
  events_closed = true;
  channels = map unsubscribed bus.channels;
}

-- One channel, by its place.
abbrev pub change : (Channel → Channel) → ℕ → List Channel → List Channel
change f n [] = []
change f zero (c ∷ cs) = f c ∷ cs
change f (suc n) (c ∷ cs) = c ∷ change f n cs

-- The function that `SubscribeEvents` returns.
unfoldable pub cancel : ℕ → Bus → Bus
cancel n bus = record bus { channels = change unsubscribed n bus.channels }

abbrev pub receive_from : Channel → Channel
receive_from c = elim (c.buffer) [
  | [] ↦ c
  | e ∷ es ↦ record c { received = c.received ++ e ∷ []; buffer = es }
]

-- The reader of a channel takes one event, if there is one.
unfoldable pub receive : ℕ → Bus → Bus
receive n bus = record bus { channels = change receive_from n bus.channels }

pub data Action : Type 0 where
  publishes : Option Event → Action
  subscribes closes : Action
  cancels receives : ℕ → Action

unfoldable pub act : Action → Bus → Bus
unfolding publish subscribe_events close_event_streams cancel receive
act (publishes event) bus = publish event bus
act subscribes bus = subscribe_events bus
act closes bus = close_event_streams bus
act (cancels n) bus = cancel n bus
act (receives n) bus = receive n bus

unfoldable pub run : List Action → Bus → Bus
unfolding act
run [] bus = bus
run (a ∷ later) bus = run later (act a bus)

abbrev pub new_bus : Bus
new_bus = record { journal = []; channels = []; events_closed = false }

-- `SELECT ... WHERE id > ? ORDER BY id LIMIT ?`
abbrev pub newer : ℕ → Journal → List Event
newer after = keep (λ e. ltb after e.id)

unfoldable pub list_events : ℕ → ℕ → Journal → List Event
list_events after limit journal =
    if limit == 0 || ltb 500 limit
    then take 100 (newer after journal)
    else take limit (newer after journal)

abbrev pub last_delivered : ℕ → List Event → ℕ
last_delivered d [] = d
last_delivered d (e ∷ es) = last_delivered (max d e.id) es

-- The loop over the stream: what it sends of the events that it receives.
abbrev pub live : Bool → ℕ → List Event → List Event
live replay d [] = []
live replay d (e ∷ es) =
    let skip = live replay d es in
    let send = e ∷ live replay (max d e.id) es in if replay && leb e.id d then skip else send

-- The handler `events`, with the answer of `Events(after, 200)` and the events that it receives.
unfoldable pub events : Bool → ℕ → Option (List Event) → List Event → List Event
events false after answer received = live false after received
events true after none received = live true after received
events true after (some replayed) received =
    replayed ++ live true (last_delivered after replayed) received
