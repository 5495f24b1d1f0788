-- ===== src/Events/Tests.antt =====
-- A client that missed one event and follows the next.
use torrent_tv.Prelude.{
  zero, suc, ◌+◌, ◌++◌, ◌≤◌, ◌<◌, refl, List, All, length, take, ℕ, ◌≡◌, true, some, [], ◌∷◌, arith,
}
use torrent_tv.Prelude.Bytes.{codes}
use torrent_tv.Events.{
  Event, newer, list_events, events, publishes, subscribes, receives, run, new_bus,
}
use torrent_tv.Events.Fanout.{AllFed, run-AllFed}
use torrent_tv.Events.Replay.{Ascends, events-newer, events_gap}

abbrev event : ℕ → Event
event n = record { id = n; kind = codes "k"; payload = codes "p" }

run-AllFed_example :
    AllFed (run (subscribes ∷ publishes (some (event 1)) ∷ receives 0 ∷ []) new_bus)
run-AllFed_example = run-AllFed (subscribes ∷ publishes (some (event 1)) ∷ receives 0 ∷ [])

events-newer_example :
    events true 1 (some (list_events 1 200 (event 1 ∷ event 2 ∷ []))) (event 3 ∷ [])
    ≡ event 2 ∷ event 3 ∷ []
events-newer_example =
    events-newer 1 (event 1 ∷ event 2 ∷ []) [] (event 3 ∷ []) (ground arith) (ground arith)

abbrev count_from : ℕ → ℕ → List Event
count_from k zero = []
count_from k (suc n) = event k ∷ count_from (k + 1) n

abbrev two : ℕ → List Event
two m = event m ∷ event (m + 1) ∷ []

count_from-later :
    (d k n m : ℕ) → d < k → k + n ≤ m → All (λ (f : Event). d < f.id) (count_from k n ++ two m)
count_from-later d k zero m h l = (omega arith, (omega arith, tt))
count_from-later d k (suc n) m h l = (h, count_from-later d (k + 1) n m (omega arith) (omega arith))

count_from-Ascends : (k n m : ℕ) → k + n ≤ m → Ascends (count_from k n ++ two m)
count_from-Ascends k zero m l = ((omega arith, tt), (tt, tt))
count_from-Ascends k (suc n) m l = (
  count_from-later k (k + 1) n m (omega arith) (omega arith),
  count_from-Ascends (k + 1) n m (omega arith),
)

count_from-length : length (newer 1 (count_from 2 203)) ≡ 203
count_from-length = refl

-- 203 events are missed, one is published before the replay and one behind it.
events_gap_example :
    events true 1
      (some (list_events 1 200 (count_from 2 203 ++ (event 300 ∷ []))))
      (event 300 ∷ event 301 ∷ [])
    ≡ take 200 (newer 1 (count_from 2 203)) ++ (event 300 ∷ event 301 ∷ [])
events_gap_example =
    events_gap 1 (count_from 2 203) (event 300 ∷ []) (event 301 ∷ [])
      (count_from-Ascends 2 203 300 (omega arith)) (omega arith, (omega arith, tt))
      (omega (arith, count_from-length))
