-- ===== src/Flights.antt =====
-- internal/application/singleflight.go: fetches of the same key share one call. Any number of callers
-- is running, and each constructor of `Step` is what one of them, or the goroutine of a call, does in
-- one critical section.
pub mod Single
mod Tests
use torrent_tv.Prelude.{ℕ, ◌+◌, ◌≡◌, Bool, true, false, Option, none, some, [], ◌==◌, if◌then◌else◌}
use torrent_tv.Prelude.Bytes.{Bytes, eqb}

-- How far a call has come: its fetch runs; its result is stored; it is out of the table; its channel
-- is closed.
pub data Stage (T : Type 0) : Type 0 where
  unused fetching : Stage T
  fetched removed closed : T → Stage T

-- `flightGroup`, with all its calls, numbered as they are made.
pub record Group (T : Type 0) : Type 0 where
  pub calls : Bytes → Option ℕ
  pub stages : ℕ → Stage T
  pub key_of : ℕ → Bytes
  pub made : ℕ

abbrev pub set_key : {A : Type 0} → Bytes → A → (Bytes → A) → Bytes → A
set_key key a f k = if eqb k key then a else f k

abbrev pub set_at : {A : Type 0} → ℕ → A → (ℕ → A) → ℕ → A
set_at n a f m = if m == n then a else f m

module _ {T : Type 0} where
  abbrev pub zero_group : Group T
  zero_group = record { calls = λ key. none; stages = λ id. unused; key_of = λ id. []; made = 0 }

  -- A call that is not in the table is made, and its goroutine started.
  unfoldable pub start_call : Bytes → Group T → Group T
  unfolding eqb
  start_call key g = record {
    calls = set_key key (some g.made) g.calls;
    stages = set_at g.made fetching g.stages;
    key_of = set_at g.made key g.key_of;
    made = g.made + 1;
  }

  abbrev pub move_to : ℕ → Stage T → Group T → Group T
  move_to id stage g = record g { stages = set_at id stage g.stages }

  -- `delete(g.calls, key)` behind the fetch.
  unfoldable pub delete_call : ℕ → T → Group T → Group T
  unfolding eqb
  delete_call id v g = record (move_to id (removed v) g) {
    calls = set_key (g.key_of id) none g.calls;
  }

  -- A caller that finds a call in the table, one that returns, and one whose context ends change
  -- nothing here.
  pub data Step (g : Group T) : Group T → Type 0 where
    starts : (key : Bytes) → g.calls key ≡ none → Step g (start_call key g)
    answers : (id : ℕ) (v : T) → g.stages id ≡ fetching → Step g (move_to id (fetched v) g)
    deletes : (id : ℕ) (v : T) → g.stages id ≡ fetched v → Step g (delete_call id v g)
    closes : (id : ℕ) (v : T) → g.stages id ≡ removed v → Step g (move_to id (closed v) g)

  pub data Reach (start : Group T) : Group T → Type 0 where
    here : Reach start start
    next : {g h : Group T} → Reach start g → Step g h → Reach start h
