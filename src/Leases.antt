-- ===== src/Leases.antt =====
-- internal/application/service.go: stream leases, counted in memory and written to the store by
-- `persistLease`. Acquire and Release run in any number of goroutines; each constructor of `Step` is
-- what one of them does in one critical section.
pub mod Flag
mod Tests
use torrent_tv.Prelude.{
  ℕ, ◌+◌, ◌-◌, ◌≤◌, ◌<◌, ◌≡◌, Bool, true, false, Option, none, some, ltb, if◌then◌else◌,
}
use torrent_tv.Prelude.Bytes.{Bytes, eqb}

abbrev pub set {ℓ} : {A : Type ℓ} → Bytes → A → (Bytes → A) → Bytes → A
set id a f x = if eqb id x then a else f x

-- The memory of the leases: `Service.leases`, where a missing key counts nothing.
abbrev pub Counts : Type 0
Counts = Bytes → ℕ

abbrev pub lease_held : Counts → Bytes → Bool
lease_held counts id = ltb 0 (counts id)

-- `dropLease`: the table behind it, and whether the last lease went.
unfoldable pub drop_lease : Bytes → Counts → Counts × Bool
drop_lease id counts =
    if ltb 1 (counts id) then (set id (counts id - 1) counts, false) else (set id 0 counts, true)

-- Which call of `persistLease`: the one of Acquire, the one behind its failure, the one of Release
-- and the retry behind that.
pub data Call : Type 0 where
  acquires reconciles releases retries : Call

-- How many goroutines are about to make each call for one download, and how many Acquires are about
-- to drop the lease that they could not persist.
pub record Waiting : Type 0 where
  pub acquiring : ℕ
  pub reconciling : ℕ
  pub releasing : ℕ
  pub retrying : ℕ
  pub dropping : ℕ

abbrev pub nobody : Waiting
nobody = record { acquiring = 0; reconciling = 0; releasing = 0; retrying = 0; dropping = 0 }

abbrev pub calling : Call → Waiting → ℕ
calling acquires w = w.acquiring
calling reconciles w = w.reconciling
calling releases w = w.releasing
calling retries w = w.retrying

abbrev pub one_more : Call → Waiting → Waiting
one_more acquires w = record w { acquiring = w.acquiring + 1 }
one_more reconciles w = record w { reconciling = w.reconciling + 1 }
one_more releases w = record w { releasing = w.releasing + 1 }
one_more retries w = record w { retrying = w.retrying + 1 }

abbrev pub one_less : Call → Waiting → Waiting
one_less acquires w = record w { acquiring = w.acquiring - 1 }
one_less reconciles w = record w { reconciling = w.reconciling - 1 }
one_less releases w = record w { releasing = w.releasing - 1 }
one_less retries w = record w { retrying = w.retrying - 1 }

-- The holder of `leaseWriteMu`: its call, the download, and what it read of the count.
pub record Write : Type 0 where
  pub call : Call
  pub id : Bytes
  pub held : Bool

-- `flags` is the column of the store. `given_up` marks a download whose last write failed for good.
pub record System : Type 0 where
  pub counts : Counts
  pub flags : Bytes → Bool
  pub waiting : Bytes → Waiting
  pub writer : Option Write
  pub given_up : Bytes → Bool

-- Behind `ResetLeases`.
abbrev pub started : System
started = record {
  counts = λ id. 0;
  flags = λ id. false;
  waiting = λ id. nobody;
  writer = none;
  given_up = λ id. false;
}

-- `s.leases[id]++`, and the write is due.
unfoldable pub count_up : Bytes → System → System
count_up id s = record s {
  counts = set id (s.counts id + 1) s.counts;
  waiting = set id (one_more acquires (s.waiting id)) s.waiting;
}

-- Release up to its first write: nothing is due while other leases remain.
unfoldable pub count_down : Bytes → System → System
unfolding drop_lease
count_down id s =
    let (counts, last) = drop_lease id s.counts in
    if last
    then record s { counts = counts; waiting = set id (one_more releases (s.waiting id)) s.waiting }
    else record s { counts = counts }

-- Acquire behind a failed write: `dropLease`, and the table is written again in any case.
unfoldable pub undo : Bytes → System → System
unfolding drop_lease
undo id s = record s {
  counts = (drop_lease id s.counts).0;
  waiting =
      set id
        (record (one_more reconciles (s.waiting id)) { dropping = (s.waiting id).dropping - 1 })
        s.waiting;
}

-- `persistLease` up to `SetLease`.
unfoldable pub enter : Call → Bytes → System → System
enter call id s = record s {
  waiting = set id (one_less call (s.waiting id)) s.waiting;
  writer = some (record { call = call; id = id; held = lease_held s.counts id });
  given_up = set id false s.given_up;
}

unfoldable pub written : Write → System → System
written w s = record s { flags = set w.id w.held s.flags; writer = none }

-- What a goroutine does behind a failed write.
abbrev pub after_failure : Call → Bytes → System → System
after_failure acquires id s = record s {
  waiting = set id (record (s.waiting id) { dropping = (s.waiting id).dropping + 1 }) s.waiting;
}
after_failure reconciles id s = record s { given_up = set id true s.given_up }
after_failure releases id s = record s {
  waiting = set id (one_more retries (s.waiting id)) s.waiting;
}
after_failure retries id s = record s { given_up = set id true s.given_up }

unfoldable pub refused : Write → System → System
refused w s = after_failure w.call w.id (record s { writer = none })

pub data Step (s : System) : System → Type 0 where
  acquire : (id : Bytes) → Step s (count_up id s)
  release : (id : Bytes) → Step s (count_down id s)
  give_back : (id : Bytes) → 0 < (s.waiting id).dropping → Step s (undo id s)
  lock :
      (call : Call) (id : Bytes)
      → 0 < calling call (s.waiting id)
      → s.writer ≡ none
      → Step s (enter call id s)
  write : (w : Write) → s.writer ≡ some w → Step s (written w s)
  fail : (w : Write) → s.writer ≡ some w → Step s (refused w s)

pub data Reach : System → Type 0 where
  here : Reach started
  next : {s t : System} → Reach s → Step s t → Reach t
