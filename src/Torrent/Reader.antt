-- ===== src/Torrent/Reader.antt =====
-- The reader ends on all data, and what it reads has at least one byte.
use torrent_tv.Prelude.{
  ℕ, zero, suc, ◌+◌, ◌*◌, ◌-◌, ◌≤◌, ◌<◌, Bool, true, false, Option, none, some, [], ◌∷◌, length,
  take, ◌==◌, if◌then◌else◌, arith,
}
use torrent_tv.Prelude.Int.{ℤ, pos, negsuc, add64, ltb_ℤ}
use torrent_tv.Prelude.Bytes.{Bytes, cut}
use torrent_tv.Torrent.{
  Node, Nodes, nil, Entries, end, Read, done, bad, panicked, exhausted, value_of, Kind, integer,
  items, entries, text, kind_of, drop, with_value, sized, as_list, as_dict, then_read, also,
  also_entry, read_text, read_node, read_items, read_entries,
}

-- An error, a panic, or a rest of fewer bytes than the bound.
abbrev pub Ends : {A : Type 0} → ℕ → Read A → Type 0
Ends n (done a rest) = length rest < n
Ends n bad = Unit
Ends n panicked = Unit
Ends n exhausted = ⊥

Ends-le : {A : Type 0} (m n : ℕ) (r : Read A) → m ≤ n → Ends m r → Ends n r
Ends-le m n (done a rest) le h = omega arith
Ends-le m n bad le h = tt
Ends-le m n panicked le h = tt
Ends-le m n exhausted le h = h

Ends-suc : {A : Type 0} (n : ℕ) (r : Read A) → Ends n r → Ends (suc n) r
Ends-suc n r h = Ends-le n (suc n) r (omega arith) h

then_read-Ends :
    {A B : Type 0} (n : ℕ) (f : A → Bytes → Read B) (r : Read A)
    → Ends n r
    → ((a : A) (rest : Bytes) → length rest < n → Ends n (f a rest))
    → Ends n (then_read f r)
then_read-Ends n f (done a rest) h k = k a rest h
then_read-Ends n f bad h k = tt
then_read-Ends n f panicked h k = tt
then_read-Ends n f exhausted h k = h

also-Ends : (n : ℕ) (x : Node) (r : Read Nodes) → Ends n r → Ends n (also x r)
also-Ends n x (done xs rest) h = h
also-Ends n x bad h = tt
also-Ends n x panicked h = tt
also-Ends n x exhausted h = h

also_entry-Ends :
    (n : ℕ) (k : Bytes) (x : Node) (r : Read Entries) → Ends n r → Ends n (also_entry k x r)
also_entry-Ends n k x (done xs rest) h = h
also_entry-Ends n k x bad h = tt
also_entry-Ends n k x panicked h = tt
also_entry-Ends n k x exhausted h = h

as_list-Ends : (n : ℕ) (r : Read Nodes) → Ends n r → Ends n (as_list r)
as_list-Ends n (done xs rest) h = h
as_list-Ends n bad h = tt
as_list-Ends n panicked h = tt
as_list-Ends n exhausted h = h

as_dict-Ends : (n : ℕ) (r : Read Entries) → Ends n r → Ends n (as_dict r)
as_dict-Ends n (done xs rest) h = h
as_dict-Ends n bad h = tt
as_dict-Ends n panicked h = tt
as_dict-Ends n exhausted h = h

abbrev Shorter : ℕ → Option (Bytes × Bytes) → Type 0
Shorter n none = Unit
Shorter n (some (v, rest)) = length rest < n

Shorter-suc :
    (n : ℕ) (o : Option (Bytes × Bytes)) (c : ℕ)
    → Shorter n o
    → Shorter (suc n) (elim o [ none ↦ none | some (before, after) ↦ some (c ∷ before, after) ])
Shorter-suc n none c h = tt
Shorter-suc n (some (v, rest)) c h = omega arith

cut-Shorter : (sep : ℕ) (s : Bytes) → Shorter (length s) (cut sep s)
unfolding cut
cut-Shorter sep [] = tt
cut-Shorter sep (c ∷ s) = by_test (c == sep) (cut-Shorter sep s)
  where
    by_test :
        (b : Bool)
        → Shorter (length s) (cut sep s)
        → Shorter (suc (length s)) (
            if b
            then some ([], s)
            else elim (cut sep s) [ none ↦ none | some (before, after) ↦ some (c ∷ before, after) ])
    by_test true h = omega arith
    by_test false h = Shorter-suc (length s) (cut sep s) c h

with_value-Ends : (n : ℕ) (o : Option (Bytes × Bytes)) → Shorter n o → Ends n (with_value o)
with_value-Ends n none h = tt
with_value-Ends n (some (v, rest)) h = h

length-drop-le : (n : ℕ) (s : Bytes) → length (drop n s) ≤ length s
length-drop-le zero s = omega arith
length-drop-le (suc n) [] = omega arith
length-drop-le (suc n) (c ∷ s) = omega (arith, length-drop-le n s)

sized-Ends : (whole n : ℕ) (o : Option ℤ) (s : Bytes) → length s < n → Ends n (sized whole o s)
unfolding sized
sized-Ends whole n none s h = tt
sized-Ends whole n (some (negsuc k)) s h = tt
sized-Ends whole n (some (pos k)) s h =
    by_tests (ltb_ℤ (pos whole) (add64 (pos (whole - length s)) (pos k)))
      (ltb_ℤ (add64 (pos (whole - length s)) (pos k)) (pos (whole - length s)))
  where
    by_tests :
        (b c : Bool)
        → Ends n
            (if b then bad else if c then panicked else done (Node.value (take k s)) (drop k s))
    by_tests true c = tt
    by_tests false true = tt
    by_tests false false = omega (arith, length-drop-le k s)

module _ (atoi : Bytes → Option ℤ) (whole : ℕ) where
  read_text-Ends :
      (n : ℕ) (o : Option (Bytes × Bytes)) → Shorter n o → Ends n (read_text atoi whole o)
  unfolding read_text
  read_text-Ends n none h = tt
  read_text-Ends n (some (digits, rest)) h = sized-Ends whole n (atoi digits) rest h

  node_by_kind :
      (f c : ℕ) (s : Bytes) (k : Kind)
      → Ends (length s) (read_items atoi whole f s)
      → Ends (length s) (read_entries atoi whole f s)
      → Ends (suc (length s)) (elim k [
        | integer ↦ with_value (cut b'e' s)
        | items ↦ as_list (read_items atoi whole f s)
        | entries ↦ as_dict (read_entries atoi whole f s)
        | text ↦ read_text atoi whole (cut b':' (c ∷ s))
      ])
  node_by_kind f c s integer hi he =
      Ends-suc (length s) (with_value (cut b'e' s))
        (with_value-Ends (length s) (cut b'e' s) (cut-Shorter b'e' s))
  node_by_kind f c s items hi he =
      Ends-suc (length s) (as_list (read_items atoi whole f s))
        (as_list-Ends (length s) (read_items atoi whole f s) hi)
  node_by_kind f c s entries hi he =
      Ends-suc (length s) (as_dict (read_entries atoi whole f s))
        (as_dict-Ends (length s) (read_entries atoi whole f s) he)
  node_by_kind f c s text hi he =
      read_text-Ends (suc (length s)) (cut b':' (c ∷ s)) (cut-Shorter b':' (c ∷ s))

  items_by_test :
      (f c : ℕ) (s : Bytes) (b : Bool)
      → Ends (suc (length s)) (read_node atoi whole f (c ∷ s))
      → ((rest : Bytes)
          → length rest < suc (length s)
          → Ends (length rest) (read_items atoi whole f rest))
      → Ends (suc (length s)) (elim b [
        | true ↦ done nil s
        | false ↦
            then_read
              (λ x rest. also x (read_items atoi whole f rest))
              (read_node atoi whole f (c ∷ s))
      ])
  items_by_test f c s true h k = omega arith
  items_by_test f c s false h k =
      then_read-Ends (suc (length s)) (λ x rest. also x (read_items atoi whole f rest))
        (read_node atoi whole f (c ∷ s)) h
        (λ x rest less. also-Ends (suc (length s)) x (read_items atoi whole f rest) (
          Ends-le (length rest) (suc (length s)) (read_items atoi whole f rest) (omega arith)
            (k rest less)))

  pair-Ends :
      (n f : ℕ) (k : Node) (rest : Bytes)
      → length rest < n
      → Ends (length rest) (read_node atoi whole f rest)
      → ((rest : Bytes) → length rest < n → Ends (length rest) (read_entries atoi whole f rest))
      → Ends n (
          then_read
            (λ x rest. also_entry (value_of k) x (read_entries atoi whole f rest))
            (read_node atoi whole f rest))
  pair-Ends n f k rest less h m =
      then_read-Ends n (λ x rest. also_entry (value_of k) x (read_entries atoi whole f rest))
        (read_node atoi whole f rest)
        (Ends-le (length rest) n (read_node atoi whole f rest) (omega arith) h)
        (λ x last l.
          also_entry-Ends n (value_of k) x (read_entries atoi whole f last)
            (Ends-le (length last) n (read_entries atoi whole f last) (omega arith) (m last l)))

  entries_by_test :
      (f c : ℕ) (s : Bytes) (b : Bool)
      → Ends (suc (length s)) (read_node atoi whole f (c ∷ s))
      → ((rest : Bytes)
          → length rest < suc (length s)
          → Ends (length rest) (read_node atoi whole f rest))
      → ((rest : Bytes)
          → length rest < suc (length s)
          → Ends (length rest) (read_entries atoi whole f rest))
      → Ends (suc (length s)) (elim b [
        | true ↦ done end s
        | false ↦
            then_read
              (λ k rest.
                then_read
                  (λ x rest. also_entry (value_of k) x (read_entries atoi whole f rest))
                  (read_node atoi whole f rest))
              (read_node atoi whole f (c ∷ s))
      ])
  entries_by_test f c s true h k m = omega arith
  entries_by_test f c s false h k m =
      then_read-Ends (suc (length s))
        (λ k rest.
          then_read (λ x rest. also_entry (value_of k) x (read_entries atoi whole f rest))
            (read_node atoi whole f rest))
        (read_node atoi whole f (c ∷ s)) h
        (λ x rest less. pair-Ends (suc (length s)) f x rest less (k rest less) m)

  mutual
    unfolding read_node

    node-Ends : (f : ℕ) (s : Bytes) → 2 * length s < f → Ends (length s) (read_node atoi whole f s)
    node-Ends zero s h = absurd (omega arith)
    node-Ends (suc f) [] h = tt
    node-Ends (suc f) (c ∷ s) h =
        node_by_kind f c s (kind_of c) (items-Ends f s (omega arith))
          (entries-Ends f s (omega arith))

    items-Ends :
        (f : ℕ) (s : Bytes) → 2 * length s + 1 < f → Ends (length s) (read_items atoi whole f s)
    items-Ends zero s h = absurd (omega arith)
    items-Ends (suc f) [] h = tt
    items-Ends (suc f) (c ∷ s) h =
        items_by_test f c s (c == b'e') (node-Ends f (c ∷ s) (omega arith))
          (λ rest less. items-Ends f rest (omega arith))

    entries-Ends :
        (f : ℕ) (s : Bytes) → 2 * length s + 1 < f → Ends (length s) (read_entries atoi whole f s)
    entries-Ends zero s h = absurd (omega arith)
    entries-Ends (suc f) [] h = tt
    entries-Ends (suc f) (c ∷ s) h =
        entries_by_test f c s (c == b'e') (node-Ends f (c ∷ s) (omega arith))
          (λ rest less. node-Ends f rest (omega arith))
          (λ rest less. entries-Ends f rest (omega arith))

  -- With more than twice as much fuel as there are bytes, the reader never runs out of it; it returns
  -- an error, panics, or returns a node with a rest that is shorter than the data.
  pub read_node-Ends :
      (f : ℕ) (s : Bytes) → 2 * length s < f → Ends (length s) (read_node atoi whole f s)
  read_node-Ends = node-Ends
