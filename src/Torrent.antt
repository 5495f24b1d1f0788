-- ===== src/Torrent.antt =====
-- internal/application/torrentmeta.go: the bencoded metadata of a torrent and the manifest that is
-- read off it. A position in the data is the rest of the data from there. `strconv.Atoi` (and
-- `ParseInt` to base 10, which answers the same here) and `filepath.Ext` are parameters.
pub mod Reader
pub mod Format
pub mod Numerals
pub mod RoundTrip
pub mod Files
pub mod Paths
pub mod Manifest
pub mod Overflow
mod Tests
use torrent_tv.Prelude.{
  ℕ, zero, suc, ◌+◌, ◌-◌, Bool, true, false, not, ◌&&◌, ◌||◌, Option, none, some, List, [], ◌∷◌,
  ◌++◌, map, any, null, length, take, ltb, ◌==◌, if◌then◌else◌,
}
use torrent_tv.Prelude.Int.{ℤ, pos, negsuc, add64, ltb_ℤ}
use torrent_tv.Prelude.Bytes.{Bytes, codes, eqb, cut, lower, contains}
use torrent_tv.Prelude.Texts.{drop_left, drop_right, split}

-- `bnode`: a node has one of its three fields. The last entry of a key counts.
mutual
  pub data Node : Type 0 where
    value : Bytes → Node
    list : Nodes → Node
    dict : Entries → Node

  pub data Nodes : Type 0 where
    nil : Nodes
    cons : Node → Nodes → Nodes

  pub data Entries : Type 0 where
    end : Entries
    entry : Bytes → Node → Entries → Entries

-- What a reader returns: a result and the rest, an error, a panic, or that its fuel ran out.
pub data Read (A : Type 0) : Type 0 where
  done : A → Bytes → Read A
  bad panicked : Read A
  exhausted : Read A

abbrev pub value_of : Node → Bytes
value_of (value v) = v
value_of (list xs) = []
value_of (dict es) = []

pub data Kind : Type 0 where
  integer items entries text : Kind

abbrev pub kind_of : ℕ → Kind
kind_of c =
    if c == b'i' then integer else if c == b'l' then items else if c == b'd' then entries else text

abbrev pub drop : ℕ → Bytes → Bytes
drop zero s = s
drop (suc n) [] = []
drop (suc n) (c ∷ s) = drop n s

abbrev pub with_value : Option (Bytes × Bytes) → Read Node
with_value none = bad
with_value (some (v, rest)) = done (value v) rest

-- Behind the colon, where the whole data has `whole` bytes. The end of the string is a sum of `int`.
unfoldable pub sized : ℕ → Option ℤ → Bytes → Read Node
unfolding add64
sized whole none s = bad
sized whole (some (negsuc n)) s = bad
sized whole (some (pos n)) s =
    let start = pos (whole - length s) in
    let stop = add64 start (pos n) in
    if ltb_ℤ (pos whole) stop
    then bad
    else if ltb_ℤ stop start
    then panicked
    else done (value (take n s)) (drop n s)

abbrev pub as_list : Read Nodes → Read Node
as_list (done xs rest) = done (list xs) rest
as_list bad = bad
as_list panicked = panicked
as_list exhausted = exhausted

abbrev pub as_dict : Read Entries → Read Node
as_dict (done es rest) = done (dict es) rest
as_dict bad = bad
as_dict panicked = panicked
as_dict exhausted = exhausted

abbrev pub then_read : {A B : Type 0} → (A → Bytes → Read B) → Read A → Read B
then_read f (done a rest) = f a rest
then_read f bad = bad
then_read f panicked = panicked
then_read f exhausted = exhausted

abbrev pub also : Node → Read Nodes → Read Nodes
also x (done xs rest) = done (cons x xs) rest
also x bad = bad
also x panicked = panicked
also x exhausted = exhausted

abbrev pub also_entry : Bytes → Node → Read Entries → Read Entries
also_entry k x (done es rest) = done (entry k x es) rest
also_entry k x bad = bad
also_entry k x panicked = panicked
also_entry k x exhausted = exhausted

module _ (atoi : Bytes → Option ℤ) (whole : ℕ) where
  unfoldable pub read_text : Option (Bytes × Bytes) → Read Node
  unfolding sized
  read_text none = bad
  read_text (some (digits, rest)) = sized whole (atoi digits) rest

  -- `readBNode`, and its two loops.
  unfoldable mutual
    unfolding cut read_text

    pub read_node : ℕ → Bytes → Read Node
    read_node zero s = exhausted
    read_node (suc f) [] = bad
    read_node (suc f) (c ∷ s) = elim (kind_of c) [
      | integer ↦ with_value (cut b'e' s)
      | items ↦ as_list (read_items f s)
      | entries ↦ as_dict (read_entries f s)
      | text ↦ read_text (cut b':' (c ∷ s))
    ]

    pub read_items : ℕ → Bytes → Read Nodes
    read_items zero s = exhausted
    read_items (suc f) [] = bad
    read_items (suc f) (c ∷ s) = elim (c == b'e') [
      | true ↦ done nil s
      | false ↦ then_read (λ x rest. also x (read_items f rest)) (read_node f (c ∷ s))
    ]

    pub read_entries : ℕ → Bytes → Read Entries
    read_entries zero s = exhausted
    read_entries (suc f) [] = bad
    read_entries (suc f) (c ∷ s) = elim (c == b'e') [
      | true ↦ done end s
      | false ↦
          then_read
            (λ k rest.
              then_read (λ x rest. also_entry (value_of k) x (read_entries f rest))
                (read_node f rest))
            (read_node f (c ∷ s))
    ]
