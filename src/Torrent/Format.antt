-- ===== src/Torrent/Format.antt =====
-- The format of the metadata, as its specification has it: values, how they are written, and the
-- nodes that they stand for.
use torrent_tv.Prelude.{
  ℕ, zero, suc, ◌+◌, ◌/◌, ◌%◌, ◌≡◌, false, [], ◌∷◌, ◌++◌, length, ltb, ◌==◌, if◌then◌else◌,
}
use torrent_tv.Prelude.Bytes.{Bytes}
use torrent_tv.Torrent.{Node, value, list, dict, Nodes, nil, cons, Entries, end, entry}

-- The values of the format; an integer is its digits with their sign.
mutual
  pub data Value : Type 0 where
    number : Bytes → Value
    string : Bytes → Value
    array : Values → Value
    table : Pairs → Value

  pub data Values : Type 0 where
    nothing : Values
    first : Value → Values → Values

  pub data Pairs : Type 0 where
    empty : Pairs
    pair : Bytes → Value → Pairs → Pairs

-- A number in decimal, with fuel for its digits.
unfoldable pub digits : ℕ → ℕ → Bytes
digits zero n = []
digits (suc f) n =
    let rest = digits f (n / 10) in
    if ltb n 10 then (b'0' + n) ∷ [] else rest ++ (b'0' + n % 10) ∷ []

unfoldable pub numeral : ℕ → Bytes
unfolding digits
numeral n = digits (suc n) n

unfoldable pub enc_string : Bytes → Bytes → Bytes
unfolding numeral
enc_string v rest = numeral (length v) ++ (b':' ∷ (v ++ rest))

-- A value as the format writes it, before the rest.
unfoldable mutual
  pub enc : Value → Bytes → Bytes
  enc (number d) rest = b'i' ∷ d ++ b'e' ∷ rest
  enc (string v) rest = enc_string v rest
  enc (array xs) rest = b'l' ∷ enc_items xs (b'e' ∷ rest)
  enc (table es) rest = b'd' ∷ enc_pairs es (b'e' ∷ rest)

  pub enc_items : Values → Bytes → Bytes
  enc_items nothing rest = rest
  enc_items (first x xs) rest = enc x (enc_items xs rest)

  pub enc_pairs : Pairs → Bytes → Bytes
  enc_pairs empty rest = rest
  enc_pairs (pair k x es) rest = enc_string k (enc x (enc_pairs es rest))

-- The node that a value stands for.
unfoldable mutual
  pub node_of : Value → Node
  node_of (number d) = value d
  node_of (string v) = value v
  node_of (array xs) = list (nodes_of xs)
  node_of (table es) = dict (entries_of es)

  pub nodes_of : Values → Nodes
  nodes_of nothing = nil
  nodes_of (first x xs) = cons (node_of x) (nodes_of xs)

  pub entries_of : Pairs → Entries
  entries_of empty = end
  entries_of (pair k x es) = entry k (node_of x) (entries_of es)

unfoldable pub NoByte : ℕ → Bytes → Type 0
NoByte c [] = Unit
NoByte c (x ∷ s) = ((x == c) ≡ false) × NoByte c s

-- No integer has an `e`.
unfoldable mutual
  pub Fits : Value → Type 0
  Fits (number d) = NoByte b'e' d
  Fits (string v) = Unit
  Fits (array xs) = FitsAll xs
  Fits (table es) = FitsPairs es

  pub FitsAll : Values → Type 0
  FitsAll nothing = Unit
  FitsAll (first x xs) = Fits x × FitsAll xs

  pub FitsPairs : Pairs → Type 0
  FitsPairs empty = Unit
  FitsPairs (pair k x es) = Fits x × FitsPairs es
