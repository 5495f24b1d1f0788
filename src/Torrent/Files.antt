-- ===== src/Torrent/Files.antt =====
-- internal/application/torrentmeta.go: `parseTorrentManifest` and the files that it lists.
use torrent_tv.Prelude.{
  ℕ, suc, ◌+◌, ◌*◌, ◌^◌, Time, Bool, not, ◌||◌, Option, none, some, List, [], ◌∷◌, ◌++◌, map, any,
  null, length, ltb, ◌==◌, if◌then◌else◌,
}
use torrent_tv.Prelude.Int.{ℤ, pos, negsuc, add64}
use torrent_tv.Prelude.Bytes.{Bytes, codes, eqb, lower, contains}
use torrent_tv.Prelude.Texts.{drop_left, drop_right, split}
use torrent_tv.Torrent.{
  Node, value, list, dict, Nodes, nil, cons, Entries, end, entry, Read, done, bad, panicked,
  exhausted, value_of, read_node,
}

-- `domain.TorrentFile` and `domain.TorrentManifest` with what is filled in here.
pub record TorrentFile : Type 0 where
  pub index : ℕ
  pub path : Bytes
  pub size_bytes : ℤ
  pub offset : ℤ
  pub playable : Bool

pub record TorrentManifest : Type 0 where
  pub release_id : Bytes
  pub files : List TorrentFile
  pub metainfo : Bytes
  pub fetched_at : Time

pub data Fault : Type 0 where
  empty_or_large malformed no_info bad_length unsafe_path : Fault

-- What the parser comes to; `unread` is a reader without fuel.
pub data Parsed (A : Type 0) : Type 0 where
  parsed : A → Parsed A
  fails : Fault → Parsed A
  panics unread : Parsed A

-- The value of a key; the last entry of a key counts.
unfoldable pub entry_at : Bytes → Entries → Option Node
unfolding eqb
entry_at k end = none
entry_at k (entry key x es) = elim (entry_at k es) [
  | none ↦ if eqb key k then some x else none
  | some y ↦ some y
]

abbrev pub entries_of_node : Node → Entries
entries_of_node (value v) = end
entries_of_node (list xs) = end
entries_of_node (dict es) = es

abbrev pub items_of_node : Node → Nodes
items_of_node (value v) = nil
items_of_node (list xs) = xs
items_of_node (dict es) = nil

abbrev pub or_zero : Option Node → Node
or_zero none = value []
or_zero (some x) = x

-- `node.dict[key]`, with the zero `bnode` for a missing key.
unfoldable pub field : Bytes → Node → Node
unfolding entry_at
field k x = or_zero (entry_at k (entries_of_node x))

unfoldable pub texts_of : Nodes → List Bytes
texts_of nil = []
texts_of (cons x xs) = value_of x ∷ texts_of xs

-- `strings.Join` with a slash.
unfoldable pub join : List Bytes → Bytes
join [] = []
join (s ∷ []) = s
join (s ∷ t ∷ rest) = s ++ b'/' ∷ join (t ∷ rest)

abbrev pub forward : ℕ → ℕ
forward c = if c == b'\\' then b'/' else c

abbrev pub is_slash : ℕ → Bool
is_slash c = c == b'/'

-- The path of `safeTorrentPath` before its tests.
unfoldable pub trimmed : Bytes → Bytes
unfolding drop_left drop_right
trimmed path = drop_right is_slash (drop_left is_slash (map forward path))

abbrev pub is_unsafe : Bytes → Bool
is_unsafe part = null part || eqb part (codes ".") || eqb part (codes "..")

unfoldable pub safe_torrent_path : Bytes → Option Bytes
unfolding trimmed split eqb
safe_torrent_path path =
    let clean = trimmed path in
    if null clean || any is_unsafe (split b'/' clean) then none else some clean

abbrev pub playable_extensions : List Bytes
playable_extensions =
    codes ".mkv"
    ∷ codes ".mp4"
    ∷ codes ".avi"
    ∷ codes ".mov"
    ∷ codes ".m4v"
    ∷ codes ".webm"
    ∷ codes ".ts"
    ∷ codes ".mp3"
    ∷ codes ".m4a"
    ∷ codes ".flac"
    ∷ codes ".ogg"
    ∷ codes ".opus"
    ∷ []

abbrev pub name_or_content : Bytes → Bytes
name_or_content [] = codes "content"
name_or_content (c ∷ s) = c ∷ s

abbrev pub not_negative : Option ℤ → Option ℤ
not_negative none = none
not_negative (some (negsuc n)) = none
not_negative (some (pos n)) = some (pos n)

abbrev pub add_file : TorrentFile → Parsed (List TorrentFile) → Parsed (List TorrentFile)
add_file file (parsed files) = parsed (file ∷ files)
add_file file (fails e) = fails e
add_file file panics = panics
add_file file unread = unread

module _ (atoi : Bytes → Option ℤ) (ext : Bytes → Bytes) where
  unfoldable pub bint : Node → Option ℤ
  bint x = not_negative (atoi (value_of x))

  unfoldable pub is_playable : Bytes → Bool
  unfolding lower eqb
  is_playable path = contains playable_extensions (lower (ext path))

  abbrev pub file_at : ℕ → ℤ → Bytes → ℤ → TorrentFile
  file_at index offset path size = record {
    index = index;
    path = path;
    size_bytes = size;
    offset = offset;
    playable = is_playable path;
  }

  abbrev pub path_of : Node → Option Bytes
  path_of row = safe_torrent_path (join (texts_of (items_of_node (field (codes "path") row))))

  -- One row of the file list, with what the other rows come to.
  abbrev pub file_from :
      ℕ → ℤ → Option ℤ → Option Bytes → (ℤ → Parsed (List TorrentFile)) → Parsed (List TorrentFile)
  file_from index offset none path more = fails bad_length
  file_from index offset (some size) none more = fails unsafe_path
  file_from index offset (some size) (some path) more =
      add_file (file_at index offset path size) (more (add64 offset size))

  -- The loop over the file list.
  unfoldable pub files_from : ℕ → ℤ → Nodes → Parsed (List TorrentFile)
  unfolding bint is_playable field texts_of join safe_torrent_path add64
  files_from index offset nil = parsed []
  files_from index offset (cons row rows) =
      file_from index offset (bint (field (codes "length") row)) (path_of row)
        (λ next. files_from (index + 1) next rows)

  abbrev pub only_file : Node → Parsed (List TorrentFile)
  only_file info =
      file_from 0 (pos 0) (bint (field (codes "length") info))
        (safe_torrent_path (name_or_content (value_of (field (codes "name") info))))
        (λ next. parsed [])

  abbrev pub files_of_info : Node → Option Node → Parsed (List TorrentFile)
  files_of_info info none = only_file info
  files_of_info info (some files) = files_from 0 (pos 0) (items_of_node files)

  abbrev pub files_of : Option Node → Parsed (List TorrentFile)
  files_of none = fails no_info
  files_of (some info) = files_of_info info (entry_at (codes "files") (entries_of_node info))

  abbrev pub files_of_root : Read Node → Parsed (List TorrentFile)
  files_of_root (done root rest) = files_of (entry_at (codes "info") (entries_of_node root))
  files_of_root bad = fails malformed
  files_of_root panicked = panics
  files_of_root exhausted = unread

  abbrev pub manifest_of : Bytes → Bytes → Time → Parsed (List TorrentFile) → Parsed TorrentManifest
  manifest_of release_id metainfo now (parsed files) =
      parsed
        (record { release_id = release_id; files = files; metainfo = metainfo; fetched_at = now })
  manifest_of release_id metainfo now (fails e) = fails e
  manifest_of release_id metainfo now panics = panics
  manifest_of release_id metainfo now unread = unread

  -- `parseTorrentManifest`; the reader has one unit of fuel more than twice the bytes.
  unfoldable pub parse_torrent_manifest : Bytes → Bytes → Time → Parsed TorrentManifest
  unfolding read_node entry_at files_from
  parse_torrent_manifest release_id metainfo now =
      if null metainfo || not (ltb (length metainfo) (2 ^ 24))
      then fails empty_or_large
      else manifest_of release_id metainfo now
          (files_of_root (read_node atoi (length metainfo) (suc (2 * length metainfo)) metainfo))
