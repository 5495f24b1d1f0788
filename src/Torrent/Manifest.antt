-- ===== src/Torrent/Manifest.antt =====
-- What a manifest lists, whatever the metadata holds.
use torrent_tv.Prelude.{
  ℕ, suc, ◌+◌, ◌*◌, ◌^◌, ◌<◌, ◌≡◌, refl, Time, Bool, true, false, not, ◌||◌, Option, none, some,
  List, [], ◌∷◌, null, length, ltb, if◌then◌else◌, arith,
}
use torrent_tv.Prelude.Int.{ℤ, pos, negsuc, add64}
use torrent_tv.Prelude.Bytes.{Bytes, codes}
use torrent_tv.Torrent.{
  Node, Nodes, nil, cons, Read, done, bad, panicked, exhausted, read_node, value_of,
}
use torrent_tv.Torrent.Reader.{Ends, read_node-Ends}
use torrent_tv.Torrent.Files.{
  TorrentFile, TorrentManifest, empty_or_large, Parsed, parsed, fails, panics, unread, entry_at,
  entries_of_node, items_of_node, field, texts_of, join, safe_torrent_path, name_or_content,
  not_negative, add_file, bint, is_playable, file_at, path_of, file_from, files_from, files_of_info,
  files_of, files_of_root, manifest_of, parse_torrent_manifest,
}
use torrent_tv.Torrent.Paths.{IsBelow, safe_torrent_path-IsBelow}

-- The files of a list that begins at an index and an offset: numbered one by one, with the offset of
-- each the sum, in an int64, of the sizes before it, no size negative, and each path below.
abbrev pub Listed : (Bytes → Bool) → ℕ → ℤ → List TorrentFile → Type 0
Listed playable index offset [] = Unit
Listed playable index offset (file ∷ files) =
    (file.index ≡ index)
    × (file.offset ≡ offset)
    × ((n : ℕ) × (file.size_bytes ≡ pos n))
    × IsBelow file.path
    × (file.playable ≡ playable file.path)
    × Listed playable (index + 1) (add64 offset file.size_bytes) files

-- A result of which a predicate holds, an error or a panic, and not a reader out of fuel.
abbrev pub OnParsed : {A : Type 0} → (A → Type 0) → Parsed A → Type 0
OnParsed P (parsed a) = P a
OnParsed P (fails e) = Unit
OnParsed P panics = Unit
OnParsed P unread = ⊥

module _ (atoi : Bytes → Option ℤ) (ext : Bytes → Bytes) where
  abbrev ListedFrom : ℕ → ℤ → List TorrentFile → Type 0
  ListedFrom = Listed (is_playable atoi ext)

  add_file-ListedFrom :
      (index : ℕ) (offset size : ℤ) (path : Bytes) (more : Parsed (List TorrentFile))
      → ((n : ℕ) × (size ≡ pos n))
      → IsBelow path
      → OnParsed (ListedFrom (index + 1) (add64 offset size)) more
      → OnParsed (ListedFrom index offset) (add_file (file_at atoi ext index offset path size) more)
  add_file-ListedFrom index offset size path (parsed files) n b h = (refl, refl, n, b, refl, h)
  add_file-ListedFrom index offset size path (fails e) n b h = tt
  add_file-ListedFrom index offset size path panics n b h = tt
  add_file-ListedFrom index offset size path unread n b h = h

  file_from-ListedFrom :
      (index : ℕ) (offset : ℤ) (size : Option ℤ) (path : Option Bytes)
      (more : ℤ → Parsed (List TorrentFile))
      → ((z : ℤ) → size ≡ some z → (n : ℕ) × (z ≡ pos n))
      → ((p : Bytes) → path ≡ some p → IsBelow p)
      → ((next : ℤ) → OnParsed (ListedFrom (index + 1) next) (more next))
      → OnParsed (ListedFrom index offset) (file_from atoi ext index offset size path more)
  file_from-ListedFrom index offset none path more z p k = tt
  file_from-ListedFrom index offset (some size) none more z p k = tt
  file_from-ListedFrom index offset (some size) (some path) more z p k =
      add_file-ListedFrom index offset size path (more (add64 offset size)) (z size refl)
        (p path refl) (k (add64 offset size))

  bint_lem : (x : Node) (z : ℤ) → bint atoi ext x ≡ some z → (n : ℕ) × (z ≡ pos n)
  unfolding bint
  bint_lem x z e = by_value (atoi (value_of x)) e
    where
      by_value : (o : Option ℤ) → not_negative o ≡ some z → (n : ℕ) × (z ≡ pos n)
      by_value none k = absurd cc
      by_value (some (negsuc n)) k = absurd cc
      by_value (some (pos n)) k = (n, cc)

  files_from-ListedFrom :
      (index : ℕ) (offset : ℤ) (rows : Nodes)
      → OnParsed (ListedFrom index offset) (files_from atoi ext index offset rows)
  unfolding files_from
  files_from-ListedFrom index offset nil = tt
  files_from-ListedFrom index offset (cons row rows) =
      file_from-ListedFrom index offset (bint atoi ext (field (codes "length") row))
        (path_of atoi ext row) (λ next. files_from atoi ext (index + 1) next rows)
        (bint_lem (field (codes "length") row))
        (λ p e.
          safe_torrent_path-IsBelow (join (texts_of (items_of_node (field (codes "path") row)))) p
            e)
        (λ next. files_from-ListedFrom (index + 1) next rows)

  files_of-ListedFrom :
      (info : Option Node) → OnParsed (ListedFrom 0 (pos 0)) (files_of atoi ext info)
  files_of-ListedFrom none = tt
  files_of-ListedFrom (some info) = by_files (entry_at (codes "files") (entries_of_node info))
    where
      by_files : (o : Option Node) → OnParsed (ListedFrom 0 (pos 0)) (files_of_info atoi ext info o)
      by_files (some files) = files_from-ListedFrom 0 (pos 0) (items_of_node files)
      by_files none =
          file_from-ListedFrom 0 (pos 0) (bint atoi ext (field (codes "length") info))
            (safe_torrent_path (name_or_content (value_of (field (codes "name") info))))
            (λ next. parsed []) (bint_lem (field (codes "length") info))
            (λ p e.
              safe_torrent_path-IsBelow (name_or_content (value_of (field (codes "name") info))) p
                e)
            (λ next. tt)

  -- The metadata is kept as it was, and the files are as `Listed` says.
  abbrev pub IsManifest : Bytes → Bytes → TorrentManifest → Type 0
  IsManifest release_id metainfo m =
      (m.release_id ≡ release_id)
      × (m.metainfo ≡ metainfo)
      × (length metainfo < 2 ^ 24)
      × ListedFrom 0 (pos 0) m.files

  manifest_of-IsManifest :
      (release_id metainfo : Bytes) (now : Time) (r : Parsed (List TorrentFile))
      → length metainfo < 2 ^ 24
      → OnParsed (ListedFrom 0 (pos 0)) r
      → OnParsed (IsManifest release_id metainfo) (manifest_of atoi ext release_id metainfo now r)
  manifest_of-IsManifest release_id metainfo now (parsed files) l h = (refl, refl, l, h)
  manifest_of-IsManifest release_id metainfo now (fails e) l h = tt
  manifest_of-IsManifest release_id metainfo now panics l h = tt
  manifest_of-IsManifest release_id metainfo now unread l h = h

  files_of_root-ListedFrom :
      (n : ℕ) (r : Read Node)
      → Ends n r
      → OnParsed (ListedFrom 0 (pos 0)) (files_of_root atoi ext r)
  files_of_root-ListedFrom n (done root rest) h =
      files_of-ListedFrom (entry_at (codes "info") (entries_of_node root))
  files_of_root-ListedFrom n bad h = tt
  files_of_root-ListedFrom n panicked h = tt
  files_of_root-ListedFrom n exhausted h = h

  -- Whatever the metadata is: its fuel is enough for the reader, and a manifest, if one is returned,
  -- keeps metadata of less than 16 MiB and lists files that are numbered from 0, with no negative
  -- size, at offsets that are the sums (in an int64) of the sizes before, and with paths that stay
  -- below their directory: without a backslash and without a part that is empty, `.` or `..`.
  pub parse_torrent_manifest-IsManifest :
      (release_id metainfo : Bytes) (now : Time)
      → OnParsed
          (IsManifest release_id metainfo)
          (parse_torrent_manifest atoi ext release_id metainfo now)
  unfolding parse_torrent_manifest
  parse_torrent_manifest-IsManifest release_id metainfo now =
      by_size (null metainfo || not (ltb (length metainfo) (2 ^ 24))) refl
    where
      whole : ℕ
      whole = length metainfo

      by_size :
          (b : Bool)
          → (null metainfo || not (ltb (length metainfo) (2 ^ 24))) ≡ b
          → OnParsed (IsManifest release_id metainfo) (
              if b
              then fails empty_or_large
              else manifest_of atoi ext release_id metainfo now
                  (files_of_root atoi ext (read_node atoi whole (suc (2 * whole)) metainfo)))
      by_size true e = tt
      by_size false e =
          manifest_of-IsManifest release_id metainfo now
            (files_of_root atoi ext (read_node atoi whole (suc (2 * whole)) metainfo))
            (ground arith)
            (files_of_root-ListedFrom whole (read_node atoi whole (suc (2 * whole)) metainfo)
              (read_node-Ends atoi whole (suc (2 * whole)) metainfo (omega arith)))
