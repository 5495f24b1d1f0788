-- ===== src/Archive/Tests.antt =====
-- The archive of a macOS bundle.
use torrent_tv.Prelude.{
  Bool, null, ◌||◌, ◌==◌, ◌++◌, if◌then◌else◌, false, List, ◌≡◌, refl, true, none, [], ◌∷◌, arith,
  ◌^◌, ◌-◌,
}
use torrent_tv.Prelude.Int.{pos, negsuc}
use torrent_tv.Prelude.Bytes.{Bytes, codes, eqb}
use torrent_tv.Prelude.Texts.{split}
use torrent_tv.Archive.{
  Paths, ArchiveRules, new_archive_rules, Member, directory, regular, symlink, extract_tar,
  account_size, Extraction, fails, creates,
}
use torrent_tv.Archive.Contained.{IsContained, extract_tar-IsContained}
use torrent_tv.Archive.Sizes.{account_size_wraps}

-- Package path for names that do not begin with a slash: the parts of a cleaned name, the last first.
abbrev parent : List Bytes → List Bytes
parent [] = codes ".." ∷ []
parent (p ∷ s) = if eqb p (codes "..") then codes ".." ∷ p ∷ s else s

abbrev with_part : Bytes → List Bytes → List Bytes
with_part p s =
    if null p || eqb p (codes ".") then s else if eqb p (codes "..") then parent s else p ∷ s

abbrev parts_from : List Bytes → List Bytes → List Bytes
parts_from s [] = s
parts_from s (p ∷ ps) = parts_from (with_part p s) ps

abbrev text_of : List Bytes → Bytes
text_of [] = codes "."
text_of (p ∷ []) = p
text_of (p ∷ q ∷ s) = text_of (q ∷ s) ++ b'/' ∷ p

abbrev clean_path : Bytes → Bytes
clean_path name = text_of (parts_from [] (split b'/' name))

abbrev dir_of : List Bytes → Bytes
dir_of [] = codes "."
dir_of (p ∷ s) = text_of s

abbrev is_absolute : Bytes → Bool
is_absolute [] = false
is_absolute (c ∷ s) = c == b'/'

abbrev paths : Paths
paths = record {
  clean = clean_path;
  is_abs = is_absolute;
  join = λ a b. clean_path (a ++ b'/' ∷ b);
  dir = λ name. dir_of (parts_from [] (split b'/' name));
}

abbrev rules : ArchiveRules
rules = new_archive_rules true (record { entries = 10; expanded = pos 1000 })

abbrev members : List Member
members =
    record { name = codes "TV.app/"; kind = directory }
    ∷ record { name = codes "TV.app/bin"; kind = regular (pos 7) }
    ∷ record { name = codes "TV.app/lib/link"; kind = symlink (codes "../bin") }
    ∷ []

extract_tar-IsContained_example : IsContained paths true [] (extract_tar paths members rules)
extract_tar-IsContained_example = extract_tar-IsContained paths members rules

abbrev is_accepted : Extraction → Bool
is_accepted (fails f) = false
is_accepted (creates ms) = true

members_accepted : is_accepted (extract_tar paths members rules) ≡ true
unfolding extract_tar
members_accepted = refl

upward_link_refused :
    is_accepted (
      extract_tar paths
        (record { name = codes "TV.app/link"; kind = symlink (codes "../bin") } ∷ [])
        rules)
    ≡ false
unfolding extract_tar
upward_link_refused = refl

-- The second link leads through the first one: followed, it ends above the root.
links_of_links_accepted :
    is_accepted (
      extract_tar paths
        (record { name = codes "X.app/a/b/up"; kind = symlink (codes "../..") }
          ∷ record { name = codes "X.app/out"; kind = symlink (codes "a/b/up/../..") }
          ∷ [])
        rules)
    ≡ true
unfolding extract_tar
links_of_links_accepted = refl

account_size_wraps_example :
    ((account_size (pos (2 ^ 63 - 1)) (record rules { expanded = pos 7 })).0 ≡ none)
    × ((account_size (pos (2 ^ 63 - 1)) (record rules { expanded = pos 7 })).1.expanded
        ≡ negsuc (2 ^ 63 - 7))
account_size_wraps_example =
    account_size_wraps (record rules { expanded = pos 7 }) 7 1000 refl refl (omega arith)
      (omega arith)
