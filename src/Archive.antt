-- ===== src/Archive.antt =====
-- internal/application/updates/stage.go: `archiveRules` and the loop of `extractTarGz` over the members
-- of an update archive. The functions of package path are parameters. What the file system and the
-- streams answer is left out: each step of the loop is taken to succeed there.
pub mod Contained
pub mod Sizes
mod Tests
use torrent_tv.Prelude.{
  ℕ, ◌+◌, Bool, true, false, not, ◌&&◌, ◌||◌, Option, none, some, List, [], ◌∷◌, null, any, ltb,
  ◌==◌, if◌then◌else◌,
}
use torrent_tv.Prelude.Int.{ℤ, pos, ltb_ℤ, add64}
use torrent_tv.Prelude.Bytes.{Bytes, codes, eqb, cut, contains}
use torrent_tv.Prelude.Texts.{has_prefix, has_suffix, trim_prefix, split}

-- Package path.
pub record Paths : Type 0 where
  pub clean : Bytes → Bytes
  pub is_abs : Bytes → Bool
  pub join : Bytes → Bytes → Bytes
  pub dir : Bytes → Bytes

-- `strings.TrimSuffix(name, "/")`
abbrev pub without_slash : Bytes → Bytes
without_slash [] = []
without_slash (c ∷ []) = if c == b'/' then [] else c ∷ []
without_slash (c ∷ d ∷ s) = c ∷ without_slash (d ∷ s)

pub record Limits : Type 0 where
  pub entries : ℕ
  pub expanded : ℤ

-- `is_bundle` is whether the target has the bundle flavor.
pub record ArchiveRules : Type 0 where
  pub is_bundle : Bool
  pub limits : Limits
  pub seen : List Bytes
  pub expanded : ℤ
  pub bundle_name : Bytes
  pub entries : ℕ

pub data Fault : Type 0 where
  archive_invalid staging_limit : Fault

pub data Kind : Type 0 where
  directory other : Kind
  regular : ℤ → Kind
  symlink : Bytes → Kind

pub record Member : Type 0 where
  pub name : Bytes
  pub kind : Kind

-- A refusal, the entry of the root itself, or a path below the root.
pub data MemberPath : Type 0 where
  refuses : Fault → MemberPath
  root : ArchiveRules → MemberPath
  below : Bytes → ArchiveRules → MemberPath

-- What an archive creates, each by its path below the root.
pub data Extraction : Type 0 where
  fails : Fault → Extraction
  creates : List Member → Extraction

abbrev pub new_archive_rules : Bool → Limits → ArchiveRules
new_archive_rules is_bundle limits = record {
  is_bundle = is_bundle;
  limits = limits;
  seen = [];
  expanded = pos 0;
  bundle_name = [];
  entries = 0;
}

abbrev pub before_slash : Bytes → Option (Bytes × Bytes) → Bytes
before_slash name none = name
before_slash name (some (first, rest)) = first

abbrev pub first_path_element : Bytes → Bytes
first_path_element name = before_slash name (cut b'/' name)

abbrev pub in_app : Bytes → Bool
in_app clean = has_suffix (first_path_element clean) (codes ".app")

abbrev pub mark_bundle : Bytes → ArchiveRules → MemberPath
mark_bundle clean r =
    let first = first_path_element clean in
    let name = if null r.bundle_name then first else r.bundle_name in
    if not (in_app clean)
    then (if r.is_bundle then refuses archive_invalid else below clean r)
    else if not r.is_bundle
    then refuses archive_invalid
    else if not (eqb name first)
    then refuses archive_invalid
    else below clean (record r { bundle_name = name })

unfoldable pub account_size : ℤ → ArchiveRules → Option Fault × ArchiveRules
unfolding add64
account_size size r =
    if ltb_ℤ size (pos 0)
    then (some archive_invalid, r)
    else if ltb_ℤ r.limits.expanded (add64 r.expanded size)
    then (some staging_limit, r)
    else (none, record r { expanded = add64 r.expanded size })

module _ (paths : Paths) where
  abbrev pub clean_archive_name : Bytes → Bytes
  clean_archive_name name = trim_prefix (paths.clean (without_slash name)) (codes "./")

  abbrev pub place_name : Bytes → ArchiveRules → MemberPath
  place_name clean r =
      if eqb clean (codes ".")
      then root r
      else if contains (split b'/' clean) (codes "..")
      then refuses archive_invalid
      else if contains r.seen clean
      then refuses archive_invalid
      else mark_bundle clean (record r { seen = clean ∷ r.seen })

  unfoldable pub member_path : Bytes → ArchiveRules → MemberPath
  unfolding has_prefix has_suffix trim_prefix split eqb cut
  member_path name r =
      if ltb r.limits.entries (r.entries + 1)
      then refuses archive_invalid
      else if null name
      then refuses archive_invalid
      else if any (λ c. c == b'\\' || c == 0) name
      then refuses archive_invalid
      else if has_prefix name (codes "/")
      then refuses archive_invalid
      else place_name (clean_archive_name name) (record r { entries = r.entries + 1 })

  unfoldable pub check_link_target : Bytes → Bytes → ArchiveRules → Bool
  unfolding has_suffix eqb cut
  check_link_target clean link r =
      let resolved = paths.clean (paths.join (paths.dir clean) link) in
      r.is_bundle
      && in_app clean
      && not (paths.is_abs link)
      && not (eqb resolved (codes "."))
      && eqb (first_path_element resolved) (first_path_element clean)

  abbrev pub also : Member → Extraction → Extraction
  also m (fails f) = fails f
  also m (creates ms) = creates (m ∷ ms)

  abbrev pub sized :
      (ArchiveRules → Extraction) → Bytes → ℤ → Option Fault × ArchiveRules → Extraction
  sized rest clean size (some f, r) = fails f
  sized rest clean size (none, r) = also (record { name = clean; kind = regular size }) (rest r)

  abbrev pub create : (ArchiveRules → Extraction) → Bytes → Kind → ArchiveRules → Extraction
  create rest clean directory r = also (record { name = clean; kind = directory }) (rest r)
  create rest clean (regular size) r = sized rest clean size (account_size size r)
  create rest clean (symlink link) r =
      if check_link_target clean link r
      then also (record { name = clean; kind = symlink link }) (rest r)
      else fails archive_invalid
  create rest clean other r = fails archive_invalid

  abbrev pub extract_member : (ArchiveRules → Extraction) → Kind → MemberPath → Extraction
  extract_member rest kind (refuses f) = fails f
  extract_member rest kind (root r) = rest r
  extract_member rest kind (below clean r) = create rest clean kind r

  unfoldable pub extract_tar : List Member → ArchiveRules → Extraction
  unfolding member_path account_size check_link_target
  extract_tar [] r = creates []
  extract_tar (m ∷ ms) r = extract_member (λ r. extract_tar ms r) m.kind (member_path m.name r)
