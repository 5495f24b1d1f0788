-- ===== src/Retention.antt =====
-- internal/application/retention.go: which torrent is evicted next, and why. Records hold the fields
-- that the code here reads. `float64` is a parameter `F` with its operations; an instant is a number
-- of nanoseconds; identifiers and rule atoms are ASCII texts.
pub mod Order
pub mod Victim
pub mod Household
pub mod Latest
pub mod Survey
pub mod Eviction
pub mod Run
pub mod Admission
mod Tests
use torrent_tv.Prelude.{
  ℕ, ◌+◌, Time, Bool, true, false, not, ◌&&◌, ◌||◌, Option, none, some, List, [], ◌∷◌, ltb, ◌==◌,
  if◌then◌else◌, null,
}
use torrent_tv.Prelude.Int.{ℤ, pos, ltb_ℤ, sub64}
use torrent_tv.Prelude.Bytes.{Bytes, codes, eqb, lower, trim_space}
use torrent_tv.Prelude.Comparators.{
  Ordering, swap, is_less, or_else, compare_nat, compare_int, compare_bytes,
}

-- What the code does with `float64`: comparisons, and `int64(gb * (1 << 30))`.
pub record Float (F : Type 0) : Type 0 where
  pub lt : F → F → Bool
  pub le : F → F → Bool
  pub nought : F
  pub one : F
  pub gibi_bytes : F → ℤ

pub record Download (F : Type 0) : Type 0 where
  pub id : Bytes
  pub release_id : Bytes
  pub engine_id : Bytes
  pub progress : F
  pub leased : Bool
  pub updated_at : Time

pub record DownloadStatus (F : Type 0) : Type 0 where
  pub progress : F
  pub total_bytes : ℤ

pub record Settings (F : Type 0) : Type 0 where
  pub allocation_gb : F
  pub reserve_gb : F
  pub eviction_rules : List Bytes
  pub protect_incomplete : Bool
  pub protect_leased : Bool
  pub protect_favorites : Bool
  pub protect_never_watched : Bool

-- A route is made from its first row; `rows` are that and the others, in the order of the store.
pub record RetentionRoute (F : Type 0) : Type 0 where
  pub engine_id : Bytes
  pub hash : Bytes
  pub first : Download F
  pub others : List (Download F)
  pub status : DownloadStatus F
  pub favorite : Bool
  pub watched : Bool
  pub last_played : Time

module _ {F : Type 0} where
  abbrev pub rows_of : RetentionRoute F → List (Download F)
  rows_of r = r.first ∷ r.others

  -- The loop of `completedAt` over the rows after the first.
  pub oldest : Time → List (Download F) → Time
  oldest t [] = t
  oldest t (row ∷ rows) = oldest (if ltb row.updated_at t then row.updated_at else t) rows

  pub completed_at : RetentionRoute F → Time
  unfolding oldest
  completed_at r = oldest r.first.updated_at r.others

  pub last_activity : RetentionRoute F → Time
  last_activity r = if not (r.last_played == 0) then r.last_played else completed_at r

  -- `leases` says which downloads have an open stream, by the in-memory table.
  pub row_leased : (Bytes → Bool) → Download F → Bool
  row_leased leases d = leases d.id || d.leased

  pub route_leased : (Bytes → Bool) → List (Download F) → Bool
  unfolding row_leased
  route_leased leases [] = false
  route_leased leases (row ∷ rows) = row_leased leases row || route_leased leases rows

  module _ (float : Float F) where
    pub rows_incomplete : List (Download F) → Bool
    rows_incomplete [] = false
    rows_incomplete (row ∷ rows) = float.lt row.progress float.one || rows_incomplete rows

    pub route_incomplete : RetentionRoute F → Bool
    unfolding rows_incomplete
    route_incomplete r = float.lt r.status.progress float.one || rows_incomplete (rows_of r)

    pub retention_protected : (Bytes → Bool) → Settings F → RetentionRoute F → Bool
    unfolding route_incomplete route_leased
    retention_protected leases settings r =
        (settings.protect_incomplete && route_incomplete r)
        || (settings.protect_leased && route_leased leases (rows_of r))
        || (settings.protect_favorites && r.favorite)
        || (settings.protect_never_watched && not r.watched)

pub data Rule : Type 0 where
  oldest_completed newest_completed least_recently_played most_recently_played : Rule
  watched_first never_watched_first largest smallest : Rule

-- The switch of `compareEvictionRule`: what it does not recognise is `oldest-completed`.
pub rule_of : Bytes → Rule
unfolding eqb
rule_of rule =
    if eqb rule (codes "newest-completed")
    then newest_completed
    else if eqb rule (codes "least-recently-played")
    then least_recently_played
    else if eqb rule (codes "most-recently-played")
    then most_recently_played
    else if eqb rule (codes "watched-first")
    then watched_first
    else if eqb rule (codes "never-watched-first")
    then never_watched_first
    else if eqb rule (codes "largest")
    then largest
    else if eqb rule (codes "smallest")
    then smallest
    else oldest_completed

-- `boolFirst`: true before false.
abbrev pub bool_first : Bool → Bool → Ordering
bool_first true true = Ordering.eq
bool_first true false = Ordering.lt
bool_first false true = Ordering.gt
bool_first false false = Ordering.eq

module _ {F : Type 0} where
  pub compare_by : Rule → RetentionRoute F → RetentionRoute F → Ordering
  compare_by newest_completed a b = compare_nat (completed_at b) (completed_at a)
  compare_by least_recently_played a b = compare_nat (last_activity a) (last_activity b)
  compare_by most_recently_played a b = compare_nat (last_activity b) (last_activity a)
  compare_by watched_first a b = bool_first a.watched b.watched
  compare_by never_watched_first a b = bool_first (not a.watched) (not b.watched)
  compare_by largest a b = compare_int b.status.total_bytes a.status.total_bytes
  compare_by smallest a b = compare_int a.status.total_bytes b.status.total_bytes
  compare_by oldest_completed a b = compare_nat (completed_at a) (completed_at b)

  pub compare_eviction_rule : Bytes → RetentionRoute F → RetentionRoute F → Ordering
  unfolding compare_by rule_of
  compare_eviction_rule rule = compare_by (rule_of rule)

  -- The order of `applyEvictionRules`; its less function says that the first comes before.
  pub compare_routes : List Bytes → RetentionRoute F → RetentionRoute F → Ordering
  unfolding compare_eviction_rule
  compare_routes [] a b =
      or_else (compare_nat (completed_at a) (completed_at b))
        (compare_bytes a.engine_id b.engine_id)
  compare_routes (rule ∷ rules) a b =
      or_else (compare_eviction_rule rule a b) (compare_routes rules a b)

  pub less : List Bytes → RetentionRoute F → RetentionRoute F → Bool
  unfolding compare_routes
  less rules a b = is_less (compare_routes rules a b)

-- `config.NormalizeEvictionRules`.
normalize : List Bytes → List Bytes
unfolding lower trim_space
normalize [] = []
normalize (rule ∷ rules) =
    let atom = lower (trim_space rule) in
    let rest = normalize rules in if null atom then rest else atom ∷ rest

unfoldable pub normalize_eviction_rules : List Bytes → List Bytes
unfolding normalize
normalize_eviction_rules rules =
    let out = normalize rules in if null out then codes "oldest-completed" ∷ [] else out

pub data Reason : Type 0 where
  cap reserve : Reason

-- One evaluation of the storage: `free` is the free space, `none` where it cannot be read.
pub record RetentionPlan (F : Type 0) : Type 0 where
  pub routes : List (RetentionRoute F)
  pub stored_bytes : ℤ
  pub free : Option ℤ
  pub uncertain_owners : List Bytes

module _ {F : Type 0} (float : Float F) where
  abbrev reserve_short : Settings F → Option ℤ → Bool
  reserve_short settings none = false
  reserve_short settings (some bytes) = ltb_ℤ bytes (float.gibi_bytes settings.reserve_gb)

  unfoldable pub retention_deficit : RetentionPlan F → Settings F → Option Reason
  unfolding sub64
  retention_deficit plan settings =
      if float.lt float.nought settings.allocation_gb
        && ltb_ℤ (pos 0) (sub64 plan.stored_bytes (float.gibi_bytes settings.allocation_gb))
      then some cap
      else if float.lt float.nought settings.reserve_gb && reserve_short settings plan.free
      then some reserve
      else none
