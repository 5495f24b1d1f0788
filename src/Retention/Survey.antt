-- ===== src/Retention/Survey.antt =====
-- `retentionSurvey`: the managed rows grouped by engine route, with the status of each route. The
-- repository, the engines and the disk are a `Round` of answers.
pub mod Rows
pub mod Answers
pub mod Routes
use torrent_tv.Prelude.{
  ℕ, ◌≡◌, refl, Bool, true, false, not, ◌&&◌, Option, none, some, List, [], ◌∷◌, ◌++◌, ◌==◌,
  if◌then◌else◌,
}
use torrent_tv.Prelude.Int.{ℤ, pos, add64}
use torrent_tv.Prelude.Bytes.{Bytes, contains, eqb, cut}
use torrent_tv.Retention.{Download, DownloadStatus, RetentionRoute, RetentionPlan}
use torrent_tv.Retention.Household.{
  PlaybackState, RetentionHousehold, Facts, release_ids, retention_household, route_facts,
}

pub data Removal : Type 0 where
  removed not_found broken : Removal

-- What the outside answers during one evaluation and the removal before it. `none` and `false` are
-- errors; `titles` is `CatalogTitleIDsForReleases`, `status` is asked of the engine of a route.
pub record Round (F : Type 0) : Type 0 where
  pub lists : Bool
  pub titles : List Bytes → Option (Bytes → Bytes)
  pub favorites : Option (List Bytes)
  pub playback : Option (List PlaybackState)
  pub status : Bytes → Option (DownloadStatus F)
  pub free : Option ℤ
  pub removal : Bytes → Removal
  pub lists_rows : Bool
  pub deletes : Bytes → Bool

pub data Failure : Type 0 where
  listing household removing deleting : Failure
  engine_unavailable : Bytes → Failure

abbrev pub colon : ℕ
colon = b':'

-- `routePrefix`.
abbrev pub prefix_of : Option (Bytes × Bytes) → Bytes → Bytes
prefix_of none route = route
prefix_of (some (prefix, hash)) route = prefix

pub route_prefix : Bytes → Bytes
unfolding cut
route_prefix route = prefix_of (cut colon route) route ++ colon ∷ []

-- `EngineSet.Resolve`, for the hash: `registered` says which prefixes have an engine.
abbrev pub resolved : (Bytes → Bool) → Option (Bytes × Bytes) → Option Bytes
resolved registered none = none
resolved registered (some (prefix, hash)) =
    if registered (prefix ++ colon ∷ []) then some hash else none

unfoldable pub owner : (Bytes → Bool) → Bytes → Option Bytes
unfolding cut
owner registered route = resolved registered (cut colon route)

abbrev pub hash_of : Option Bytes → Bytes
hash_of none = []
hash_of (some hash) = hash

-- `if !slices.Contains(owners, prefix) { owners = append(owners, prefix) }`.
unfoldable pub add_owner : Bytes → List Bytes → List Bytes
unfolding eqb
add_owner prefix owners = if contains owners prefix then owners else owners ++ prefix ∷ []

-- The map `byRoute`, in the order of `order`; the rows of a route are its first and the others.
pub record Group (F : Type 0) : Type 0 where
  pub engine_id : Bytes
  pub first : Download F
  pub others : List (Download F)

module _ {F : Type 0} where
  unfoldable pub add_row : Download F → List (Group F) → List (Group F)
  unfolding eqb
  add_row row [] = record { engine_id = row.engine_id; first = row; others = [] } ∷ []
  add_row row (g ∷ gs) =
      if eqb g.engine_id row.engine_id
      then record g { others = g.others ++ row ∷ [] } ∷ gs
      else g ∷ add_row row gs

  -- The first loop: rows without an engine name an uncertain owner, the others are grouped.
  unfoldable pub group_rows :
      (Bytes → Bool) → List (Download F) → List Bytes → List (Group F) → List Bytes × List (Group F)
  unfolding add_row add_owner owner route_prefix
  group_rows registered [] owners groups = (owners, groups)
  group_rows registered (row ∷ rows) owners groups = elim (owner registered row.engine_id) [
    | none ↦ group_rows registered rows (add_owner (route_prefix row.engine_id) owners) groups
    | some hash ↦ group_rows registered rows owners (add_row row groups)
  ]

  unfoldable pub make_route :
      RetentionHousehold → Group F → Bytes → DownloadStatus F → RetentionRoute F
  unfolding route_facts
  make_route h g hash status =
      let facts = route_facts h (g.first ∷ g.others) in
      record {
        engine_id = g.engine_id;
        hash = hash;
        first = g.first;
        others = g.others;
        status = status;
        favorite = facts.favorite;
        watched = facts.watched;
        last_played = facts.last_played;
      }

  -- The second loop: a route with no status names an uncertain owner.
  unfoldable pub add_routes :
      (Bytes → Bool)
      → RetentionHousehold
      → (Bytes → Option (DownloadStatus F))
      → List (Group F)
      → RetentionPlan F
      → RetentionPlan F
  unfolding make_route add_owner owner route_prefix add64
  add_routes registered h status [] plan = plan
  add_routes registered h status (g ∷ gs) plan = elim (status g.engine_id) [
    | none ↦ add_routes registered h status gs (record plan {
      uncertain_owners = add_owner (route_prefix g.engine_id) plan.uncertain_owners;
    })
    | some st ↦ add_routes registered h status gs (record plan {
      routes = plan.routes ++ make_route h g (hash_of (owner registered g.engine_id)) st ∷ [];
      stored_bytes = add64 plan.stored_bytes st.total_bytes;
    })
  ]

  -- `retentionHousehold`, whose repository calls may each fail.
  unfoldable pub find_household : Round F → List (Download F) → Option RetentionHousehold
  unfolding release_ids retention_household
  find_household round rows = elim (round.titles (release_ids rows [])) [
    | none ↦ none
    | some titles ↦ elim round.favorites [
      | none ↦ none
      | some favorites ↦ elim round.playback [
        | none ↦ none
        | some playback ↦ some (retention_household titles favorites playback)
      ]
    ]
  ]

-- An error, or a value.
pub data Attempt (A : Type 0) : Type 0 where
  failed : Failure → Attempt A
  done : A → Attempt A

module _ {F : Type 0} (registered : Bytes → Bool) where
  abbrev pub plan_of :
      Round F → List (Download F) → Option RetentionHousehold → Attempt (RetentionPlan F)
  plan_of round rows none = failed household
  plan_of round rows (some h) =
      let (owners, groups) = group_rows registered rows [] [] in
      done (
        add_routes registered h round.status groups (record {
          routes = [];
          stored_bytes = pos 0;
          free = round.free;
          uncertain_owners = owners;
        }))

  unfoldable pub retention_survey : Round F → List (Download F) → Attempt (RetentionPlan F)
  unfolding group_rows add_routes find_household
  retention_survey round rows =
      if round.lists then plan_of round rows (find_household round rows) else failed listing
