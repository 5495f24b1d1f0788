-- ===== src/Retention/Household.antt =====
-- The household facts of retention.go: favorites and the latest playback of each title. A Go map
-- that is only read and written by key is a function; "" is the title of a release without one.
use torrent_tv.Prelude.{
  ◌≡◌, ◌∙◌, Time, Bool, false, not, ◌&&◌, ◌||◌, Option, none, some, List, [], ◌∷◌, max, arith, ltb,
  ◌==◌, if◌then◌else◌, null, any,
}
use torrent_tv.Prelude.Bytes.{Bytes, contains, eqb}
use torrent_tv.Retention.{Download}

pub record PlaybackState : Type 0 where
  pub release_id : Bytes
  pub watched : Bool
  pub updated_at : Time

pub record RetentionHousehold : Type 0 where
  pub favorite_titles : Bytes → Bool
  pub latest_by_title : Bytes → Option PlaybackState
  pub title_by_release : Bytes → Bytes

module _ {F : Type 0} where
  -- The releases of the managed rows, each once and without the blank one; the second argument is
  -- the map `seen`.
  unfoldable pub release_ids : List (Download F) → List Bytes → List Bytes
  unfolding eqb
  release_ids [] seen = []
  release_ids (row ∷ rows) seen =
      let fresh = row.release_id ∷ release_ids rows (row.release_id ∷ seen) in
      let rest = release_ids rows seen in
      if null row.release_id || contains seen row.release_id then rest else fresh

-- One round of the loop over the playback states.
unfoldable pub note_playback :
    (Bytes → Bytes) → (Bytes → Option PlaybackState) → PlaybackState → Bytes → Option PlaybackState
unfolding eqb
note_playback titles latest p title =
    if null (titles p.release_id) || not (eqb title (titles p.release_id))
    then latest title
    else elim (latest title) [
      | none ↦ some p
      | some q ↦ if ltb q.updated_at p.updated_at then some p else some q
    ]

unfoldable pub latest_playback :
    (Bytes → Bytes)
    → List PlaybackState
    → (Bytes → Option PlaybackState)
    → Bytes
    → Option PlaybackState
latest_playback titles [] latest = latest
latest_playback titles (p ∷ ps) latest = latest_playback titles ps (note_playback titles latest p)

-- `retentionHousehold`, from what the repository returns.
unfoldable pub retention_household :
    (Bytes → Bytes) → List Bytes → List PlaybackState → RetentionHousehold
unfolding latest_playback note_playback
retention_household titles favorites playback = record {
  favorite_titles = contains favorites;
  latest_by_title = latest_playback titles playback (λ _. none);
  title_by_release = titles;
}

pub record Facts : Type 0 where
  pub favorite : Bool
  pub watched : Bool
  pub last_played : Time

abbrev pub no_facts : Facts
no_facts = record { favorite = false; watched = false; last_played = 0 }

abbrev pub with_playback : Option PlaybackState → Facts → Facts
with_playback none f = f
with_playback (some p) f = record f {
  watched = f.watched || p.watched;
  last_played =
      if f.last_played == 0 || ltb f.last_played p.updated_at then p.updated_at else f.last_played;
}

abbrev pub watched_in : Option PlaybackState → Bool
watched_in none = false
watched_in (some p) = p.watched

abbrev pub played_in : Option PlaybackState → Time
played_in none = 0
played_in (some p) = p.updated_at

module _ {F : Type 0} (h : RetentionHousehold) where
  -- One round of the loop of `routeFacts`.
  pub add_facts : Download F → Facts → Facts
  add_facts row f =
      let title = h.title_by_release row.release_id in
      if null title
      then f
      else with_playback (h.latest_by_title title)
          (record f { favorite = f.favorite || h.favorite_titles title })

  pub route_facts_from : Facts → List (Download F) → Facts
  unfolding add_facts
  route_facts_from f [] = f
  route_facts_from f (row ∷ rows) = route_facts_from (add_facts row f) rows

  unfoldable pub route_facts : List (Download F) → Facts
  unfolding route_facts_from
  route_facts rows = route_facts_from no_facts rows

  -- The description of the facts, a row at a time.
  abbrev title_of : Download F → Bytes
  title_of row = h.title_by_release row.release_id

  abbrev pub is_favorite : Download F → Bool
  is_favorite row = not (null (title_of row)) && h.favorite_titles (title_of row)

  abbrev pub is_watched : Download F → Bool
  is_watched row = not (null (title_of row)) && watched_in (h.latest_by_title (title_of row))

  abbrev pub played_at : Download F → Time
  played_at row = if null (title_of row) then 0 else played_in (h.latest_by_title (title_of row))

  abbrev pub last_play : List (Download F) → Time
  last_play [] = 0
  last_play (row ∷ rows) = max (played_at row) (last_play rows)

  add_facts-eq :
      (row : Download F) (f : Facts)
      → add_facts row f ≡ record {
        favorite = f.favorite || is_favorite row;
        watched = f.watched || is_watched row;
        last_played = max f.last_played (played_at row);
      }
  unfolding add_facts
  add_facts-eq row f = ground arith

  route_facts_from-eq :
      (f : Facts) (rows : List (Download F))
      → route_facts_from f rows ≡ record {
        favorite = f.favorite || any is_favorite rows;
        watched = f.watched || any is_watched rows;
        last_played = max f.last_played (last_play rows);
      }
  unfolding route_facts_from
  route_facts_from-eq f [] = ground arith
  route_facts_from-eq f (row ∷ rows) =
      ground (arith, add_facts-eq row f, route_facts_from-eq (add_facts row f) rows)

  -- A route is a favorite if the title of one of its rows is, watched if the latest playback of the
  -- title of one of its rows is, and was last played at the latest of those playbacks (the zero time
  -- if there is none); rows without a title count for nothing.
  pub route_facts_lem :
      (rows : List (Download F))
      → route_facts rows ≡ record {
        favorite = any is_favorite rows;
        watched = any is_watched rows;
        last_played = last_play rows;
      }
  unfolding route_facts
  route_facts_lem rows = route_facts_from-eq no_facts rows ∙ ground arith
