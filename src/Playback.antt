-- ===== src/Playback.antt =====
-- internal/application/service.go: where the household stopped in a file, and what it wants to hear and
-- read. The repository answers a row, that there is none, or an error.
pub mod Progress
pub mod Preferences
mod Tests
use torrent_tv.Prelude.{
  ℕ, Time, ◌≡◌, Bool, true, false, not, ◌&&◌, Option, none, some, List, [], ◌∷◌, ◌||◌,
  if◌then◌else◌,
}
use torrent_tv.Prelude.Int.{ℤ, pos, negsuc, ltb_ℤ, mul64}
use torrent_tv.Prelude.Bytes.{Bytes, codes}

pub data Answer {ℓ} (A : Type ℓ) : Type ℓ where
  found : A → Answer A
  no_rows : Answer A
  failed : Bytes → Answer A

pub record PlaybackState : Type 0 where
  pub profile_id : Bytes
  pub source_id : Bytes
  pub release_id : Bytes
  pub file_index : ℤ
  pub file_path : Bytes
  pub position_ms : ℤ
  pub duration_ms : ℤ
  pub watched : Bool
  pub updated_at : Time

-- The columns of a download that a playback row copies.
pub record Source : Type 0 where
  pub release_id : Bytes
  pub file_index : ℤ
  pub file_path : Bytes

pub data Error : Type 0 where
  negative : Error
  not_found : Error
  repository : Bytes → Error

pub data Saved : Type 0 where
  saved : PlaybackState → Saved
  refused : Error → Saved

abbrev pub household_profile : Bytes
household_profile = codes "household"

abbrev pub blank : PlaybackState
blank = record {
  profile_id = [];
  source_id = [];
  release_id = [];
  file_index = pos 0;
  file_path = [];
  position_ms = pos 0;
  duration_ms = pos 0;
  watched = false;
  updated_at = 0;
}

-- `SavePlayback`, with the error that the repository answers.
abbrev pub save : Option Bytes → PlaybackState → Saved
save none p = saved p
save (some e) p = refused (repository e)

abbrev pub clamp : ℤ → ℤ → ℤ
clamp position duration =
    if ltb_ℤ (pos 0) duration && ltb_ℤ duration position then duration else position

-- Whether the source counts as watched, by the threshold in percent and by whether it did.
unfoldable pub watched_after : ℤ → ℤ → ℤ → Bool → Bool
unfolding mul64
watched_after threshold position duration before =
    if ltb_ℤ (pos 0) duration && not (ltb_ℤ (mul64 position (pos 100)) (mul64 duration threshold))
    then true
    else if before
        && ltb_ℤ (pos 0) position
        && ltb_ℤ (pos 0) duration
        && ltb_ℤ (mul64 position (pos 200)) (mul64 duration threshold)
    then false
    else before

abbrev pub progress : Time → ℤ → Bytes → Source → PlaybackState → ℤ → ℤ → PlaybackState
progress now threshold id d p position duration = record {
  profile_id = household_profile;
  source_id = id;
  release_id = d.release_id;
  file_index = d.file_index;
  file_path = d.file_path;
  position_ms = position;
  duration_ms = duration;
  watched = watched_after threshold position duration p.watched;
  updated_at = now;
}

-- UpdatePlayback behind its checks, with the answers of `GetDownload` and `GetPlayback`.
abbrev pub update_found :
    Time → ℤ → Bytes → Answer Source → Answer PlaybackState → Option Bytes → ℤ → ℤ → Saved
update_found now threshold id (failed e) row err position duration = refused (repository e)
update_found now threshold id no_rows row err position duration = refused not_found
update_found now threshold id (found d) (failed e) err position duration = refused (repository e)
update_found now threshold id (found d) no_rows err position duration =
    save err (progress now threshold id d blank position duration)
update_found now threshold id (found d) (found p) err position duration =
    save err (progress now threshold id d p position duration)

unfoldable pub update_playback :
    Time → ℤ → Bytes → Answer Source → Answer PlaybackState → Option Bytes → ℤ → ℤ → Saved
unfolding watched_after
update_playback now threshold id d row err position duration =
    if ltb_ℤ position (pos 0) || ltb_ℤ duration (pos 0)
    then refused negative
    else update_found now threshold id d row err (clamp position duration) duration

abbrev pub with_watched : Time → Bool → PlaybackState → PlaybackState
with_watched now watched p = record p {
  watched = watched;
  position_ms =
      if not watched
      then pos 0
      else if ltb_ℤ (pos 0) p.duration_ms
      then p.duration_ms
      else p.position_ms;
  updated_at = now;
}

abbrev pub first_row : Bytes → Source → PlaybackState
first_row id d = record blank {
  profile_id = household_profile;
  source_id = id;
  release_id = d.release_id;
  file_index = d.file_index;
  file_path = d.file_path;
}

unfoldable pub set_watched :
    Time → Bytes → Answer Source → Answer PlaybackState → Option Bytes → Bool → Saved
set_watched now id d (failed e) err watched = refused (repository e)
set_watched now id d (found p) err watched = save err (with_watched now watched p)
set_watched now id (failed e) no_rows err watched = refused (repository e)
set_watched now id no_rows no_rows err watched = refused not_found
set_watched now id (found d) no_rows err watched =
    save err (with_watched now watched (first_row id d))

-- What clients ask of one source, and what the repository answers beside the row.
pub data Request : Type 0 where
  updates : Time → ℤ → Answer Source → Option Bytes → ℤ → ℤ → Request
  sets_watched : Time → Answer Source → Option Bytes → Bool → Request

abbrev pub kept : Answer PlaybackState → Saved → Answer PlaybackState
kept row (saved p) = found p
kept row (refused e) = row

-- The row of a source behind a sequence of requests.
unfoldable pub run : Bytes → List Request → Answer PlaybackState → Answer PlaybackState
unfolding update_playback set_watched
run id [] row = row
run id (updates now threshold d err position duration ∷ later) row =
    run id later (kept row (update_playback now threshold id d row err position duration))
run id (sets_watched now d err watched ∷ later) row =
    run id later (kept row (set_watched now id d row err watched))
