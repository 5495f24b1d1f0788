-- ===== src/Playback/Tests.antt =====
-- A film of two hours.
use torrent_tv.Prelude.{true, none, some, List, [], ◌∷◌}
use torrent_tv.Prelude.Int.{pos, negsuc}
use torrent_tv.Prelude.Bytes.{codes}
use torrent_tv.Playback.{found, no_rows, Source, Request, updates, sets_watched, run}
use torrent_tv.Playback.Progress.{RowIsPlayback, run-IsPlayback}
use torrent_tv.Playback.Preferences.{PlaybackPreferences, Languages, defaults}

abbrev film : Source
film = record { release_id = codes "r1"; file_index = pos 0; file_path = codes "film.mkv" }

abbrev evening : List Request
evening =
    updates 1 (pos 90) (found film) none (pos 7300000) (pos 7200000)
    ∷ sets_watched 2 (found film) none true
    ∷ updates 3 (pos 90) (found film) (some (codes "disk full")) (negsuc 4) (pos 0)
    ∷ []

run-IsPlayback_example : RowIsPlayback (run (codes "d1") evening no_rows)
run-IsPlayback_example = run-IsPlayback (codes "d1") evening no_rows tt

abbrev romanian : Languages
romanian = record { audio = codes "en"; subtitle = codes "ro" }

abbrev asked : PlaybackPreferences
asked = record (defaults romanian (codes "d1")) {
  audio_language = codes " EN";
  subtitle_mode = codes "Off";
}

abbrev answered : PlaybackPreferences
answered = record (defaults romanian (codes "d1")) { subtitle_mode = codes "off"; updated_at = 5 }
