-- ===== src/Config/Tests.antt =====
-- The settings that `Defaults` returns, on Linux.
use torrent_tv.Prelude.{◌≡◌, ◌↔◌, true, false, ◌==◌, ltb, some, none, [], ◌∷◌, ℕ}
use torrent_tv.Prelude.Int.{pos}
use torrent_tv.Prelude.Bytes.{codes}
use torrent_tv.Prelude.Texts.{trim_prefix}
use torrent_tv.Config.{Host, Settings, validate, mebi}
use torrent_tv.Config.Validation.{IsValid, validate_iff}

abbrev linux : Host ℕ
linux = record {
  parse_url = λ raw. some (record { scheme = codes "https"; host = raw; has_user = false });
  is_network = λ raw. true;
  is_abs = λ path. true;
  base = λ path. trim_prefix path (codes "/usr/bin/");
  is_nan = λ x. false;
  is_inf = λ x. false;
  lt = ltb;
  is_nought = λ x. x == 0;
  nought = 0;
  tenth = 1;
  hundred_thousand = 1000000;
}

abbrev defaults : Settings ℕ
defaults = record {
  instance_name = codes "Torrent TV";
  listen_address = codes ":8097";
  trusted_networks = codes "127.0.0.0/8" ∷ [];
  database_path = codes "data/filelist.db";
  download_root = codes "data/downloads";
  pirate_bay_website_url = codes "https://thepiratebay.org";
  pirate_bay_api_url = codes "https://apibay.org";
  download_engine = codes "native";
  torrent_peer_port = pos 42069;
  torrent_public_peer_port = pos 0;
  torrent_session_dir = codes "data/torrent-session";
  initial_buffer_bytes = mebi 128;
  read_ahead_bytes = mebi 256;
  piece_wait_timeout_seconds = pos 600;
  stream_start_bytes = mebi 2;
  allocation_gb = 150;
  reserve_gb = 80;
  eviction_rules = codes "oldest-completed" ∷ [];
  metadata_providers = codes "tmdb" ∷ codes "TVmaze " ∷ [];
  artwork_cache_path = codes "data/artwork";
  artwork_cache_max_bytes = mebi 512;
  subdl_url = codes "https://api.subdl.com";
  subtitle_cache_path = codes "data/subtitles";
  subtitle_cache_max_bytes = mebi 256;
  ffprobe_path = codes "/usr/bin/ffprobe";
  ffmpeg_path = codes "/usr/bin/ffmpeg";
  watched_threshold_percent = pos 90;
  max_concurrent_jobs = pos 10;
  title_refresh_timeout_minutes = pos 30;
}

validate_iff_example : (validate linux defaults ≡ none) ↔ IsValid linux defaults
validate_iff_example = validate_iff linux defaults
