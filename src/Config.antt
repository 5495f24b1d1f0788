-- ===== src/Config.antt =====
-- internal/platform/config/config.go: `validate`, the gate in front of every load and save of the
-- settings, with `mediaToolName` of mediatool.go. Texts are ASCII. net/url, net/netip, path/filepath
-- and float64 are parameters.
pub mod Providers
pub mod Checks
pub mod Validation
mod Tests
use torrent_tv.Prelude.{
  ℕ, ◌*◌, ◌^◌, Bool, true, false, not, ◌&&◌, ◌||◌, Option, none, some, List, [], ◌∷◌, null, any,
  if◌then◌else◌,
}
use torrent_tv.Prelude.Int.{ℤ, pos, ltb_ℤ, eqb_ℤ}
use torrent_tv.Prelude.Bytes.{Bytes, codes, eqb, lower, trim_space, contains}
use torrent_tv.Prelude.Texts.{has_prefix, either_text}
use torrent_tv.Trust.{without_slashes}

pub record Url : Type 0 where
  pub scheme : Bytes
  pub host : Bytes
  pub has_user : Bool

-- `url.Parse`, `netip.ParsePrefix`, `filepath.IsAbs`, and `filepath.Base` without the ".exe" of
-- Windows; and what the code asks of a float64.
pub record Host (F : Type 0) : Type 0 where
  pub parse_url : Bytes → Option Url
  pub is_network : Bytes → Bool
  pub is_abs : Bytes → Bool
  pub base : Bytes → Bytes
  pub is_nan : F → Bool
  pub is_inf : F → Bool
  pub lt : F → F → Bool
  pub is_nought : F → Bool
  pub nought : F
  pub tenth : F
  pub hundred_thousand : F

-- The settings that `validate` reads.
pub record Settings (F : Type 0) : Type 0 where
  pub instance_name : Bytes
  pub listen_address : Bytes
  pub trusted_networks : List Bytes
  pub database_path : Bytes
  pub download_root : Bytes
  pub pirate_bay_website_url : Bytes
  pub pirate_bay_api_url : Bytes
  pub download_engine : Bytes
  pub torrent_peer_port : ℤ
  pub torrent_public_peer_port : ℤ
  pub torrent_session_dir : Bytes
  pub initial_buffer_bytes : ℤ
  pub read_ahead_bytes : ℤ
  pub piece_wait_timeout_seconds : ℤ
  pub stream_start_bytes : ℤ
  pub allocation_gb : F
  pub reserve_gb : F
  pub eviction_rules : List Bytes
  pub metadata_providers : List Bytes
  pub artwork_cache_path : Bytes
  pub artwork_cache_max_bytes : ℤ
  pub subdl_url : Bytes
  pub subtitle_cache_path : Bytes
  pub subtitle_cache_max_bytes : ℤ
  pub ffprobe_path : Bytes
  pub ffmpeg_path : Bytes
  pub watched_threshold_percent : ℤ
  pub max_concurrent_jobs : ℤ
  pub title_refresh_timeout_minutes : ℤ

-- What the error is about.
pub data Fault : Type 0 where
  required initial_buffer read_ahead stream_start piece_wait allocation reserve : Fault
  watched_threshold subtitle_cache ffprobe ffmpeg artwork_cache : Fault
  subdl_absolute subdl_host pirate_bay concurrent_jobs refresh_timeout trusted : Fault
  engine peer_port public_peer_port same_ports session_dir unknown_rule unknown_provider : Fault

abbrev pub mebi : ℕ → ℤ
mebi n = pos (n * 2 ^ 20)

abbrev pub outside : ℤ → ℤ → ℤ → Bool
outside low high v = ltb_ℤ v low || ltb_ℤ high v

abbrev pub eviction_rule_atoms : List Bytes
eviction_rule_atoms =
    codes "oldest-completed"
    ∷ codes "newest-completed"
    ∷ codes "least-recently-played"
    ∷ codes "most-recently-played"
    ∷ codes "watched-first"
    ∷ codes "never-watched-first"
    ∷ codes "largest"
    ∷ codes "smallest"
    ∷ []

abbrev pub valid_eviction_rule : Bytes → Bool
valid_eviction_rule rule = contains eviction_rule_atoms (lower (trim_space rule))

abbrev pub atom_of : Bytes → Bytes
atom_of provider = lower (trim_space provider)

-- The loop of `NormalizeMetadataProviders`, with the ids that it has kept.
unfoldable pub normalize_from : List Bytes → List Bytes → List Bytes
unfolding lower trim_space eqb
normalize_from seen [] = []
normalize_from seen (p ∷ ps) =
    let kept = normalize_from (atom_of p ∷ seen) ps in
    let skipped = normalize_from seen ps in
    if not (null (atom_of p)) && not (contains seen (atom_of p)) then atom_of p ∷ kept else skipped

unfoldable pub normalize_metadata_providers : List Bytes → List Bytes
unfolding normalize_from
normalize_metadata_providers providers = normalize_from [] providers

abbrev pub is_known : Bytes → Bool
is_known = contains (codes "tmdb" ∷ codes "tvmaze" ∷ codes "jikan" ∷ [])

-- The first fault of a sequence of checks.
abbrev pub first_fault : List (Bool × Fault) → Option Fault
first_fault [] = none
first_fault ((bad, fault) ∷ checks) = if bad then some fault else first_fault checks

module _ {F : Type 0} (host : Host F) where
  -- `mediaToolName`
  abbrev pub bad_tool : Bytes → Bytes → Bool
  bad_tool path binary = not (host.is_abs path) || not (has_prefix (lower (host.base path)) binary)

  -- `validateRetentionGB`
  abbrev pub bad_gb : F → Bool
  bad_gb v =
      host.is_nan v
      || host.is_inf v
      || host.lt v host.nought
      || (not (host.is_nought v) && (host.lt v host.tenth || host.lt host.hundred_thousand v))

  abbrev pub not_absolute : Option Url → Bool
  not_absolute none = true
  not_absolute (some u) = null u.scheme || null u.host

  abbrev pub not_web : Option Url → Bool
  not_web none = true
  not_web (some u) =
      null u.scheme
      || null u.host
      || (not (eqb u.scheme (codes "http")) && not (eqb u.scheme (codes "https")))
      || u.has_user

  abbrev pub checks : Settings F → List (Bool × Fault)
  checks v =
      (
        null (trim_space v.instance_name)
            || null v.listen_address
            || null v.database_path
            || null v.download_root,
        required,
      )
      ∷ (outside (mebi 16) (mebi 2048) v.initial_buffer_bytes, initial_buffer)
      ∷ (outside v.initial_buffer_bytes (mebi 2048) v.read_ahead_bytes, read_ahead)
      ∷ (outside (pos (2 ^ 18)) (mebi 64) v.stream_start_bytes, stream_start)
      ∷ (ltb_ℤ v.piece_wait_timeout_seconds (pos 1), piece_wait)
      ∷ (bad_gb v.allocation_gb, allocation)
      ∷ (bad_gb v.reserve_gb, reserve)
      ∷ (outside (pos 50) (pos 100) v.watched_threshold_percent, watched_threshold)
      ∷ (
        null v.subtitle_cache_path || outside (mebi 1) (mebi 4096) v.subtitle_cache_max_bytes,
        subtitle_cache,
      )
      ∷ (bad_tool v.ffprobe_path (codes "ffprobe"), ffprobe)
      ∷ (bad_tool v.ffmpeg_path (codes "ffmpeg"), ffmpeg)
      ∷ (
        null v.artwork_cache_path || outside (mebi 16) (mebi 8192) v.artwork_cache_max_bytes,
        artwork_cache,
      )
      ∷ (not_absolute (host.parse_url v.subdl_url), subdl_absolute)
      ∷ (
        not (
            eqb (lower (trim_space (without_slashes v.subdl_url))) (codes "https://api.subdl.com")),
        subdl_host,
      )
      ∷ (
        not_web (host.parse_url (trim_space v.pirate_bay_website_url))
            || not_web (host.parse_url (trim_space v.pirate_bay_api_url)),
        pirate_bay,
      )
      ∷ (outside (pos 1) (pos 20) v.max_concurrent_jobs, concurrent_jobs)
      ∷ (outside (pos 5) (pos 120) v.title_refresh_timeout_minutes, refresh_timeout)
      ∷ (any (λ raw. not (host.is_network raw)) v.trusted_networks, trusted)
      ∷ (
        not (eqb v.download_engine (codes "native"))
            && not (eqb v.download_engine (codes "qbittorrent")),
        engine,
      )
      ∷ (outside (pos 0) (pos 65535) v.torrent_peer_port, peer_port)
      ∷ (outside (pos 0) (pos 65535) v.torrent_public_peer_port, public_peer_port)
      ∷ (
        not (eqb_ℤ v.torrent_peer_port (pos 0))
            && not (eqb_ℤ v.torrent_public_peer_port (pos 0))
            && eqb_ℤ v.torrent_peer_port v.torrent_public_peer_port,
        same_ports,
      )
      ∷ (null (trim_space v.torrent_session_dir), session_dir)
      ∷ (any (λ rule. not (valid_eviction_rule rule)) v.eviction_rules, unknown_rule)
      ∷ (
        any (λ p. not (is_known p)) (normalize_metadata_providers v.metadata_providers),
        unknown_provider,
      )
      ∷ []

  unfoldable pub validate : Settings F → Option Fault
  unfolding trim_space lower eqb has_prefix normalize_metadata_providers
  validate v = first_fault (checks v)
