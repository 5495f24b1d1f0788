-- ===== src/Config/Validation.antt =====
-- What settings pass `validate`.
use torrent_tv.Prelude.{
  ℕ, ◌^◌, ◌≤◌, ◌≡◌, ◌≢◌, ◌↔◌, ◌⊎◌, refl, sym, ap, ◌∙◌, Bool, true, false, not, ◌&&◌, ◌||◌, Option,
  none, some, [], In, null, arith,
}
use torrent_tv.Prelude.Int.{pos, pos_part}
use torrent_tv.Prelude.Bytes.{Bytes, codes, lower, trim_space}
use torrent_tv.Prelude.Texts.{has_prefix}
use torrent_tv.Trust.{without_slashes}
use torrent_tv.Config.{
  Url, Host, Settings, valid_eviction_rule, atom_of, is_known, bad_tool, bad_gb, not_absolute,
  not_web, checks, validate,
}
use torrent_tv.Config.Checks.{
  Within, Filled, outside_iff, outside_above, at_least_one, or_iff, not_iff, same, clash, any_iff,
  Clean, first_fault-Clean, step, eqb_absent, either_iff, ports_iff, providers_iff,
}

module _ {F : Type 0} (host : Host F) where
  abbrev pub IsTool : Bytes → Bytes → Type 0
  IsTool path binary =
      (host.is_abs path ≡ true) × (has_prefix (lower (host.base path)) binary ≡ true)

  -- 0, or from 0.1 to 100000.
  abbrev pub IsSize : F → Type 0
  IsSize v =
      (((host.is_nan v ≡ false) × (host.is_inf v ≡ false)) × (host.lt v host.nought ≡ false))
      × ((host.is_nought v ≡ true)
          ⊎ ((host.lt v host.tenth ≡ false) × (host.lt host.hundred_thousand v ≡ false)))

  abbrev pub IsAbsolute : Bytes → Type 0
  IsAbsolute raw = (u : Url) × (host.parse_url raw ≡ some u) × (Filled u.scheme × Filled u.host)

  abbrev pub IsWeb : Bytes → Type 0
  IsWeb raw =
      (u : Url) × (host.parse_url raw ≡ some u)
      × (((Filled u.scheme × Filled u.host)
            × ((u.scheme ≡ codes "http") ⊎ (u.scheme ≡ codes "https")))
          × (u.has_user ≡ false))

  IsTool-iff : (path binary : Bytes) → (bad_tool host path binary ≡ false) ↔ IsTool path binary
  IsTool-iff path binary =
      or_iff (not_iff (host.is_abs path)) (not_iff (has_prefix (lower (host.base path)) binary))

  IsSize-iff : (v : F) → (bad_gb host v ≡ false) ↔ IsSize v
  IsSize-iff v =
      or_iff
        (or_iff (or_iff (same (host.is_nan v)) (same (host.is_inf v)))
          (same (host.lt v host.nought)))
        (within (host.is_nought v) (host.lt v host.tenth) (host.lt host.hundred_thousand v))
    where
      within :
          (a b c : Bool)
          → ((not a && (b || c)) ≡ false) ↔ ((a ≡ true) ⊎ ((b ≡ false) × (c ≡ false)))
      within a b c = ground arith

  parsed_iff :
      {P : Url → Type 0} (bad : Option Url → Bool) (raw : Bytes)
      → bad none ≡ true
      → ((u : Url) → (bad (some u) ≡ false) ↔ P u)
      → (bad (host.parse_url raw) ≡ false) ↔ ((u : Url) × (host.parse_url raw ≡ some u) × P u)
  parsed_iff {P} bad raw n h = go (host.parse_url raw)
    where
      go : (o : Option Url) → (bad o ≡ false) ↔ ((u : Url) × (o ≡ some u) × P u)
      go none = ((λ e. absurd (clash (sym n ∙ e))), (λ (u, e, p). absurd (cc)))
      go (some w) = ((λ e. (w, refl, (h w).0 e)), (λ (u, e, p). ap bad e ∙ (h u).1 p))

  IsAbsolute-iff : (raw : Bytes) → (not_absolute host (host.parse_url raw) ≡ false) ↔ IsAbsolute raw
  IsAbsolute-iff raw =
      parsed_iff (not_absolute host) raw refl
        (λ u. or_iff (same (null u.scheme)) (same (null u.host)))

  IsWeb-iff : (raw : Bytes) → (not_web host (host.parse_url raw) ≡ false) ↔ IsWeb raw
  IsWeb-iff raw = parsed_iff {P = web} (not_web host) raw refl (λ u.
      or_iff
        (or_iff (or_iff (same (null u.scheme)) (same (null u.host)))
          (either_iff u.scheme (codes "http") (codes "https")))
        (same u.has_user))
    where
      web : Url → Type 0
      web u =
          ((Filled u.scheme × Filled u.host)
            × ((u.scheme ≡ codes "http") ⊎ (u.scheme ≡ codes "https")))
          × (u.has_user ≡ false)

  abbrev pub IsValid : Settings F → Type 0
  IsValid v =
      (((Filled (trim_space v.instance_name) × Filled v.listen_address) × Filled v.database_path)
        × Filled v.download_root)
      × (Within (2 ^ 24) (2 ^ 31) v.initial_buffer_bytes
          × (Within (pos_part v.initial_buffer_bytes) (2 ^ 31) v.read_ahead_bytes
              × (Within (2 ^ 18) (2 ^ 26) v.stream_start_bytes
                  × (((n : ℕ) × (v.piece_wait_timeout_seconds ≡ pos n) × (1 ≤ n))
                      × (IsSize v.allocation_gb
                          × (IsSize v.reserve_gb
                              × (Within 50 100 v.watched_threshold_percent
                                  × ((Filled v.subtitle_cache_path
                                        × Within (2 ^ 20) (2 ^ 32) v.subtitle_cache_max_bytes)
                                      × (IsTool v.ffprobe_path (codes "ffprobe")
                                          × (IsTool v.ffmpeg_path (codes "ffmpeg")
                                              × ((Filled v.artwork_cache_path
                                                    × Within (2 ^ 24) (2 ^ 33)
                                                        v.artwork_cache_max_bytes)
                                                  × (IsAbsolute v.subdl_url
                                                      × ((lower (
                                                            trim_space
                                                            (without_slashes v.subdl_url))
                                                            ≡ codes "https://api.subdl.com")
                                                          × ((IsWeb
                                                            (trim_space v.pirate_bay_website_url)
                                                            × IsWeb
                                                            (trim_space v.pirate_bay_api_url))
                                                            × (Within 1 20 v.max_concurrent_jobs
                                                            × (Within 5 120
                                                            v.title_refresh_timeout_minutes
                                                            × (((raw : Bytes)
                                                            → In raw v.trusted_networks
                                                            → host.is_network raw ≡ true)
                                                            × (((v.download_engine ≡ codes "native")
                                                            ⊎ (v.download_engine
                                                            ≡ codes "qbittorrent"))
                                                            × (Within 0 65535 v.torrent_peer_port
                                                            × (Within 0 65535
                                                            v.torrent_public_peer_port
                                                            × (((v.torrent_peer_port ≡ pos 0)
                                                            ⊎ ((v.torrent_public_peer_port ≡ pos 0)
                                                            ⊎ (v.torrent_peer_port
                                                            ≢ v.torrent_public_peer_port)))
                                                            × (Filled
                                                            (trim_space v.torrent_session_dir)
                                                            × (((rule : Bytes)
                                                            → In rule v.eviction_rules
                                                            → valid_eviction_rule rule ≡ true)
                                                            × (((p : Bytes)
                                                            → In p v.metadata_providers
                                                            → (atom_of p ≡ [])
                                                            ⊎ (is_known (atom_of p) ≡ true))
                                                            × Unit))))))))))))))))))))))))

  -- Settings pass exactly if they are valid.
  pub validate_iff : (v : Settings F) → (validate host v ≡ none) ↔ IsValid v
  unfolding validate
  validate_iff v =
      let c = first_fault-Clean (checks host v) in
      let d = steps in ((λ h. d.0 (c.0 h)), (λ h. c.1 (d.1 h)))
    where
      steps : Clean (checks host v) ↔ IsValid v
      steps =
          step
            (or_iff
              (or_iff
                (or_iff (same (null (trim_space v.instance_name))) (same (null v.listen_address)))
                (same (null v.database_path)))
              (same (null v.download_root)))
            (λ a. step (outside_iff (2 ^ 24) (2 ^ 31) v.initial_buffer_bytes) (λ w.
              step
                (outside_above (2 ^ 24) (2 ^ 31) v.initial_buffer_bytes v.read_ahead_bytes (2 ^ 31)
                  w)
                (λ a. step (outside_iff (2 ^ 18) (2 ^ 26) v.stream_start_bytes) (λ a.
                  step (at_least_one v.piece_wait_timeout_seconds) (λ a.
                    step (IsSize-iff v.allocation_gb) (λ a. step (IsSize-iff v.reserve_gb) (λ a.
                      step (outside_iff 50 100 v.watched_threshold_percent) (λ a.
                        step
                          (or_iff (same (null v.subtitle_cache_path))
                            (outside_iff (2 ^ 20) (2 ^ 32) v.subtitle_cache_max_bytes))
                          (λ a. step (IsTool-iff v.ffprobe_path (codes "ffprobe")) (λ a.
                            step (IsTool-iff v.ffmpeg_path (codes "ffmpeg")) (λ a.
                              step
                                (or_iff (same (null v.artwork_cache_path))
                                  (outside_iff (2 ^ 24) (2 ^ 33) v.artwork_cache_max_bytes))
                                (λ a. step (IsAbsolute-iff v.subdl_url) (λ a.
                                  step
                                    (eqb_absent (lower (trim_space (without_slashes v.subdl_url)))
                                      (codes "https://api.subdl.com"))
                                    (λ a.
                                      step
                                        (or_iff (IsWeb-iff (trim_space v.pirate_bay_website_url))
                                          (IsWeb-iff (trim_space v.pirate_bay_api_url)))
                                        (λ a. step (outside_iff 1 20 v.max_concurrent_jobs) (λ a.
                                          step (outside_iff 5 120 v.title_refresh_timeout_minutes)
                                            (λ a.
                                              step
                                                (any_iff (λ raw. not (host.is_network raw))
                                                  v.trusted_networks
                                                  (λ raw. not_iff (host.is_network raw)))
                                                (λ a.
                                                  step
                                                    (either_iff v.download_engine (codes "native")
                                                      (codes "qbittorrent"))
                                                    (λ a.
                                                      step (outside_iff 0 65535 v.torrent_peer_port)
                                                        (λ a.
                                                          step
                                                            (outside_iff 0 65535
                                                            v.torrent_public_peer_port)
                                                            (λ a.
                                                            step
                                                            (ports_iff v.torrent_peer_port
                                                            v.torrent_public_peer_port)
                                                            (λ a.
                                                            step
                                                            (same (
                                                            null
                                                            (trim_space v.torrent_session_dir)))
                                                            (λ a.
                                                            step
                                                            (any_iff
                                                            (λ r. not (valid_eviction_rule r))
                                                            v.eviction_rules
                                                            (λ r. not_iff (valid_eviction_rule r)))
                                                            (λ a.
                                                            step
                                                            (providers_iff v.metadata_providers)
                                                            (λ a. (
                                                            (λ u. u),
                                                            (λ u. u),
                                                            ))))))))))))))))))))))))))
