-- ===== src/Trust.antt =====
-- internal/adapters/httpapi/trust.go: which requests may reach the API. Hosts and origins are ASCII.
-- A Go set is a list with its membership test, and `none` where the map is nil.
pub mod Names
pub mod Admin
pub mod Policy
mod Tests
use torrent_tv.Prelude.{
  ℕ, ◌≡◌, Bool, true, false, not, ◌&&◌, ◌||◌, Option, none, some, is_some, List, [], ◌∷◌, ◌++◌, map,
  ◌==◌, if◌then◌else◌, null,
}
use torrent_tv.Prelude.Bytes.{Bytes, codes, eqb, contains, lower, trim_space}
use torrent_tv.Prelude.Texts.{has_prefix, has_suffix, has_byte, drop_left, drop_right, split}

-- What the code reads of a parsed URL, and of a parsed address after `Unmap`.
pub record Url : Type 0 where
  pub scheme : Bytes
  pub host : Bytes
  pub hostname : Bytes

pub record Address : Type 0 where
  pub is_loopback : Bool
  pub is_private : Bool
  pub is_link_local_unicast : Bool

-- `url.Parse`, `netip.ParseAddr` and the host of `net.SplitHostPort`; `none` is an error.
pub record Net : Type 0 where
  pub parse_url : Bytes → Option Url
  pub parse_addr : Bytes → Option Address
  pub split_host_port : Bytes → Option Bytes

pub record TrustPolicy : Type 0 where
  pub origins : Option (List Bytes)
  pub hosts : Option (List Bytes)

pub record Request : Type 0 where
  pub method : Bytes
  pub host : Bytes
  pub path : Bytes
  pub origin : Bytes

-- The headers that the guard sets: `Vary`, `Access-Control-Allow-Origin` with
-- `Access-Control-Expose-Headers`, and the three of a preflight.
pub record Headers : Type 0 where
  pub vary_origin : Bool
  pub allow_origin : Option Bytes
  pub preflight : Bool

pub data Problem : Type 0 where
  host_not_allowed host_not_allowed_for_administration origin_not_allowed : Problem

-- Refused with status 403, answered with status 204, or handed to the next handler.
pub data Outcome : Type 0 where
  refused : Problem → Headers → Outcome
  answered served : Headers → Outcome

-- The loop of `splitList` over the parts.
unfoldable pub split_parts : List Bytes → List Bytes
unfolding lower trim_space
split_parts [] = []
split_parts (part ∷ parts) =
    let atom = lower (trim_space part) in
    let rest = split_parts parts in if null atom then rest else atom ∷ rest

unfoldable pub split_list : Bytes → List Bytes
unfolding split_parts split
split_list raw = split_parts (split b',' raw)

-- `strings.TrimRight(o, "/")` and `strings.Trim(h, "[]")`.
abbrev pub without_slashes : Bytes → Bytes
without_slashes = drop_right (λ c. c == b'/')

abbrev is_bracket : ℕ → Bool
is_bracket c = c == b'[' || c == b']'

abbrev pub without_brackets : Bytes → Bytes
without_brackets s = drop_right is_bracket (drop_left is_bracket s)

abbrev pub lan_suffixes : List Bytes
lan_suffixes = codes ".local" ∷ codes ".lan" ∷ codes ".home.arpa" ∷ []

abbrev pub any_suffix : Bytes → List Bytes → Bool
any_suffix h [] = false
any_suffix h (suffix ∷ rest) = has_suffix h suffix || any_suffix h rest

unfoldable pub is_lan_name : Bytes → Bool
unfolding has_suffix has_byte eqb
is_lan_name h =
    if null h
    then false
    else if eqb h (codes "localhost") || not (has_byte h b'.')
    then true
    else any_suffix h lan_suffixes

abbrev pub builtin_client_origins : List Bytes
builtin_client_origins = codes "https://appassets.androidplatform.net" ∷ []

unfoldable pub is_tv_client_origin : Bytes → Bool
unfolding drop_right lower eqb
is_tv_client_origin origin =
    let l = without_slashes (lower origin) in
    eqb l (codes "null") || contains builtin_client_origins l

abbrev pub api_root : Bytes
api_root = codes "/api/v1"

abbrev pub admin_prefixes : List Bytes
admin_prefixes =
    codes "/api/v1/settings" ∷ codes "/api/v1/dependencies" ∷ codes "/api/v1/updates" ∷ []

unfoldable pub under_any : Bytes → List Bytes → Bool
unfolding has_prefix eqb
under_any path [] = false
under_any path (prefix ∷ rest) =
    eqb path prefix || has_prefix path (prefix ++ b'/' ∷ []) || under_any path rest

unfoldable pub is_admin_path : Bytes → Bool
unfolding under_any
is_admin_path path = under_any path admin_prefixes

abbrev is_web : Url → Bool
is_web u = eqb u.scheme (codes "http") || eqb u.scheme (codes "https")

abbrev pub no_headers : Headers
no_headers = record { vary_origin = false; allow_origin = none; preflight = false }

abbrev pub vary_only : Headers
vary_only = record no_headers { vary_origin = true }

module _ (net : Net) where
  abbrev pub host_or : Bytes → Option Bytes → Bytes
  host_or h none = without_brackets h
  host_or h (some host) = host

  unfoldable pub host_only : Bytes → Bytes
  unfolding drop_left drop_right lower trim_space
  host_only hostport = let h = lower (trim_space hostport) in host_or h (net.split_host_port h)

  abbrev pub set_of : (Bytes → Bytes) → List Bytes → Option (List Bytes)
  set_of f [] = none
  set_of f (x ∷ xs) = some (map f (x ∷ xs))

  -- `newTrustPolicy`, of the values of its two environment variables.
  unfoldable pub new_trust_policy : Bytes → Bytes → TrustPolicy
  unfolding split_list host_only drop_right
  new_trust_policy allowed_origins allowed_hosts = record {
    origins = set_of without_slashes (split_list allowed_origins);
    hosts = set_of host_only (split_list allowed_hosts);
  }

  unfoldable pub host_allowed : TrustPolicy → Bytes → Bool
  unfolding host_only eqb
  host_allowed p hostport = elim (p.hosts) [
    | none ↦ true
    | some hosts ↦ contains hosts (host_only hostport)
  ]

  abbrev lan_host : Bytes → Option Address → Bool
  lan_host h none = is_lan_name h
  lan_host h (some a) = a.is_loopback || a.is_private || a.is_link_local_unicast

  abbrev web_lan : Option Url → Bool
  web_lan none = false
  web_lan (some u) =
      let h = lower u.hostname in
      if not (is_web u) || null h then false else lan_host h (net.parse_addr h)

  unfoldable pub is_lan_origin : Bytes → Bool
  unfolding is_lan_name lower
  is_lan_origin origin = web_lan (net.parse_url origin)

  unfoldable pub admin_host_allowed : TrustPolicy → Bytes → Bool
  unfolding host_only is_lan_name eqb
  admin_host_allowed p hostport = elim (p.hosts) [
    | some hosts ↦ contains hosts (host_only hostport)
    | none ↦ is_some (net.parse_addr (host_only hostport)) || is_lan_name (host_only hostport)
  ]

  -- `strings.EqualFold` of ASCII texts compares them in lower case.
  abbrev same_host : Bytes → Option Url → Bool
  same_host host none = false
  same_host host (some u) = is_web u && not (null u.host) && eqb (lower u.host) (lower host)

  unfoldable pub same_origin : Bytes → Bytes → Bool
  unfolding lower eqb
  same_origin origin host = same_host host (net.parse_url origin)

  unfoldable pub origin_allowed : TrustPolicy → Bytes → Bytes → Bool → Bool
  unfolding same_origin is_tv_client_origin is_lan_origin lower drop_right eqb
  origin_allowed p origin host admin =
      if null origin || same_origin origin host then true else (elim (p.origins) [
        | some origins ↦
            contains origins (without_slashes (lower origin))
            && (not admin || is_tv_client_origin origin)
        | none ↦ is_tv_client_origin origin || (not admin && is_lan_origin origin)
      ])

  abbrev pub let_in : Request → Outcome
  let_in r =
      let h = record vary_only { allow_origin = if null r.origin then none else some r.origin } in
      if eqb r.method (codes "OPTIONS") then answered (record h { preflight = true }) else served h

  unfoldable pub guard : TrustPolicy → Request → Outcome
  unfolding host_allowed has_prefix is_admin_path admin_host_allowed origin_allowed eqb
  guard p r =
      let admin = is_admin_path r.path in
      if not (host_allowed p r.host)
      then refused host_not_allowed no_headers
      else if not (has_prefix r.path api_root)
      then served no_headers
      else if admin && not (admin_host_allowed p r.host)
      then refused host_not_allowed_for_administration vary_only
      else if not (origin_allowed p r.origin r.host admin)
      then refused origin_not_allowed vary_only
      else let_in r
