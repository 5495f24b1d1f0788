-- ===== src/Trust/Admin.antt =====
-- What the guard lets through.
use torrent_tv.Prelude.{
  ◌≡◌, refl, ◌∙◌, ◌↔◌, ◌⊎◌, inl, inr, Bool, true, false, not, ◌&&◌, ◌||◌, Option, none, some,
  is_some, List, [], ◌∷◌, arith, if◌then◌else◌, null, Bool-cases,
}
use torrent_tv.Prelude.Bytes.{Bytes, codes, eqb, lower, contains}
use torrent_tv.Prelude.Texts.{has_prefix}
use torrent_tv.Trust.{
  Net, TrustPolicy, Request, Headers, Outcome, refused, answered, served, host_not_allowed,
  host_not_allowed_for_administration, origin_not_allowed, without_slashes, is_lan_name,
  is_tv_client_origin, is_lan_origin, is_admin_path, api_root, no_headers, vary_only, let_in,
  host_only, host_allowed, admin_host_allowed, same_origin, origin_allowed, guard,
}
use torrent_tv.Trust.Names.{has_prefix-is_admin_path, LanName, is_lan_name_iff}

abbrev pub reached : Outcome → Bool
reached (refused problem h) = false
reached (answered h) = true
reached (served h) = true

abbrev pub headers_of : Outcome → Headers
headers_of (refused problem h) = h
headers_of (answered h) = h
headers_of (served h) = h

module _ (net : Net) where
  abbrev pub TrustedHost : Option (List Bytes) → Bytes → Type 0
  TrustedHost none host =
      (is_some (net.parse_addr (host_only net host)) ≡ true) ⊎ LanName (host_only net host)
  TrustedHost (some hosts) host = contains hosts (host_only net host) ≡ true

  abbrev Listed : Option (List Bytes) → Bytes → Type 0
  Listed none origin = Unit
  Listed (some origins) origin = contains origins (without_slashes (lower origin)) ≡ true

  abbrev pub TrustedOrigin : Option (List Bytes) → Bytes → Bytes → Type 0
  TrustedOrigin origins host origin =
      (origin ≡ [])
      ⊎ ((same_origin net origin host ≡ true)
          ⊎ ((is_tv_client_origin origin ≡ true) × Listed origins origin))

  -- The guard as a function of its tests.
  abbrev verdict : Bool → Bool → Bool → Bool → Bool → Outcome → Outcome
  verdict ha api admin ah oa out =
      if not ha
      then refused host_not_allowed no_headers
      else if not api
      then served no_headers
      else if admin && not ah
      then refused host_not_allowed_for_administration vary_only
      else if not oa
      then refused origin_not_allowed vary_only
      else out

  guard-verdict :
      (p : TrustPolicy) (r : Request)
      → guard net p r
        ≡ verdict
            (host_allowed net p r.host)
            (has_prefix r.path api_root)
            (is_admin_path r.path)
            (admin_host_allowed net p r.host)
            (origin_allowed net p r.origin r.host (is_admin_path r.path))
            (let_in net r)
  unfolding guard
  guard-verdict p r = refl

  let_in-reached : (r : Request) → reached (let_in net r) ≡ true
  let_in-reached r = elim (Bool-cases (eqb r.method (codes "OPTIONS"))) [
    | inl e ↦ rw e refl
    | inr e ↦ rw e refl
  ]

  verdict-reached :
      (ha ah oa : Bool) (out : Outcome)
      → reached out ≡ true
      → reached (verdict ha true true ah oa out) ≡ (ha && (ah && oa))
  verdict-reached false ah oa out h = refl
  verdict-reached true false oa out h = refl
  verdict-reached true true false out h = refl
  verdict-reached true true true out h = h

  guard-reached :
      (p : TrustPolicy) (r : Request)
      → is_admin_path r.path ≡ true
      → reached (guard net p r) ≡ (
          host_allowed net p r.host
          && (admin_host_allowed net p r.host && origin_allowed net p r.origin r.host true))
  guard-reached p r h =
      rw (guard-verdict p r, h, has_prefix-is_admin_path r.path h)
        (verdict-reached (host_allowed net p r.host) (admin_host_allowed net p r.host)
          (origin_allowed net p r.origin r.host true) (let_in net r) (let_in-reached r))

  hosts_lem :
      (origins hosts : Option (List Bytes)) (host : Bytes)
      → ((host_allowed net (record { origins = origins; hosts = hosts }) host
            && admin_host_allowed net (record { origins = origins; hosts = hosts }) host)
          ≡ true)
        ↔ TrustedHost hosts host
  unfolding host_allowed admin_host_allowed
  hosts_lem origins none host = (to, from)
    where
      to :
          (is_some (net.parse_addr (host_only net host)) || is_lan_name (host_only net host)) ≡ true
          → TrustedHost none host
      to e = elim (Bool-cases (is_some (net.parse_addr (host_only net host)))) [
        | inl f ↦ inl f
        | inr f ↦ inr ((is_lan_name_iff (host_only net host)).0 (ground arith))
      ]

      from :
          TrustedHost none host
          → (is_some (net.parse_addr (host_only net host)) || is_lan_name (host_only net host))
            ≡ true
      from (inl f) = ground arith
      from (inr l) = let f = (is_lan_name_iff (host_only net host)).1 l in ground arith
  hosts_lem origins (some hosts) host = ((λ e. ground arith), (λ e. ground arith))

  unlisted :
      (same client lan : Bool)
      → ((if false || same then true else client || (not true && lan)) ≡ true)
        ↔ ((same ≡ true) ⊎ (client ≡ true))
  unlisted true client lan = ((λ e. inl refl), (λ e. refl))
  unlisted false true lan = ((λ e. inr refl), (λ e. refl))
  unlisted false false lan = ((λ e. cc), (λ e. elim e [ inl f ↦ f | inr f ↦ f ]))

  listed :
      (same client there : Bool)
      → ((if false || same then true else there && (not true || client)) ≡ true)
        ↔ ((same ≡ true) ⊎ ((client ≡ true) × (there ≡ true)))
  listed true client there = ((λ e. inl refl), (λ e. refl))
  listed false true true = ((λ e. inr (refl, refl)), (λ e. refl))
  listed false true false = ((λ e. cc), (λ e. elim e [ inl f ↦ f | inr f ↦ f.1 ]))
  listed false false true = ((λ e. cc), (λ e. elim e [ inl f ↦ f | inr f ↦ f.0 ]))
  listed false false false = ((λ e. cc), (λ e. elim e [ inl f ↦ f | inr f ↦ f.0 ]))

  origin_lem :
      (origins hosts : Option (List Bytes)) (origin host : Bytes)
      → (origin_allowed net (record { origins = origins; hosts = hosts }) origin host true ≡ true)
        ↔ TrustedOrigin origins host origin
  unfolding origin_allowed
  origin_lem origins hosts [] host = ((λ e. inl refl), (λ e. refl))
  origin_lem none hosts (c ∷ o) host =
      let t =
        unlisted (same_origin net (c ∷ o) host) (is_tv_client_origin (c ∷ o))
          (is_lan_origin net (c ∷ o)) in
      (
        (λ e. inr (elim (t.0 e) [ inl f ↦ inl f | inr f ↦ inr (f, tt) ])),
        (λ h. elim h [ inl e ↦ cc | inr k ↦ t.1 (elim k [ inl f ↦ inl f | inr f ↦ inr f.0 ]) ]),
      )
  origin_lem (some origins) hosts (c ∷ o) host =
      let t =
        listed (same_origin net (c ∷ o) host) (is_tv_client_origin (c ∷ o))
          (contains origins (without_slashes (lower (c ∷ o)))) in
      ((λ e. inr (t.0 e)), (λ h. elim h [ inl e ↦ cc | inr k ↦ t.1 k ]))

  -- A request to the administration surface gets through the guard exactly if its Host is trusted (it
  -- is in the configured list, or with no list is an address or a name of the local network) and its
  -- Origin is missing, the server itself, or a packaged TV client that is in the configured list, if
  -- there is one.
  pub guard-admin :
      (p : TrustPolicy) (r : Request)
      → is_admin_path r.path ≡ true
      → (reached (guard net p r) ≡ true)
        ↔ (TrustedHost p.hosts r.host × TrustedOrigin p.origins r.host r.origin)
  guard-admin p r h =
      let e = guard-reached p r h in
      let hosts = hosts_lem p.origins p.hosts r.host in
      let origins = origin_lem p.origins p.hosts r.origin r.host in
      (
        (λ a. (hosts.0 (ground arith), origins.0 (ground arith))),
        (λ (a, b). let x = hosts.1 a in let y = origins.1 b in ground arith),
      )

  verdict_allow :
      (ha api admin ah oa : Bool) (out : Outcome) (origin : Bytes)
      → (headers_of (verdict ha api admin ah oa out)).allow_origin ≡ some origin
      → ((headers_of out).allow_origin ≡ some origin)
        × (api ≡ true)
        × (oa ≡ true)
        × (reached (verdict ha api admin ah oa out) ≡ reached out)
  verdict_allow false api admin ah oa out origin e = cc
  verdict_allow true false admin ah oa out origin e = cc
  verdict_allow true true true false oa out origin e = cc
  verdict_allow true true true true false out origin e = cc
  verdict_allow true true true true true out origin e = (e, refl, refl, refl)
  verdict_allow true true false ah false out origin e = cc
  verdict_allow true true false ah true out origin e = (e, refl, refl, refl)

  let_in_allow :
      (r : Request) (origin : Bytes)
      → (headers_of (let_in net r)).allow_origin ≡ some origin
      → origin ≡ r.origin
  let_in_allow r origin e = own (null r.origin) (same_either (eqb r.method (codes "OPTIONS")) e)
    where
      allow : Bool → Option Bytes
      allow b = if b then none else some r.origin

      sent : Headers
      sent = record vary_only { allow_origin = allow (null r.origin) }

      same_either :
          (b : Bool)
          → (headers_of
              (if b then answered (record sent { preflight = true }) else served sent)).allow_origin
            ≡ some origin
          → allow (null r.origin) ≡ some origin
      same_either true e = e
      same_either false e = e

      own : (b : Bool) → allow b ≡ some origin → origin ≡ r.origin
      own true e = cc
      own false e = cc

  abbrev pub CorsOf : TrustPolicy → Request → Outcome → Type 0
  CorsOf p r out =
      (origin : Bytes)
      → (headers_of out).allow_origin ≡ some origin
      → (origin ≡ r.origin)
        × (reached out ≡ true)
        × (has_prefix r.path api_root ≡ true)
        × (origin_allowed net p r.origin r.host (is_admin_path r.path) ≡ true)

  -- The guard shares a response with no other origin than the one that asked, and only on the API and
  -- with an origin that the policy allows for the tier of the path.
  pub guard-CorsOf : (p : TrustPolicy) (r : Request) → CorsOf p r (guard net p r)
  guard-CorsOf p r = rw (guard-verdict p r) (λ origin e.
      let (ha, api, oa, own) =
        verdict_allow (host_allowed net p r.host) (has_prefix r.path api_root)
          (is_admin_path r.path) (admin_host_allowed net p r.host)
          (origin_allowed net p r.origin r.host (is_admin_path r.path)) (let_in net r) origin e in
      (let_in_allow r origin ha, own ∙ let_in-reached r, api, oa))

  origin_tiers :
      (origins hosts : Option (List Bytes)) (origin host : Bytes)
      → origin_allowed net (record { origins = origins; hosts = hosts }) origin host true ≡ true
      → origin_allowed net (record { origins = origins; hosts = hosts }) origin host false ≡ true
  unfolding origin_allowed
  origin_tiers none hosts origin host h =
      weaker (null origin || same_origin net origin host) (is_tv_client_origin origin)
        (is_lan_origin net origin) h
    where
      weaker :
          (b t l : Bool)
          → (if b then true else t || (not true && l)) ≡ true
          → (if b then true else t || (not false && l)) ≡ true
      weaker b t l h = ground arith
  origin_tiers (some origins) hosts origin host h =
      weaker (null origin || same_origin net origin host) (is_tv_client_origin origin)
        (contains origins (without_slashes (lower origin))) h
    where
      weaker :
          (b t l : Bool)
          → (if b then true else l && (not true || t)) ≡ true
          → (if b then true else l && (not false || t)) ≡ true
      weaker b t l h = ground arith

  verdict_open :
      (ha ah : Bool) (api admin : Bool) (oa : Bool → Bool) (out : Outcome)
      → ha ≡ true
      → ah ≡ true
      → oa true ≡ true
      → oa false ≡ true
      → reached out ≡ true
      → reached (verdict ha api admin ah (oa admin) out) ≡ true
  verdict_open ha ah false admin oa out h k t f o = rw h refl
  verdict_open ha ah true true oa out h k t f o = rw (h, k, t) o
  verdict_open ha ah true false oa out h k t f o = rw (h, f) o

  -- Who reaches administration reaches every other path of the server with the same Host, Origin and
  -- method.
  pub guard_tiers :
      (p : TrustPolicy) (r : Request) (path : Bytes)
      → is_admin_path r.path ≡ true
      → reached (guard net p r) ≡ true
      → reached (guard net p (record r { path = path })) ≡ true
  guard_tiers p r path a h =
      let e = guard-reached p r a in
      let oa : origin_allowed net p r.origin r.host true ≡ true = ground arith in
      rw (guard-verdict p (record r { path = path })) (
        verdict_open (host_allowed net p r.host) (admin_host_allowed net p r.host)
          (has_prefix path api_root) (is_admin_path path)
          (λ admin. origin_allowed net p r.origin r.host admin)
          (let_in net (record r { path = path })) (ground arith) (ground arith) oa
          (origin_tiers p.origins p.hosts r.origin r.host oa)
          (let_in-reached (record r { path = path })))
