-- ===== src/Trust/Tests.antt =====
-- Requests to a policy.
use torrent_tv.Prelude.{if◌then◌else◌, ◌≡◌, ◌↔◌, refl, true, none, some}
use torrent_tv.Prelude.Bytes.{codes, eqb, cut}
use torrent_tv.Trust.{Net, TrustPolicy, Request, is_admin_path, under_any, guard}
use torrent_tv.Trust.Admin.{reached, TrustedHost, TrustedOrigin, CorsOf, guard-admin, guard-CorsOf}

-- A network library that reads no address, and no URL but one.
abbrev net : Net
net = record {
  parse_url = λ s.
      if eqb s (codes "http://tv")
      then some (record { scheme = codes "http"; host = codes "tv"; hostname = codes "tv" })
      else none;
  parse_addr = λ s. none;
  split_host_port = λ s. elim (cut b':' s) [ none ↦ none | some (host, port) ↦ some host ];
}

abbrev policy : TrustPolicy
policy = record { origins = none; hosts = none }

abbrev ask : Request
ask = record {
  method = codes "PUT";
  host = codes "tv";
  path = codes "/api/v1/settings";
  origin = codes "http://tv";
}

guard-admin_example :
    (reached (guard net policy ask) ≡ true)
    ↔ (TrustedHost net none (codes "tv") × TrustedOrigin net none (codes "tv") (codes "http://tv"))
unfolding is_admin_path under_any eqb
guard-admin_example = guard-admin net policy ask refl

guard-CorsOf_example : CorsOf net policy ask (guard net policy ask)
guard-CorsOf_example = guard-CorsOf net policy ask
