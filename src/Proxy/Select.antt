-- ===== src/Proxy/Select.antt =====
-- sushi_proxy.go: selectUpstreamWithRetry, and GetUpstreamConfigForService of hash_extractor.go.
-- The service registry, net.SplitHostPort and filepath.Clean are parameters.
use sushi_gateway.Prelude.{
  ℕ, String, true, Option, none, some, List, [], ◌∷◌, ◌++◌, if◌then◌else◌, get_elem?, str_eq,
}
use sushi_gateway.Prelude.Dict.{or_default}
use sushi_gateway.Prelude.Text.{codes}
use sushi_gateway.Model.{Bytes, Service, Route, UpstreamTarget, UpstreamConfig, ProxyConfig}
use sushi_gateway.Http.{Request, HttpError, Cookie}
use sushi_gateway.Balancer.Interface.{Shared, LoadBalancer}
use sushi_gateway.Proxy.Path.{strip_matched_path}

unfoldable pub find_config : String → List UpstreamConfig → Option UpstreamConfig
find_config host [] = none
find_config host (c ∷ cs) =
    let rest = find_config host cs in if str_eq c.name host then some c else rest

-- `none` is a nil configuration
unfoldable pub get_upstream_config_for_service :
    Option ProxyConfig → Service → Option UpstreamConfig
unfolding find_config
get_upstream_config_for_service none s = none
get_upstream_config_for_service (some config) s =
    if str_eq s.host "" then none else find_config s.host config.upstreams

-- what code outside the gateway gives: the registry of service discovery, which may be missing
-- and where a name may have no URL; the host of an address; the cleaned form of a path
pub record Lookups : Type 0 where
  pub registry : Option (String → Option Bytes)
  pub split_host_port : String → Option String
  pub clean : Bytes → Bytes

-- the four results: an error; or an upstream, which may be nil, a URL and a cookie
pub data Selected : Type 0 where
  refused : HttpError → Selected
  chosen : Option UpstreamTarget → Bytes → Option Cookie → Selected

-- GetHostIp, whose error is dropped at this call
abbrev client_ip : Lookups → Request → String
client_ip env req = or_default (env.split_host_port req.remote_addr) ""

abbrev tags_of : Option Route → List String
tags_of none = []
tags_of (some r) = r.upstream_tags

unfoldable pub forwarded_path : Lookups → Option Route → Bytes → Bytes
forwarded_path env none path = path
forwarded_path env (some r) path =
    if or_default r.strip_path true then strip_matched_path env.clean path r else path

-- fmt.Sprintf("%s://%s%s", ...)
abbrev pub proxy_url : Service → UpstreamTarget → Bytes → Bytes
proxy_url s u path = codes s.protocol ++ codes "://" ++ codes u.target ++ path

abbrev no_upstreams : Selected
no_upstreams = refused (record { http_code = 503; code = "ERROR_NO_UPSTREAMS_AVAILABLE" })

module _ {σ : Type 0} (lb : LoadBalancer σ) (env : Lookups) (config : Option ProxyConfig)
    (s : Service) (route : Option Route) (req : Request) where
  -- the upstream at the index; the code panics where there is none
  unfoldable pub at_index : Option Cookie → Option UpstreamTarget → Option Selected
  unfolding forwarded_path
  at_index cookie none = none
  at_index cookie (some u) =
      some (chosen (some u) (proxy_url s u (forwarded_path env route req.path)) cookie)

  unfoldable pub conclude : Option Cookie → Option ℕ → Option Selected
  unfolding at_index
  conclude cookie none = some no_upstreams
  conclude cookie (some i) = at_index cookie (get_elem? s.upstreams i)

  -- the index of the upstream, with the cookie to set
  unfoldable pub next_index : σ → Shared → List String → (Option ℕ × Option Cookie) × σ
  unfolding get_upstream_config_for_service
  next_index b sh [] =
      lb.next_with_request b sh s req (get_upstream_config_for_service config s) (tags_of route)
  next_index b sh (f ∷ failed) =
      let (i, b') = lb.next_with_retry b sh s (client_ip env req) (f ∷ failed) (tags_of route) in
      ((i, none), b')

  -- after service discovery and the direct URL
  unfoldable pub balance : σ → Shared → List String → Option Selected × σ
  unfolding conclude next_index
  balance b sh failed = let ((i, cookie), b') = next_index b sh failed in (conclude cookie i, b')

  unfoldable pub direct_or_balance : σ → Shared → List String → Option Selected × σ
  unfolding balance
  direct_or_balance b sh failed =
      if str_eq s.url "" then balance b sh failed else (some (chosen none (codes s.url) none), b)

  unfoldable pub discovered : Option Bytes → Selected
  discovered none = refused (record { http_code = 502; code = "SERVICE_DISCOVERY_ERROR" })
  discovered (some url) = chosen none url none

  unfoldable pub discover :
      Option (String → Option Bytes) → σ → Shared → List String → Option Selected × σ
  unfolding discovered direct_or_balance
  discover none b sh failed = direct_or_balance b sh failed
  discover (some registry) b sh failed = (some (discovered (registry s.service_name)), b)

  -- `none` is a panic: an index out of range
  unfoldable pub select_upstream_with_retry : σ → Shared → List String → Option Selected × σ
  unfolding discover direct_or_balance
  select_upstream_with_retry b sh failed =
      if str_eq s.service_name ""
      then direct_or_balance b sh failed
      else discover env.registry b sh failed
