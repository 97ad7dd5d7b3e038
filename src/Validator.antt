-- ===== src/Validator.antt =====
-- sushi-proxy/internal/gateway: proxy_config_validator.go (ValidateConfig), service_validator.go,
-- route_validator.go and plugin_validator.go. An error is the reason that the code's message
-- gives; `none` is Go's nil error.
pub mod Checks
pub mod Paths
pub mod Services
pub mod Routes
pub mod Config
pub mod Ids
mod Tests
use sushi_gateway.Prelude.{
  ℕ, suc, String, ◌+◌, Bool, true, false, ◌&&◌, ◌||◌, not, Option, none, some, List, [], ◌∷◌, ◌++◌,
  map, if◌then◌else◌, str_eq, length, ltb, ◌==◌,
}
use sushi_gateway.Prelude.Text.{bytes_eq, starts_with_byte, ends_with_byte}
use sushi_gateway.Model.{
  Bytes, ProxyConfig, UpstreamConfig, Service, Route, PluginConfig, UpstreamTarget,
  LoadBalancingAlgorithm, round_robin, weighted, ip_hash, least_connections, latency,
  consistent_hashing, other,
}
use sushi_gateway.Routing.{slash, slice_contains_string}

pub data ConfigError : Type 0 where
  name_required plugin_name_required : ConfigError
  plugin_unknown plugin_invalid service_duplicate strategy_invalid : String → ConfigError
  protocol_invalid upstream_missing health_path_missing : String → ConfigError
  path_start path_end : Bytes → ConfigError
  path_missing route_duplicate method_invalid : String → ConfigError

-- if test { return err }
abbrev pub reject_if : Bool → ConfigError → Option ConfigError
reject_if true e = some e
reject_if false e = none

-- if err := ...; err != nil { return err }
abbrev pub first_of : Option ConfigError → Option ConfigError → Option ConfigError
first_of none rest = rest
first_of (some e) rest = some e

-- a loop that returns the first error
unfoldable pub first_error {ℓ} :
    {A : Type ℓ} → (A → Option ConfigError) → List A → Option ConfigError
first_error check [] = none
first_error check (x ∷ xs) = first_of (check x) (first_error check xs)

abbrev pub is_nil {ℓ} : {A : Type ℓ} → List A → Bool
is_nil [] = true
is_nil (x ∷ xs) = false

abbrev pub available_proxy_protocols : List String
available_proxy_protocols = "http" ∷ "https" ∷ []

abbrev pub valid_methods : List String
valid_methods = "GET" ∷ "POST" ∷ "PUT" ∷ "PATCH" ∷ "DELETE" ∷ "OPTIONS" ∷ "HEAD" ∷ []

abbrev pub available_plugins : List String
available_plugins =
    "basic-auth" ∷ "acl" ∷ "bot-protection" ∷ "rate-limiting" ∷ "request-size-limiting"
    ∷ "request-termination" ∷ "jwt" ∷ "key-auth" ∷ "mtls" ∷ "http-log" ∷ "cors"
    ∷ "header-transformation" ∷ "circuit-breaker" ∷ "rbac" ∷ "cache" ∷ "shadow-traffic"
    ∷ "multi-auth" ∷ "prometheus" ∷ "opentelemetry" ∷ "waf" ∷ "sanitization" ∷ "request-transformer"
    ∷ []

-- LoadBalancingAlgorithm.IsValid
unfoldable pub is_valid : LoadBalancingAlgorithm → Bool
is_valid (other s) = str_eq s ""
is_valid _ = true

abbrev strategy_name : LoadBalancingAlgorithm → String
strategy_name round_robin = "round-robin"
strategy_name weighted = "weighted"
strategy_name ip_hash = "ip-hash"
strategy_name least_connections = "least-connections"
strategy_name latency = "latency"
strategy_name consistent_hashing = "consistent-hashing"
strategy_name (other s) = s

unfoldable pub validate_service_load_balancing : Service → Option ConfigError
validate_service_load_balancing s =
    reject_if (not (is_valid s.load_balancing_strategy))
      (strategy_invalid (strategy_name s.load_balancing_strategy))

-- The default "/" is written to ValidateService's own copy of the service.
unfoldable pub validate_base_path : Service → Option ConfigError
validate_base_path s =
    if is_nil s.base_path
    then none
    else first_of (reject_if (not (starts_with_byte slash s.base_path)) (path_start s.base_path)) (
        reject_if (not (bytes_eq s.base_path (slash ∷ [])) && ends_with_byte slash s.base_path)
          (path_end s.base_path))

unfoldable pub validate_protocol : Service → Option ConfigError
validate_protocol s =
    reject_if (not (slice_contains_string available_proxy_protocols s.protocol))
      (protocol_invalid s.protocol)

-- the loop that looks for an aggregation route
unfoldable pub has_aggregation_route : List Route → Bool
has_aggregation_route [] = false
has_aggregation_route (r ∷ rs) =
    if ltb 0 (length r.backends) then true else has_aggregation_route rs

unfoldable pub validate_upstream : Service → Option ConfigError
validate_upstream s =
    if not (str_eq s.url "")
    then none
    else if has_aggregation_route s.routes
    then none
    else reject_if (length s.upstreams == 0) (upstream_missing s.name)

unfoldable pub validate_health_check_path : Service → Option ConfigError
validate_health_check_path s =
    if not s.health.enabled
    then none
    else first_of (reject_if (is_nil s.health.path) (health_path_missing s.name)) (
        first_of (reject_if (not (starts_with_byte slash s.health.path)) (path_start s.health.path))
          (reject_if (ends_with_byte slash s.health.path) (path_end s.health.path)))

unfoldable pub validate_service : Service → Option ConfigError
validate_service s = first_of (validate_service_load_balancing s) (
    first_of (validate_base_path s) (
      first_of (validate_protocol s)
        (first_of (validate_upstream s) (validate_health_check_path s))))

-- one path of a route, which is not empty where it comes from Path
unfoldable pub validate_route_path : Bytes → Option ConfigError
validate_route_path p =
    first_of (reject_if (not (starts_with_byte slash p)) (path_start p))
      (reject_if (ends_with_byte slash p && ltb 1 (length p)) (path_end p))

unfoldable pub validate_path : Route → Option ConfigError
validate_path r =
    first_of (reject_if (is_nil r.path && length r.paths == 0) (path_missing r.name)) (
      first_of (if not (is_nil r.path) then validate_route_path r.path else none)
        (first_error validate_route_path r.paths))

unfoldable pub validate_method : Route → Option ConfigError
validate_method r =
    if length r.methods == 0
    then none
    else first_error
        (λ m. reject_if (not (slice_contains_string valid_methods m)) (method_invalid m)) r.methods

unfoldable pub validate_route : Route → Option ConfigError
validate_route r = first_of (validate_path r) (validate_method r)

-- createPluginFromConfig: the constructor whose plugin checks the config, by that plugin's name;
-- `none` where the plugin has no validator
abbrev constructors : List (String × String)
constructors =
    ("basic-auth", "basic-auth")
    ∷ ("acl", "acl")
    ∷ ("bot-protection", "bot-protection")
    ∷ ("rate-limiting", "rate-limiting")
    ∷ ("request-size-limiting", "request-size-limiting")
    ∷ ("jwt", "jwt")
    ∷ ("key-auth", "key-auth")
    ∷ ("mtls", "mtls")
    ∷ ("http-log", "http-log")
    ∷ ("cors", "cors")
    ∷ ("header-transformation", "header-transformation")
    ∷ ("circuit-breaker", "circuit-breaker")
    ∷ ("rbac", "rbac")
    ∷ ("waf", "waf")
    ∷ ("sanitization", "waf")
    ∷ ("cache", "cache")
    ∷ ("shadow-traffic", "shadow-traffic")
    ∷ ("multi-auth", "multi-auth")
    ∷ ("request-termination", "request-termination")
    ∷ []

unfoldable pub lookup_constructor : List (String × String) → String → Option String
lookup_constructor [] n = none
lookup_constructor ((k, c) ∷ cs) n = if str_eq k n then some c else lookup_constructor cs n

abbrev pub create_plugin_from_config : PluginConfig → Option String
create_plugin_from_config p = lookup_constructor constructors p.name

-- `own c` is what the Validator of the plugin that constructor `c` makes says of a config
unfoldable pub own_accepts : (String → PluginConfig → Bool) → Option String → PluginConfig → Bool
own_accepts own none p = true
own_accepts own (some c) p = own c p

unfoldable pub validate_plugin : (String → PluginConfig → Bool) → PluginConfig → Option ConfigError
validate_plugin own p = first_of (reject_if (str_eq p.name "") plugin_name_required) (
    first_of
      (reject_if (not (slice_contains_string available_plugins p.name)) (plugin_unknown p.name))
      (reject_if (not (own_accepts own (create_plugin_from_config p) p)) (plugin_invalid p.name)))

unfoldable pub route_plugins : List Route → List PluginConfig
route_plugins [] = []
route_plugins (r ∷ rs) = r.plugins ++ route_plugins rs

unfoldable pub service_plugins : List Service → List PluginConfig
service_plugins [] = []
service_plugins (s ∷ ss) = (s.plugins ++ route_plugins s.routes) ++ service_plugins ss

unfoldable pub validate_plugins : (String → PluginConfig → Bool) → ProxyConfig → Option ConfigError
validate_plugins own c = first_error (validate_plugin own) (c.plugins ++ service_plugins c.services)

-- the loop of validateServices, with the names met so far
unfoldable pub validate_services_from : List String → List Service → Option ConfigError
validate_services_from names [] = none
validate_services_from names (s ∷ ss) =
    first_of (reject_if (slice_contains_string names s.name) (service_duplicate s.name))
      (first_of (validate_service s) (validate_services_from (names ++ s.name ∷ []) ss))

-- the loop of validateRoutes over one service's routes
unfoldable pub validate_routes_from : List String → List Route → Option ConfigError
validate_routes_from names [] = none
validate_routes_from names (r ∷ rs) =
    first_of (reject_if (slice_contains_string names r.name) (route_duplicate r.name))
      (first_of (validate_route r) (validate_routes_from (names ++ r.name ∷ []) rs))

unfoldable pub validate_routes : List Service → Option ConfigError
validate_routes = first_error (λ s. validate_routes_from [] s.routes)
