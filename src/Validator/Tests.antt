-- ===== src/Validator/Tests.antt =====
-- The validators' theorems at a concrete config.
use sushi_gateway.Prelude.{ℕ, String, ◌≡◌, ◌↔◌, refl, true, none, some, [], ◌∷◌}
use sushi_gateway.Prelude.Int.{pos}
use sushi_gateway.Prelude.Text.{codes, ends_with_byte}
use sushi_gateway.Model.{ProxyConfig, Service, Route, PluginConfig, UpstreamTarget, round_robin}
use sushi_gateway.Routing.{slice_contains_string}
use sushi_gateway.Validator.{
  validate_route, validate_routes_from, route_duplicate, validate_method, validate_path,
  validate_route_path, first_error,
}
use sushi_gateway.Validator.Ids.{validate_config}
use sushi_gateway.Validator.Config.{IsValidConfig, validate_config_iff}

abbrev target : UpstreamTarget
target = record { id = ""; target = "10.0.0.1:80"; weight = pos 1; tags = [] }

abbrev listing : Route
listing = record {
  name = "listing";
  path = codes "/items";
  paths = codes "/all" ∷ [];
  methods = "GET" ∷ "HEAD" ∷ [];
  headers = [];
  upstream_tags = [];
  plugins = [];
  strip_path = none;
  preserve_host = none;
  backends = [];
}

abbrev store : Service
store = record {
  name = "store";
  url = "";
  protocol = "https";
  base_path = codes "/store";
  load_balancing_strategy = round_robin;
  upstreams = target ∷ [];
  plugins = [];
  routes = listing ∷ [];
  health = record { enabled = true; path = codes "/healthz" };
  retry_options = record { max_retries = pos 0; retry_interval_ms = pos 0 };
  host = "";
  service_name = "";
  upstream_health_checks = none;
}

abbrev waf : PluginConfig
waf = record { id = ""; name = "waf"; config = []; enabled = none }

abbrev gateway : ProxyConfig
gateway = record { name = "edge"; upstreams = []; plugins = waf ∷ []; services = store ∷ [] }

abbrev hex : ℕ → String
hex n = "c0ffee"

validate_config_example :
    ((validate_config hex (λ c p. true) gateway 0).0 ≡ none)
    ↔ IsValidConfig (λ c p. true) (validate_config hex (λ c p. true) gateway 0).1
validate_config_example = validate_config_iff hex (λ c p. true) gateway 0

duplicate_route :
    validate_routes_from [] (listing ∷ listing ∷ []) ≡ some (route_duplicate "listing")
unfolding validate_routes_from validate_route validate_path validate_method validate_route_path
    slice_contains_string first_error ends_with_byte
duplicate_route = refl
