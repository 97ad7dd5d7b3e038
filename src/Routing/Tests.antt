-- ===== src/Routing/Tests.antt =====
-- request.go: the theorems at concrete paths and services.
use sushi_gateway.Prelude.{◌≡◌, refl, false, none, [], ◌∷◌}
use sushi_gateway.Prelude.Int.{pos}
use sushi_gateway.Prelude.Text.{codes, split, cut_prefix, contains_byte, ends_with_byte, bytes_eq}
use sushi_gateway.Model.{Service, Route, round_robin}
use sushi_gateway.Routing.{
  Request, found, match_path, match_dynamic_route, route_path_in, accepts, match_route, match_any,
  is_static, paths_to_check, match_parts, slice_contains_string, get_service_and_route_from_request,
}
use sushi_gateway.Routing.FirstService.{Reason, get_service_and_route_from_request_iff}

abbrev item : Route
item = record {
  name = "item";
  path = codes "/items/{id}";
  paths = [];
  methods = "GET" ∷ [];
  headers = [];
  upstream_tags = [];
  plugins = [];
  strip_path = none;
  preserve_host = none;
  backends = [];
}

abbrev shop : Service
shop = record {
  name = "shop";
  url = "";
  protocol = "http";
  base_path = codes "/shop";
  load_balancing_strategy = round_robin;
  upstreams = [];
  plugins = [];
  routes = item ∷ [];
  health = record { enabled = false; path = [] };
  retry_options = record { max_retries = pos 0; retry_interval_ms = pos 0 };
  host = "";
  service_name = "";
  upstream_health_checks = none;
}

abbrev get_item : Request
get_item = record { method = "GET"; path = codes "/shop/items/7"; header = λ key. "" }

finds_item : get_service_and_route_from_request (shop ∷ []) get_item ≡ found shop item
unfolding get_service_and_route_from_request route_path_in cut_prefix accepts match_route match_any
    match_path match_dynamic_route is_static paths_to_check match_parts split contains_byte
    ends_with_byte bytes_eq slice_contains_string
finds_item = refl

get_service_and_route_from_request_example : Reason get_item (shop ∷ []) (found shop item)
get_service_and_route_from_request_example =
    (get_service_and_route_from_request_iff (shop ∷ []) get_item (found shop item)).0 finds_item
