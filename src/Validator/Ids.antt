-- ===== src/Validator/Ids.antt =====
-- proxy_config_validator.go: generateEntityIDs and ValidateConfig. generateID reads crypto/rand,
-- which is a parameter here: `supply n` is the n-th id that it gives, and the number of ids drawn
-- so far is passed on.
use sushi_gateway.Prelude.{ℕ, String, ◌+◌, Option, List, [], ◌∷◌, Bool, if◌then◌else◌, str_eq}
use sushi_gateway.Model.{ProxyConfig, UpstreamConfig, Service, Route, PluginConfig, UpstreamTarget}
use sushi_gateway.Validator.{
  ConfigError, name_required, reject_if, first_of, validate_plugins, validate_services_from,
  validate_routes,
}

abbrev pub Drawing : Type 0 → Type 0
Drawing A = ℕ → A × ℕ

-- for i := range xs { update(&xs[i]) }
unfoldable pub each : {A : Type 0} → (A → Drawing A) → List A → Drawing (List A)
each f [] n = ([], n)
each f (x ∷ xs) n = let (y, n1) = f x n in let (ys, n2) = each f xs n1 in (y ∷ ys, n2)

-- the checks, on the config that the ids were written to
unfoldable pub validate_checks : (String → PluginConfig → Bool) → ProxyConfig → Option ConfigError
validate_checks own c = first_of (reject_if (str_eq c.name "") name_required) (
    first_of (validate_plugins own c)
      (first_of (validate_services_from [] c.services) (validate_routes c.services)))

module _ (supply : ℕ → String) where
  abbrev pub id_or : String → Drawing String
  id_or id n = if str_eq id "" then (supply n, n + 1) else (id, n)

  unfoldable pub plugin_id : PluginConfig → Drawing PluginConfig
  plugin_id p n = let (id, n1) = id_or p.id n in (record p { id = id }, n1)

  unfoldable pub target_id : UpstreamTarget → Drawing UpstreamTarget
  target_id t n = let (id, n1) = id_or t.id n in (record t { id = id }, n1)

  unfoldable pub upstream_ids : UpstreamConfig → Drawing UpstreamConfig
  upstream_ids u n = let (ts, n1) = each target_id u.targets n in (record u { targets = ts }, n1)

  unfoldable pub route_ids : Route → Drawing Route
  route_ids r n = let (ps, n1) = each plugin_id r.plugins n in (record r { plugins = ps }, n1)

  unfoldable pub service_ids : Service → Drawing Service
  service_ids s n =
      let (ps, n1) = each plugin_id s.plugins n in
      let (us, n2) = each target_id s.upstreams n1 in
      let (rs, n3) = each route_ids s.routes n2 in
      (record s { plugins = ps; upstreams = us; routes = rs }, n3)

  unfoldable pub generate_entity_ids : ProxyConfig → Drawing ProxyConfig
  generate_entity_ids c n =
      let (ps, n1) = each plugin_id c.plugins n in
      let (us, n2) = each upstream_ids c.upstreams n1 in
      let (ss, n3) = each service_ids c.services n2 in
      (record c { plugins = ps; upstreams = us; services = ss }, n3)

  unfoldable pub validate_config :
      (String → PluginConfig → Bool) → ProxyConfig → ℕ → Option ConfigError × ProxyConfig
  validate_config own c n = let (c1, n1) = generate_entity_ids c n in (validate_checks own c1, c1)
