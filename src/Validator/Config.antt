-- ===== src/Validator/Config.antt =====
-- proxy_config_validator.go: which configs are accepted, as a whole.
use sushi_gateway.Prelude.{
  AllDistinct, ℕ, String, ◌≡◌, ◌≢◌, ◌↔◌, refl, Bool, true, not, none, some, Option, inl, inr, List,
  [], ◌∷◌, ◌++◌, map, Memᴰ, str_eq, str_eq_iff, Bool-cases,
}
use sushi_gateway.Model.{ProxyConfig, Service, Route, PluginConfig}
use sushi_gateway.Routing.{slice_contains_string}
use sushi_gateway.Validator.{
  plugin_invalid, own_accepts, create_plugin_from_config, plugin_unknown, ConfigError,
  service_duplicate, route_duplicate, first_error, reject_if, available_plugins, validate_plugin,
  validate_plugins, service_plugins, validate_service, validate_services_from, validate_route,
  validate_routes_from, validate_routes,
}
use sushi_gateway.Validator.Ids.{validate_checks, validate_config, generate_entity_ids}
use sushi_gateway.Validator.Checks.{
  unique_from, unique_from_iff, both_iff, first_error_iff, reject_if_iff, reject_unless_iff,
  slice_contains_iff,
}
use sushi_gateway.Validator.Services.{IsValidService, validate_service_iff}
use sushi_gateway.Validator.Routes.{IsValidRoute, validate_route_iff}

services_loop :
    (names : List String) (ss : List Service)
    → validate_services_from names ss
      ≡ unique_from
          (λ (s : Service). s.name)
          (λ s. service_duplicate s.name)
          validate_service
          names
          ss
unfolding validate_services_from unique_from
services_loop names [] = refl
services_loop names (s ∷ ss) = rw (services_loop (names ++ s.name ∷ []) ss)

routes_loop :
    (names : List String) (rs : List Route)
    → validate_routes_from names rs
      ≡ unique_from (λ (r : Route). r.name) (λ r. route_duplicate r.name) validate_route names rs
unfolding validate_routes_from unique_from
routes_loop names [] = refl
routes_loop names (r ∷ rs) = rw (routes_loop (names ++ r.name ∷ []) rs)

-- each element is valid and the names differ
abbrev pub AllValid : {A : Type 0} → (A → String) → (A → Type 0) → List A → Type 0
AllValid {A} name Valid xs = ((x : A) → Memᴰ x xs → Valid x) × AllDistinct (map name xs)

accepts_all :
    {A : Type 0} (name : A → String) (duplicate : A → ConfigError) (check : A → Option ConfigError)
    (Valid : A → Type 0)
    → ((x : A) → (check x ≡ none) ↔ Valid x)
    → (xs : List A) → (unique_from name duplicate check [] xs ≡ none) ↔ AllValid name Valid xs
accepts_all name duplicate check Valid iff xs =
    let i = unique_from_iff name duplicate check [] xs in
    (
      λ h. let (each, distinct) = i.0 h in ((λ x m. (iff x).0 (each x m).1), distinct),
      λ h. i.1 ((λ x m. ((λ k. elim k [ ]), (iff x).1 (h.0 x m))), h.1),
    )

services_iff :
    (ss : List Service)
    → (validate_services_from [] ss ≡ none) ↔ AllValid (λ (s : Service). s.name) IsValidService ss
services_iff ss =
    rw (services_loop [] ss) (accepts_all _ _ _ IsValidService validate_service_iff ss)

routes_iff :
    (rs : List Route)
    → (validate_routes_from [] rs ≡ none) ↔ AllValid (λ (r : Route). r.name) IsValidRoute rs
routes_iff rs = rw (routes_loop [] rs) (accepts_all _ _ _ IsValidRoute validate_route_iff rs)

-- the plugin has a name that the gateway knows, and the validator that this name has accepts it
abbrev pub IsValidPlugin : (String → PluginConfig → Bool) → PluginConfig → Type 0
IsValidPlugin own p =
    (p.name ≢ "")
    × (Memᴰ p.name available_plugins
        × ((c : String) → create_plugin_from_config p ≡ some c → own c p ≡ true))

named_iff : (n : String) (e : ConfigError) → (reject_if (str_eq n "") e ≡ none) ↔ (n ≢ "")
named_iff n e = elim (Bool-cases (str_eq n "")) [
  | inl t ↦ (
    λ h. absurd (let f = (reject_if_iff (str_eq n "") e).0 h in cc),
    λ h. absurd (h ((str_eq_iff n "").0 t)),
  )
  | inr f ↦ (λ h k. let t = (str_eq_iff n "").1 k in cc, λ h. (reject_if_iff (str_eq n "") e).1 f)
]

own_accepts_iff :
    (own : String → PluginConfig → Bool) (o : Option String) (p : PluginConfig)
    → (own_accepts own o p ≡ true) ↔ ((c : String) → o ≡ some c → own c p ≡ true)
unfolding own_accepts
own_accepts_iff own none p = (λ h c e. cc, λ h. refl)
own_accepts_iff own (some d) p = (λ h c e. cc, λ h. h d refl)

validate_plugin_iff :
    (own : String → PluginConfig → Bool) (p : PluginConfig)
    → (validate_plugin own p ≡ none) ↔ IsValidPlugin own p
unfolding validate_plugin
validate_plugin_iff own p = both_iff _ _ (named_iff p.name _) (both_iff _ _ known accepted)
  where
    accepted :
        (reject_if (not (own_accepts own (create_plugin_from_config p) p)) (plugin_invalid p.name)
          ≡ none)
        ↔ ((c : String) → create_plugin_from_config p ≡ some c → own c p ≡ true)
    accepted =
        let i =
          reject_unless_iff (own_accepts own (create_plugin_from_config p) p)
            (plugin_invalid p.name) in
        let k = own_accepts_iff own (create_plugin_from_config p) p in
        (λ h. k.0 (i.0 h), λ h. i.1 (k.1 h))

    known :
        (reject_if (not (slice_contains_string available_plugins p.name)) (plugin_unknown p.name)
          ≡ none)
        ↔ Memᴰ p.name available_plugins
    known =
        let i =
          reject_unless_iff (slice_contains_string available_plugins p.name)
            (plugin_unknown p.name) in
        let k = slice_contains_iff available_plugins p.name in (λ h. k.0 (i.0 h), λ h. i.1 (k.1 h))

all_iff :
    {A : Type 0} (check : A → Option ConfigError) (Valid : A → Type 0)
    → ((x : A) → (check x ≡ none) ↔ Valid x)
    → (xs : List A) → (first_error check xs ≡ none) ↔ ((x : A) → Memᴰ x xs → Valid x)
all_iff check Valid iff xs =
    let i = first_error_iff check xs in
    (λ h x m. (iff x).0 (i.0 h x m), λ h. i.1 (λ x m. (iff x).1 (h x m)))

-- the plugins of the gateway, its services and their routes
abbrev pub all_plugins : ProxyConfig → List PluginConfig
all_plugins c = c.plugins ++ service_plugins c.services

abbrev pub IsValidConfig : (String → PluginConfig → Bool) → ProxyConfig → Type 0
IsValidConfig own c =
    (c.name ≢ "")
    × (((p : PluginConfig) → Memᴰ p (all_plugins c) → IsValidPlugin own p)
        × (AllValid (λ (s : Service). s.name) IsValidService c.services
            × ((s : Service)
                → Memᴰ s c.services
                → AllValid (λ (r : Route). r.name) IsValidRoute s.routes)))

-- ValidateConfig accepts a config exactly when the config that its ids are written to has a name,
-- all its plugins, of every level, have known names and pass the validator that their name has, if it has one, its services
-- are valid and have different names, and the routes of each service are valid and have
-- different names.
pub validate_config_iff :
    (supply : ℕ → String) (own : String → PluginConfig → Bool) (c : ProxyConfig) (n : ℕ)
    → ((validate_config supply own c n).0 ≡ none)
      ↔ IsValidConfig own (validate_config supply own c n).1
unfolding validate_config validate_checks validate_plugins validate_routes
validate_config_iff supply own c n = checks_iff (generate_entity_ids supply c n).0
  where
    checks_iff : (d : ProxyConfig) → (validate_checks own d ≡ none) ↔ IsValidConfig own d
    checks_iff d = both_iff _ _ (named_iff d.name _) (
        both_iff _ _ (all_iff _ _ (validate_plugin_iff own) (all_plugins d)) (
          both_iff _ _ (services_iff d.services)
            (all_iff _ _ (λ s. routes_iff s.routes) d.services)))
