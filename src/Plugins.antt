-- ===== src/Plugins.antt =====
-- sushi-proxy/internal/gateway/plugin_manager.go and plugin.go, and the part of sushi_proxy.go
-- that builds the chain of a route. A plugin's config is carried along unread.
pub mod Override
pub mod Turns
pub mod Order
mod Tests
use sushi_gateway.Prelude.{
  ℕ, zero, suc, String, ◌+◌, ltb, ◌≡◌, Bool, true, false, ◌&&◌, not, Option, none, some, List, [],
  ◌∷◌, ◌++◌, if◌then◌else◌, str_eq, length, get_elem?,
}
use mathlib.Core.List.{Permᴰ}
use sushi_gateway.Model.{PluginConfig, Service, Route}

-- Handler and Validator are left to each plugin; the name tells which it is.
pub record Plugin : Type 0 where
  pub name : String
  pub priority : ℕ
  pub config : List (String × String)

-- no plugin of the list is less than the one before it, as sort.SliceIsSorted tests
abbrev pub InOrder : (Plugin → Plugin → Bool) → List Plugin → Type 0
InOrder less [] = Unit
InOrder less (p ∷ []) = Unit
InOrder less (p ∷ q ∷ ps) = (less q p ≡ false) × InOrder less (q ∷ ps)

-- what sort.Slice asks of its less function
pub record IsWeakOrder (less : Plugin → Plugin → Bool) : Type 0 where
  pub irreflexive : (p : Plugin) → less p p ≡ false
  pub transitive : (p q r : Plugin) → less p q ≡ true → less q r ≡ true → less p r ≡ true
  pub not_less : (p q r : Plugin) → less p q ≡ false → less q r ≡ false → less p r ≡ false

-- sort.Slice. The order among plugins of one priority is not documented, so the sort is a parameter
-- with what is: a permutation of the slice, in the order of a less function that it may be used with.
pub record Sorter : Type 0 where
  pub sort : (Plugin → Plugin → Bool) → List Plugin → List Plugin
  pub sort-perm : (less : Plugin → Plugin → Bool) (ps : List Plugin) → Permᴰ ps (sort less ps)
  pub sort-InOrder :
      (less : Plugin → Plugin → Bool)
      → IsWeakOrder less
      → (ps : List Plugin) → InOrder less (sort less ps)

-- the less function of RegisterPlugin
unfoldable pub by_priority : Plugin → Plugin → Bool
by_priority p q = ltb p.priority q.priority

-- The cases of loadConfig's switch that register a plugin: the config's name, then the Name and
-- the Priority that the constructor gives.
abbrev pub registry : List (String × String × ℕ)
registry =
    ("basic-auth", "basic-auth", 200)
    ∷ ("acl", "acl", 100)
    ∷ ("bot-protection", "bot-protection", 900)
    ∷ ("key-auth", "key-auth", 200)
    ∷ ("rate-limiting", "rate-limiting", 50)
    ∷ ("request-size-limiting", "request-size-limiting", 50)
    ∷ ("jwt", "jwt", 1450)
    ∷ ("mtls", "mtls", 250)
    ∷ ("http-log", "http-log", 1000)
    ∷ ("cors", "cors", 0)
    ∷ ("header-transformation", "header-transformation", 300)
    ∷ ("request-transformer", "header-transformation", 300)
    ∷ ("circuit-breaker", "circuit-breaker", 100)
    ∷ ("rbac", "rbac", 900)
    ∷ ("waf", "waf", 1000)
    ∷ ("cache", "cache", 100)
    ∷ ("shadow-traffic", "shadow-traffic", 900)
    ∷ ("multi-auth", "multi-auth", 199)
    ∷ ("request-termination", "request-termination", 2)
    ∷ []

lookup_in : List (String × String × ℕ) → String → Option (String × ℕ)
lookup_in [] n = none
lookup_in ((k, name, prio) ∷ r) n = if str_eq k n then some (name, prio) else lookup_in r n

construct : Option (String × ℕ) → PluginConfig → Option Plugin
construct none pc = none
construct (some (name, prio)) pc =
    some (record { name = name; priority = prio; config = pc.config })

-- The plugin that the switch registers; `none` for prometheus and opentelemetry, which only set
-- process-wide flags, and for every other name.
unfoldable pub plugin_of : PluginConfig → Option Plugin
unfolding lookup_in construct
plugin_of pc = construct (lookup_in registry pc.name) pc

abbrev pub is_enabled : PluginConfig → Bool
is_enabled pc = elim pc.enabled [ none ↦ true | some b ↦ b ]

-- RegisterPlugin: replace the first plugin of the name, or append; then sort.
unfoldable pub upsert : Plugin → List Plugin → List Plugin
upsert p [] = p ∷ []
upsert p (q ∷ ps) = if str_eq q.name p.name then p ∷ ps else q ∷ upsert p ps

-- NewResponseHandlerPlugin(nil)
abbrev pub response_handler : Plugin
response_handler = record { name = "response-handler"; priority = 0; config = [] }

module _ (s : Sorter) where
  unfoldable pub register_plugin : Plugin → List Plugin → List Plugin
  register_plugin p pm = s.sort by_priority (upsert p pm)

  register_if : Option Plugin → List Plugin → List Plugin
  unfolding register_plugin
  register_if none pm = pm
  register_if (some p) pm = register_plugin p pm

  unfoldable pub load_config : PluginConfig → List Plugin → List Plugin
  unfolding register_if
  load_config pc pm = if is_enabled pc then register_if (plugin_of pc) pm else pm

  unfoldable pub load_all : List PluginConfig → List Plugin → List Plugin
  load_all [] pm = pm
  load_all (pc ∷ pcs) pm = load_all pcs (load_config pc pm)

  -- NewPluginManagerFromConfig and createHandlerForRoute load in this order.
  unfoldable pub load_chain : List PluginConfig → Route → Service → List Plugin
  load_chain global route service =
      load_all service.plugins (load_all route.plugins (load_all global []))

  -- the plugins of a route's handler, with the compulsory response handler
  unfoldable pub plugins_for_route : List PluginConfig → Route → Service → List Plugin
  unfolding load_chain
  plugins_for_route global route service =
      register_plugin response_handler (load_chain global route service)

-- ExecutePlugins, over what `Handler.Execute` of each plugin makes of the next handler. `i` counts
-- the plugins that are still to wrap, from the last one down.
module _ {ℓ} {H : Type ℓ} (execute : Plugin → H → H) where
  wrap_at : Option Plugin → H → H
  wrap_at none h = h
  wrap_at (some p) h = execute p h

  wrap : List Plugin → ℕ → H → H
  unfolding wrap_at
  wrap ps zero h = h
  wrap ps (suc i) h = wrap ps i (wrap_at (get_elem? ps i) h)

  unfoldable pub execute_plugins : List Plugin → H → H
  unfolding wrap
  execute_plugins ps final = wrap ps (length ps) final
