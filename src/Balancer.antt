-- ===== src/Balancer.antt =====
-- sushi-proxy/internal/gateway/load_balancer.go: which upstreams a request may be sent to.
-- `none` stands for the index model.NoUpstreamsAvailable (-1). The breakers of single targets
-- (target_circuit_breaker.go) are gobreaker objects; `breakers` is the state that each reports at
-- the time of the call, by its key.
pub mod Candidates
pub mod Connections
pub mod HashExtractor
pub mod Retrying
pub mod Dispatch
pub mod Interface
pub mod Breaker
pub mod LeastConnections
pub mod RoundRobin
pub mod Weighted
pub mod Scan
pub mod Latency
pub mod Lowest
pub mod Maglev
pub mod IpHash
pub mod Lookup
mod Tests
mod ChoiceTests
use Prim.Native.String.{◌++◌ as str_append}
use sushi_gateway.Prelude.{
  ℕ, zero, suc, String, ◌+◌, Bool, true, false, ◌&&◌, ◌||◌, not, Option, none, some, List, [], ◌∷◌,
  if◌then◌else◌, str_eq,
}
use sushi_gateway.Prelude.Dict.{Dict}
use sushi_gateway.Model.{Service, UpstreamTarget}
use sushi_gateway.Health.{HealthMap, UpstreamHealthState, get_upstream_health_state, is_healthy}

pub data CbState : Type 0 where
  closed half_open open_state : CbState

pub record Env : Type 0 where
  pub health : HealthMap
  pub breakers : String → CbState

-- fmt.Sprintf("%s_%s_%s", service.Name, upstreamId, targetAddr)
unfoldable pub breaker_key : Service → UpstreamTarget → String
breaker_key s u = str_append s.name (str_append "_" (str_append u.id (str_append "_" u.target)))

abbrev is_half_open : CbState → Bool
is_half_open half_open = true
is_half_open _ = false

unfoldable pub healthy_or_probe : CbState → Option UpstreamHealthState → Bool
healthy_or_probe cb none = false
healthy_or_probe cb (some st) = is_healthy st.status || is_half_open cb

unfoldable pub available_at : CbState → Bool → Option UpstreamHealthState → Bool
unfolding healthy_or_probe
available_at open_state enabled st = false
available_at cb enabled st = if enabled then healthy_or_probe cb st else true

unfoldable pub is_upstream_available : Env → Service → UpstreamTarget → Bool
unfolding available_at
is_upstream_available env s u =
    available_at (env.breakers (breaker_key s u)) s.health.enabled
      (get_upstream_health_state env.health s.name u.id)

unfoldable pub contains : List String → String → Bool
contains [] x = false
contains (y ∷ ys) x = str_eq y x || contains ys x

all_found : List String → List String → Bool
unfolding contains
all_found target_tags [] = true
all_found target_tags (r ∷ rs) = contains target_tags r && all_found target_tags rs

-- the two early returns come before the loop
unfoldable pub tags_match : List String → List String → Bool
unfolding all_found
tags_match target_tags [] = true
tags_match [] (r ∷ rs) = false
tags_match (t ∷ ts) (r ∷ rs) = all_found (t ∷ ts) (r ∷ rs)

-- for i, u := range upstreams { if p(u) { append(i) } }
unfoldable pub indices : (UpstreamTarget → Bool) → ℕ → List UpstreamTarget → List ℕ
indices p i [] = []
indices p i (u ∷ us) = let rest = indices p (suc i) us in if p u then i ∷ rest else rest

-- tags match and the upstream is available
abbrev pub eligible : Env → Service → List String → UpstreamTarget → Bool
eligible env s tags u = tags_match u.tags tags && is_upstream_available env s u
