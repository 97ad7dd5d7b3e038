-- ===== src/Balancer/Interface.antt =====
-- load_balancer.go: what the proxy calls of a LoadBalancer. `σ` is the state of the caches of the
-- algorithms, with the clock and the random numbers that they read; the counts of connections and
-- the health map are the caller's, since requests change them between two calls.
use sushi_gateway.Prelude.{ℕ, String, ◌≡◌, ◌≢◌, false, Option, some, List, [], get_elem?, Memᴰ}
use sushi_gateway.Model.{Service, UpstreamTarget, UpstreamConfig}
use sushi_gateway.Http.{Request, Cookie}
use sushi_gateway.Health.{HealthMap}
use sushi_gateway.Balancer.{contains}
use sushi_gateway.Balancer.Connections.{Connections}

-- the maps that requests and load balancers share
pub record Shared : Type 0 where
  pub connections : Connections
  pub health : HealthMap

pub record LoadBalancer (σ : Type 0) : Type 0 where
  -- GetNextUpstreamWithRequest
  pub next_with_request :
      σ
      → Shared
      → Service
      → Request
      → Option UpstreamConfig
      → List String
      → (Option ℕ × Option Cookie) × σ
  -- GetNextUpstreamWithRetry
  pub next_with_retry : σ → Shared → Service → String → List String → List String → Option ℕ × σ
  -- RecordLatency, for a service and an upstream
  pub record_latency : String → String → ℕ → σ → σ

-- Some upstream of the list has an id that is not among the failed ones.
abbrev pub SomeLeft : List String → List UpstreamTarget → Type 0
SomeLeft failed us = (u : UpstreamTarget) × Memᴰ u us × (contains failed u.id ≡ false)

-- What a retry relies on: while an upstream is left, the choice is none of the failed ones.
abbrev pub Excludes : {σ : Type 0} → LoadBalancer σ → Type 0
Excludes {σ} lb =
    (b : σ) (sh : Shared) (s : Service) (ip : String) (failed tags : List String) (i : ℕ)
    (u : UpstreamTarget)
    → failed ≢ []
    → SomeLeft failed s.upstreams
    → (lb.next_with_retry b sh s ip failed tags).0 ≡ some i
    → get_elem? s.upstreams i ≡ some u
    → contains failed u.id ≡ false
