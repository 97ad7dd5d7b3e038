-- ===== src/Balancer/Dispatch.antt =====
-- load_balancer.go: GetNextUpstream, GetNextUpstreamWithRequest and GetNextUpstreamWithRetry, which
-- choose the algorithm. Each algorithm is a field of `Handlers`, over the state of the caches that
-- the algorithms keep; a map of failed upstreams is given by its keys.
use sushi_gateway.Prelude.{
  ℕ, String, Bool, true, false, ◌&&◌, ◌||◌, not, Option, none, some, List, if◌then◌else◌, ◌==◌,
  length, keep, str_eq,
}
use sushi_gateway.Model.{
  Service, UpstreamTarget, UpstreamConfig, LoadBalancingAlgorithm, weighted, ip_hash,
  least_connections, latency, consistent_hashing, HashOnType, hash_cookie,
}
use sushi_gateway.Http.{Request, Cookie}
use sushi_gateway.Balancer.{contains}
use sushi_gateway.Balancer.Interface.{Shared, LoadBalancer}
use sushi_gateway.Balancer.HashExtractor.{Text, extract_hash_value}

-- the methods handle... of a LoadBalancer, RecordLatency, and generateSessionID, which draws
-- random numbers
pub record Handlers (σ : Type 0) : Type 0 where
  pub handle_round_robin : σ → Shared → Service → List String → Option ℕ × σ
  pub handle_weighted : σ → Shared → Service → List String → Option ℕ × σ
  pub handle_ip_hash : σ → Shared → Service → String → List String → Option ℕ × σ
  pub handle_least_connections : σ → Shared → Service → List String → Option ℕ × σ
  pub handle_latency : σ → Shared → Service → List String → Option ℕ × σ
  pub handle_round_robin_excluding : σ → Shared → Service → List String → List String → Option ℕ × σ
  pub handle_least_connections_excluding :
      σ → Shared → Service → List String → List String → Option ℕ × σ
  pub handle_latency_excluding : σ → Shared → Service → List String → List String → Option ℕ × σ
  pub record_latency : String → String → ℕ → σ → σ
  pub generate_session_id : σ → String × σ

abbrev is_cookie : HashOnType → Bool
is_cookie hash_cookie = true
is_cookie _ = false

abbrev hashes_on_cookie : Option UpstreamConfig → Bool
hashes_on_cookie none = false
hashes_on_cookie (some c) = is_cookie c.hash_on

-- the name and the path of the sticky session's cookie
abbrev sticky_cookie : Option UpstreamConfig → String → Option Cookie
sticky_cookie none id = none
sticky_cookie (some c) id = some (record {
  name = c.hash_on_cookie;
  value = id;
  path = if str_eq c.hash_on_cookie_path "" then "/" else c.hash_on_cookie_path;
  http_only = true;
})

module _ {σ : Type 0} (h : Handlers σ) (split_host_port : String → Option String)
    (text : Text) where
  by_strategy : LoadBalancingAlgorithm → σ → Shared → Service → String → List String → Option ℕ × σ
  by_strategy weighted b sh s ip tags = h.handle_weighted b sh s tags
  by_strategy ip_hash b sh s ip tags = h.handle_ip_hash b sh s ip tags
  by_strategy consistent_hashing b sh s ip tags = h.handle_ip_hash b sh s ip tags
  by_strategy least_connections b sh s ip tags = h.handle_least_connections b sh s tags
  by_strategy latency b sh s ip tags = h.handle_latency b sh s tags
  by_strategy _ b sh s ip tags = h.handle_round_robin b sh s tags

  unfoldable pub get_next_upstream : σ → Shared → Service → String → List String → Option ℕ × σ
  unfolding by_strategy
  get_next_upstream b sh s ip tags =
      if length s.upstreams == 0
      then (none, b)
      else by_strategy s.load_balancing_strategy b sh s ip tags

  -- the hash value is missing or empty, and the upstream wants it in a cookie
  unfoldable pub starts_session : String × Bool → Option UpstreamConfig → Bool
  starts_session (value, ok) config = (not ok || str_eq value "") && hashes_on_cookie config

  unfoldable pub hash_on_request :
      σ
      → Shared
      → Service
      → Request
      → Option UpstreamConfig
      → List String
      → (Option ℕ × Option Cookie) × σ
  unfolding starts_session
  hash_on_request b sh s req config tags =
      let (value, ok) = extract_hash_value split_host_port text req config in
      if starts_session (value, ok) config
      then (let (id, b') = h.generate_session_id b in
          let (i, b'') = h.handle_ip_hash b' sh s id tags in ((i, sticky_cookie config id), b''))
      else (let (i, b') = h.handle_ip_hash b sh s value tags in ((i, none), b'))

  abbrev no_cookie : Option ℕ × σ → (Option ℕ × Option Cookie) × σ
  no_cookie (i, b) = ((i, none), b)

  unfoldable pub by_strategy_with_request :
      LoadBalancingAlgorithm
      → σ
      → Shared
      → Service
      → Request
      → Option UpstreamConfig
      → List String
      → (Option ℕ × Option Cookie) × σ
  unfolding hash_on_request
  by_strategy_with_request weighted b sh s req config tags =
      no_cookie (h.handle_weighted b sh s tags)
  by_strategy_with_request ip_hash b sh s req config tags = hash_on_request b sh s req config tags
  by_strategy_with_request consistent_hashing b sh s req config tags =
      hash_on_request b sh s req config tags
  by_strategy_with_request least_connections b sh s req config tags =
      no_cookie (h.handle_least_connections b sh s tags)
  by_strategy_with_request latency b sh s req config tags = no_cookie (h.handle_latency b sh s tags)
  by_strategy_with_request _ b sh s req config tags = no_cookie (h.handle_round_robin b sh s tags)

  unfoldable pub get_next_upstream_with_request :
      σ
      → Shared
      → Service
      → Request
      → Option UpstreamConfig
      → List String
      → (Option ℕ × Option Cookie) × σ
  unfolding by_strategy_with_request
  get_next_upstream_with_request b sh s req config tags =
      if length s.upstreams == 0
      then ((none, none), b)
      else by_strategy_with_request s.load_balancing_strategy b sh s req config tags

  unfoldable pub excluding :
      LoadBalancingAlgorithm → σ → Shared → Service → List String → List String → Option ℕ × σ
  excluding least_connections b sh s failed tags =
      h.handle_least_connections_excluding b sh s failed tags
  excluding latency b sh s failed tags = h.handle_latency_excluding b sh s failed tags
  excluding _ b sh s failed tags = h.handle_round_robin_excluding b sh s failed tags

  -- the upstreams that are counted in availableCount
  abbrev pub left_of : List String → List UpstreamTarget → List UpstreamTarget
  left_of failed us = keep (λ u. not (contains failed u.id)) us

  unfoldable pub get_next_upstream_with_retry :
      σ → Shared → Service → String → List String → List String → Option ℕ × σ
  unfolding get_next_upstream excluding
  get_next_upstream_with_retry b sh s ip failed tags =
      if length s.upstreams == 0
      then (none, b)
      else if length failed == 0
      then get_next_upstream b sh s ip tags
      else if length (left_of failed s.upstreams) == 0
      then get_next_upstream b sh s ip tags
      else excluding s.load_balancing_strategy b sh s failed tags

  -- what the proxy calls
  unfoldable pub load_balancer : LoadBalancer σ
  unfolding get_next_upstream_with_request get_next_upstream_with_retry
  load_balancer = record {
    next_with_request = get_next_upstream_with_request;
    next_with_retry = get_next_upstream_with_retry;
    record_latency = h.record_latency;
  }
