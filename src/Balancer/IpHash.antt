-- ===== src/Balancer/IpHash.antt =====
-- load_balancer.go: handleIPHash, the Maglev lookup with a bounded load. The cache never holds a
-- Ketama ring, since nothing makes one, so the branches for other rings are left out. A float64
-- and the hash are parameters.
use Prim.Native.String.{String}
use sushi_gateway.Prelude.{
  ℕ, suc, Bool, true, ◌&&◌, ◌||◌, not, Option, none, some, List, [], ◌∷◌, ◌+◌, ◌%◌, if◌then◌else◌,
  length, keep, str_eq, ◌>>=◌, ◌==◌,
}
use sushi_gateway.Prelude.Int.{pos, int_mod, signed, ltb_ℤ}
use sushi_gateway.Prelude.Dict.{Dict, put}
use sushi_gateway.Model.{Service, UpstreamTarget}
use sushi_gateway.Health.{UpstreamHealthState, get_upstream_health_state, is_healthy}
use sushi_gateway.Balancer.{Env, is_upstream_available, tags_match}
use sushi_gateway.Balancer.Connections.{Connections, get_active_connections}
use sushi_gateway.Balancer.LeastConnections.{Float64}
use sushi_gateway.Balancer.Maglev.{Ring, new_consistent_hash_ring, get_upstream_with_filter}

-- consistentHashCache, by the name of the service
abbrev pub Rings : Type 0
Rings = Dict Ring

-- totalConns, the bit pattern of an int64
unfoldable pub total_conns : Connections → String → List UpstreamTarget → ℕ
total_conns conns name [] = 0
total_conns conns name (u ∷ us) =
    (get_active_connections conns name u.id + total_conns conns name us) % int_mod

abbrev pub not_unhealthy : Option UpstreamHealthState → Bool
not_unhealthy none = true
not_unhealthy (some st) = is_healthy st.status

-- the index of the first upstream of an id
unfoldable pub index_of : String → ℕ → List UpstreamTarget → Option ℕ
index_of id i [] = none
index_of id i (u ∷ us) =
    let rest = index_of id (suc i) us in if str_eq u.id id then some i else rest

-- the verification of what the ring returned
unfoldable pub verified : Env → Service → List String → UpstreamTarget → Bool
verified env s tags u =
    tags_match u.tags tags && (is_upstream_available env s u || not s.health.enabled)

unfoldable pub locate : Env → Service → List String → Option UpstreamTarget → Option ℕ
unfolding index_of verified
locate env s tags none = none
locate env s tags (some u) =
    if not (str_eq u.id "") && verified env s tags u then index_of u.id 0 s.upstreams else none

-- LoadOrStore; the ring that is made is dropped if the cache has one
unfoldable pub ring_of : Option Ring → Option Ring → String → Rings → Option (Ring × Rings)
ring_of none made name rings = none
ring_of (some fresh) none name rings = some (fresh, put name fresh rings)
ring_of (some fresh) (some held) name rings = some (held, rings)

module _ (F : Float64) (one five_quarters : F.Number) where
  abbrev average_load : ℕ → ℕ → F.Number
  average_load total healthy =
      if healthy == 0
      then F.of_int (pos 0)
      else F.divide (F.of_int (signed total)) (F.of_int (pos healthy))

  unfoldable pub max_load : ℕ → ℕ → F.Number
  max_load total healthy =
      let bound = F.multiply (average_load total healthy) five_quarters in
      if F.below bound one then one else bound

  -- more than 10 connections in all, and more at this upstream than the bound
  unfoldable pub overloaded : Env → Connections → Service → UpstreamTarget → Bool
  unfolding total_conns max_load
  overloaded env conns s u =
      let total = total_conns conns s.name s.upstreams in
      let healthy = length (keep (λ v. is_upstream_available env s v) s.upstreams) in
      ltb_ℤ (pos 10) (signed total)
      && F.below (max_load total healthy)
          (F.of_int (signed (get_active_connections conns s.name u.id)))

  -- the filter
  unfoldable pub admits : Env → Connections → Service → List String → UpstreamTarget → Bool
  unfolding overloaded
  admits env conns s tags u =
      tags_match u.tags tags
      && is_upstream_available env s u
      && (not s.health.enabled || not_unhealthy (get_upstream_health_state env.health s.name u.id))
      && not (overloaded env conns s u)

  module _ (sum64 : String → ℕ) where
    -- the outer `none` is a panic while a ring is built or read
    unfoldable pub handle_ip_hash :
        Env → Connections → Rings → Service → String → List String → Option (Option ℕ × Rings)
    unfolding ring_of admits locate
    handle_ip_hash env conns rings s key tags = do
      (ring, rings') ← ring_of (new_consistent_hash_ring sum64 s) (rings s.name) s.name rings
      chosen ← get_upstream_with_filter sum64 ring key (admits env conns s tags)
      some (locate env s tags chosen, rings')
