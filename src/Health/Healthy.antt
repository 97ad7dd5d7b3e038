-- ===== src/Health/Healthy.antt =====
-- health.go, GetHealthyUpstreams: which upstreams it lists.
use mathlib.Core.List.{Memᴰ}
use sushi_gateway.Prelude.{String, ◌≡◌, ◌↔◌, true, Option, none, some, arith, keep_iff}
use sushi_gateway.Model.{Service, UpstreamTarget}
use sushi_gateway.Health.{
  HealthMap, UpstreamHealthState, healthy, get_upstream_health_state, get_health_status,
  get_healthy_upstreams, status_or, state_is_healthy,
}

-- `u` reads as healthy
abbrev pub ReadsHealthy : HealthMap → String → UpstreamTarget → Type 0
ReadsHealthy hm name u = get_health_status hm name u.id ≡ healthy

state_is_healthy_iff :
    (o : Option UpstreamHealthState) → (state_is_healthy o ≡ true) ↔ (status_or o ≡ healthy)
state_is_healthy_iff none = (λ h. cc, λ h. cc)
state_is_healthy_iff (some st) = ground arith

-- For a service with the simple health check, GetHealthyUpstreams lists exactly the upstreams of
-- the service whose status reads as healthy.
pub get_healthy_upstreams_iff :
    (hm : HealthMap) (s : Service) (u : UpstreamTarget)
    → s.health.enabled ≡ true
    → Memᴰ u (get_healthy_upstreams hm s) ↔ (Memᴰ u s.upstreams × ReadsHealthy hm s.name u)
unfolding get_healthy_upstreams get_health_status
get_healthy_upstreams_iff hm s u h =
    let test =
      λ (v : UpstreamTarget). state_is_healthy (get_upstream_health_state hm s.name v.id) in
    let reads = state_is_healthy_iff (get_upstream_health_state hm s.name u.id) in
    let listed = keep_iff test s.upstreams u in
    rw h (λ m. ((listed.0 m).0, reads.0 (listed.0 m).1), λ m. listed.1 (m.0, reads.1 m.1))
