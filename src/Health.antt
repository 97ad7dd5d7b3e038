-- ===== src/Health.antt =====
-- sushi-proxy/internal/gateway/health.go: the health map and every operation on it.
-- Times are nanoseconds; `none` is the zero `time.Time`. A pointer to a state is the state itself:
-- each is stored at one place of the map.
pub mod Active
pub mod Thresholds
pub mod Lookup
pub mod Passive
pub mod Healthy
mod Tests
use sushi_gateway.Prelude.{
  ℕ, String, ◌+◌, ◌-◌, Bool, true, false, ◌&&◌, ◌||◌, not, Option, none, some, List, [], ◌∷◌,
  if◌then◌else◌, keep,
}
use sushi_gateway.Prelude.Int.{ℤ, pos, ltb_ℤ, leb_ℤ, sub_ℕ, inc, signed, seconds}
use sushi_gateway.Prelude.Dict.{Dict, empty, put, or_default}
use sushi_gateway.Model.{
  Service, UpstreamTarget, HealthCheckConfig, ActiveHealthCheck, PassiveHealthCheck,
  PassiveHealthyConfig, PassiveUnhealthyConfig,
}

pub data HealthStatus : Type 0 where
  healthy unhealthy not_available : HealthStatus

pub record UpstreamHealthState : Type 0 where
  pub status : HealthStatus
  pub consecutive_successes : ℕ
  pub consecutive_failures : ℕ
  pub last_check : Option ℕ

-- serviceHealthMap: service name, then upstream id
abbrev pub HealthMap : Type 0
HealthMap = Dict (Dict UpstreamHealthState)

abbrev pub is_healthy : HealthStatus → Bool
is_healthy healthy = true
is_healthy _ = false

abbrev pub is_unhealthy : HealthStatus → Bool
is_unhealthy unhealthy = true
is_unhealthy _ = false

abbrev pub same_status : HealthStatus → HealthStatus → Bool
same_status healthy s = is_healthy s
same_status unhealthy s = is_unhealthy s
same_status not_available s = not (is_healthy s || is_unhealthy s)

-- &UpstreamHealthState{Status: status}
abbrev pub fresh : HealthStatus → UpstreamHealthState
fresh s = record {
  status = s;
  consecutive_successes = 0;
  consecutive_failures = 0;
  last_check = none;
}

-- The inner map of a service, made where it is missing.
abbrev pub service_map : HealthMap → String → Dict UpstreamHealthState
service_map hm name = or_default (hm name) empty

abbrev pub put_state : String → String → UpstreamHealthState → HealthMap → HealthMap
put_state name id st hm = put name (put id st (service_map hm name)) hm

initialize_upstreams : List UpstreamTarget → Dict UpstreamHealthState → Dict UpstreamHealthState
initialize_upstreams [] m = m
initialize_upstreams (u ∷ us) m = initialize_upstreams us (put u.id (fresh not_available) m)

unfoldable pub initialize : List Service → HealthMap → HealthMap
unfolding initialize_upstreams
initialize [] hm = hm
initialize (s ∷ ss) hm =
    initialize ss (put s.name (initialize_upstreams s.upstreams (service_map hm s.name)) hm)

unfoldable pub update_health_state : String → String → UpstreamHealthState → HealthMap → HealthMap
update_health_state name id st hm = put_state name id st hm

-- the state after a status is forced on it
unfoldable pub forced : HealthStatus → Option UpstreamHealthState → UpstreamHealthState
forced s none = fresh s
forced s (some st) =
    if same_status st.status s
    then st
    else record st { status = s; consecutive_failures = 0; consecutive_successes = 0 }

unfoldable pub update_health_status : String → String → HealthStatus → HealthMap → HealthMap
unfolding forced
update_health_status name id s hm = put_state name id (forced s (service_map hm name id)) hm

abbrev pub read : Option (Dict UpstreamHealthState) → String → Option UpstreamHealthState
read none id = none
read (some m) id = m id

-- GetUpstreamHealthState and GetUpstreamHealth; `none` for nil
unfoldable pub get_upstream_health_state : HealthMap → String → String → Option UpstreamHealthState
get_upstream_health_state hm name id = read (hm name) id

abbrev pub status_or : Option UpstreamHealthState → HealthStatus
status_or none = not_available
status_or (some st) = st.status

unfoldable pub get_health_status : HealthMap → String → String → HealthStatus
unfolding get_upstream_health_state
get_health_status hm name id = status_or (get_upstream_health_state hm name id)

-- the branches of processHealthResult, on the state that it finds or makes
unfoldable pub next_state : Bool → ℤ → ℤ → ℕ → UpstreamHealthState → UpstreamHealthState
next_state true healthy_threshold unhealthy_threshold now st =
    let n = inc st.consecutive_successes in
    record st {
      status =
          if not (is_healthy st.status) && leb_ℤ healthy_threshold (signed n)
          then healthy
          else st.status;
      consecutive_successes = n;
      consecutive_failures = 0;
      last_check = some now;
    }
next_state false healthy_threshold unhealthy_threshold now st =
    let n = inc st.consecutive_failures in
    record st {
      status =
          if not (is_unhealthy st.status) && leb_ℤ unhealthy_threshold (signed n)
          then unhealthy
          else st.status;
      consecutive_successes = 0;
      consecutive_failures = n;
      last_check = some now;
    }

unfoldable pub process_health_result : String → String → Bool → ℤ → ℤ → ℕ → HealthMap → HealthMap
unfolding next_state
process_health_result name id success healthy_threshold unhealthy_threshold now hm =
    let st = or_default (service_map hm name id) (fresh not_available) in
    put_state name id (next_state success healthy_threshold unhealthy_threshold now st) hm

unfoldable pub has_active : Option HealthCheckConfig → Option ActiveHealthCheck
has_active none = none
has_active (some c) = c.active

pub has_passive : Option HealthCheckConfig → Option PassiveHealthCheck
has_passive none = none
has_passive (some c) = c.passive

abbrev pub is_some {ℓ} : {A : Type ℓ} → Option A → Bool
is_some none = false
is_some (some _) = true

is_health_check_enabled : Service → Bool
unfolding has_active
is_health_check_enabled s = s.health.enabled || is_some (has_active s.upstream_health_checks)

abbrev pub state_is_healthy : Option UpstreamHealthState → Bool
state_is_healthy none = false
state_is_healthy (some st) = is_healthy st.status

unfoldable pub get_healthy_upstreams : HealthMap → Service → List UpstreamTarget
unfolding is_health_check_enabled
get_healthy_upstreams hm s =
    if is_health_check_enabled s
    then keep (λ u. state_is_healthy (get_upstream_health_state hm s.name u.id)) s.upstreams
    else s.upstreams

-- a threshold that is 0 or less counts as 1
at_least_one : ℤ → ℤ
at_least_one t = if leb_ℤ t (pos 0) then pos 1 else t

passive_healthy_threshold : Bool → Option PassiveHealthyConfig → ℤ
passive_healthy_threshold true (some c) = c.successes
passive_healthy_threshold _ _ = pos 1

passive_unhealthy_threshold : Bool → Option PassiveUnhealthyConfig → ℤ
passive_unhealthy_threshold false (some c) = c.http_failures
passive_unhealthy_threshold _ _ = pos 1

record_passive : Option PassiveHealthCheck → String → String → Bool → ℕ → HealthMap → HealthMap
unfolding at_least_one passive_healthy_threshold passive_unhealthy_threshold
record_passive none name id success now hm = hm
record_passive (some p) name id success now hm =
    process_health_result name id success
      (at_least_one (passive_healthy_threshold success p.healthy))
      (at_least_one (passive_unhealthy_threshold success p.unhealthy)) now hm

unfoldable pub record_passive_result : Service → String → Bool → ℕ → HealthMap → HealthMap
unfolding record_passive has_passive
record_passive_result s id success now hm =
    record_passive (has_passive s.upstream_health_checks) s.name id success now hm
