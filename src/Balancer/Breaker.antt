-- ===== src/Balancer/Breaker.antt =====
-- target_circuit_breaker.go: the settings that GetBreaker gives to gobreaker, and what RoundTrip
-- counts as a failure. The breaker itself is gobreaker's.
pub mod Lifecycle
use sushi_gateway.Prelude.{
  ℕ, String, ◌+◌, ◌*◌, ◌%◌, ◌^◌, Bool, true, false, ◌&&◌, ◌||◌, Option, none, some, if◌then◌else◌,
  ltb, leb,
}
use sushi_gateway.Prelude.Int.{ℤ, pos, pos_part, ltb_ℤ}
use sushi_gateway.Model.{
  Service, UpstreamTarget, HealthCheckConfig, PassiveHealthCheck, PassiveUnhealthyConfig,
}
use sushi_gateway.Health.{HealthMap, healthy, unhealthy, update_health_status}
use sushi_gateway.Balancer.{CbState, closed, half_open, open_state}

-- gobreaker.Counts, uint32 numbers
pub record Counts : Type 0 where
  pub requests : ℕ
  pub total_failures : ℕ
  pub consecutive_failures : ℕ

threshold_of : Option PassiveUnhealthyConfig → ℤ
threshold_of none = pos 10
threshold_of (some c) = if ltb_ℤ (pos 0) c.http_failures then c.http_failures else pos 10

passive_threshold : Option PassiveHealthCheck → ℤ
unfolding threshold_of
passive_threshold none = pos 10
passive_threshold (some p) = threshold_of p.unhealthy

checks_threshold : Option HealthCheckConfig → ℤ
unfolding passive_threshold
checks_threshold none = pos 10
checks_threshold (some c) = passive_threshold c.passive

-- failureThreshold
unfoldable pub failure_threshold : Service → ℤ
unfolding checks_threshold
failure_threshold s = checks_threshold s.upstream_health_checks

-- uint32(failureThreshold), which is above 0
abbrev pub to_uint32 : ℤ → ℕ
to_uint32 n = pos_part n % 2 ^ 32

-- ReadyToTrip. The rate is at least 0.5 when the failures are at least half of the requests: the
-- quotient of two uint32 as a float64 is below 0.5 when the exact one is.
unfoldable pub ready_to_trip : Service → Counts → Bool
ready_to_trip s c =
    leb (to_uint32 (failure_threshold s)) c.consecutive_failures
    || (leb 10 c.requests && leb c.requests (2 * c.total_failures))

-- OnStateChange
unfoldable pub on_state_change : Service → UpstreamTarget → CbState → HealthMap → HealthMap
on_state_change s u open_state hm = update_health_status s.name u.id unhealthy hm
on_state_change s u closed hm = update_health_status s.name u.id healthy hm
on_state_change s u half_open hm = hm

-- Allow
unfoldable pub allow : CbState → Bool
allow open_state = false
allow _ = true

-- what the function that RoundTrip gives to Execute returns, for the status of the response or an
-- error of the network
unfoldable pub attempt : Option ℕ → Option ℕ
attempt none = none
attempt (some status) = if leb 500 status then none else some status
