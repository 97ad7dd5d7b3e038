-- ===== src/Health/Active.antt =====
-- sushi-proxy/internal/gateway/health.go, CheckHealthForAllServices: one round of active probes.
-- The goroutines of a round each write the state of their own upstream under the mutex; the
-- model runs them in the order of the configuration. `probe` is the HTTP GET: whether it came
-- back with status 200, for a service, an upstream, a path and a timeout.
pub mod FirstResult
use sushi_gateway.Prelude.{
  ℕ, String, Bool, true, false, ◌&&◌, ◌||◌, not, Option, none, some, List, [], ◌∷◌, if◌then◌else◌,
}
use sushi_gateway.Prelude.Int.{ℤ, pos, ltb_ℤ, sub_ℕ, seconds}
use sushi_gateway.Model.{
  Bytes, Service, UpstreamTarget, ActiveHealthCheck, HealthyConfig, UnhealthyConfig,
}
use sushi_gateway.Health.{
  HealthMap, HealthStatus, UpstreamHealthState, healthy, unhealthy, not_available, has_active,
  get_upstream_health_state, process_health_result, is_some,
}

abbrev pub Probe : Type 0
Probe = Service → UpstreamTarget → Bytes → ℤ → Bool

-- interval and the two thresholds
pub record Plan : Type 0 where
  pub interval : ℤ
  pub healthy_threshold : ℤ
  pub unhealthy_threshold : ℤ

default_plan : Plan
default_plan = record {
  interval = seconds (pos 5);
  healthy_threshold = pos 1;
  unhealthy_threshold = pos 1;
}

-- `v` where it is above 0
positive_or {ℓ} : {A : Type ℓ} → ℤ → A → A → A
positive_or v x d = if ltb_ℤ (pos 0) v then x else d

plan_healthy : Option HealthyConfig → Plan
unfolding default_plan positive_or
plan_healthy none = default_plan
plan_healthy (some c) = record default_plan {
  interval = positive_or c.interval (seconds c.interval) default_plan.interval;
  healthy_threshold = positive_or c.successes c.successes (pos 1);
}

plan_unhealthy : Option UnhealthyConfig → Plan
unfolding default_plan positive_or
plan_unhealthy none = default_plan
plan_unhealthy (some c) = record default_plan {
  interval = positive_or c.interval (seconds c.interval) default_plan.interval;
  unhealthy_threshold = positive_or c.http_failures c.http_failures (pos 1);
}

plan_for : ActiveHealthCheck → HealthStatus → Plan
unfolding plan_healthy plan_unhealthy
plan_for a healthy = plan_healthy a.healthy
plan_for a unhealthy = plan_unhealthy a.unhealthy
plan_for a not_available = default_plan

-- time.Since(LastCheck) < interval, with a LastCheck that is not zero
too_early : ℕ → ℤ → Option ℕ → Bool
too_early now interval none = false
too_early now interval (some last) = ltb_ℤ (sub_ℕ now last) interval

-- The plan of a check, or `none` where it is not yet time for one.
unfoldable pub plan_of : ℕ → Option ActiveHealthCheck → Option UpstreamHealthState → Option Plan
unfolding plan_for too_early
plan_of now none st = some default_plan
plan_of now (some a) none = some default_plan
plan_of now (some a) (some st) =
    let p = plan_for a st.status in if too_early now p.interval st.last_check then none else some p

is_empty : Bytes → Bool
is_empty [] = true
is_empty (_ ∷ _) = false

pub probe_path : Option ActiveHealthCheck → Bytes → Bytes
unfolding is_empty
probe_path none path = path
probe_path (some a) path = if is_empty a.http_path then path else a.http_path

pub probe_timeout : Option ActiveHealthCheck → ℤ
unfolding positive_or
probe_timeout none = seconds (pos 5)
probe_timeout (some a) = positive_or a.timeout (seconds a.timeout) (seconds (pos 5))

-- one goroutine
unfoldable pub check_upstream : Probe → ℕ → Service → UpstreamTarget → HealthMap → HealthMap
unfolding plan_of probe_path probe_timeout has_active
check_upstream probe now s u hm =
    let a = has_active s.upstream_health_checks in
    elim (plan_of now a (get_upstream_health_state hm s.name u.id)) [
      | none ↦ hm
      | some p ↦
          process_health_result s.name u.id
            (probe s u (probe_path a s.health.path) (probe_timeout a)) p.healthy_threshold
            p.unhealthy_threshold now hm
    ]

check_upstreams : Probe → ℕ → Service → List UpstreamTarget → HealthMap → HealthMap
check_upstreams probe now s [] hm = hm
check_upstreams probe now s (u ∷ us) hm =
    check_upstreams probe now s us (check_upstream probe now s u hm)

unfoldable pub check_health_for_all_services : Probe → ℕ → List Service → HealthMap → HealthMap
unfolding check_upstreams has_active
check_health_for_all_services probe now [] hm = hm
check_health_for_all_services probe now (s ∷ ss) hm =
    let skip = not (is_some (has_active s.upstream_health_checks)) && not s.health.enabled in
    check_health_for_all_services probe now ss
      (if skip then hm else check_upstreams probe now s s.upstreams hm)
