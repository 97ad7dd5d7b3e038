-- ===== src/Health/Active/FirstResult.antt =====
-- health.go, CheckHealthForAllServices: which thresholds an active check really applies.
use sushi_gateway.Prelude.{
  ℕ, ◌+◌, ◌<◌, ◌≡◌, ◌≢◌, Bool, true, false, arith, if◌then◌else◌, Option, none, some, Option-cases,
  inl, inr,
}
use sushi_gateway.Prelude.Int.{half_mod}
use sushi_gateway.Model.{Service, UpstreamTarget, ActiveHealthCheck}
use sushi_gateway.Health.{
  HealthMap, HealthStatus, UpstreamHealthState, healthy, unhealthy, next_state,
  get_upstream_health_state, get_health_status, has_active,
}
use sushi_gateway.Health.Lookup.{status-process_health_result}
use sushi_gateway.Health.Active.{
  Probe, Plan, plan_for, plan_of, check_upstream, probe_path, probe_timeout, default_plan,
}

-- the status that a probe's result gives
abbrev pub status_of : Bool → HealthStatus
status_of ok = if ok then healthy else unhealthy

-- The thresholds of a plan do not delay a change away from the status that the plan was made for.
next_state-plan :
    (a : ActiveHealthCheck) (st : UpstreamHealthState) (ok : Bool) (now : ℕ)
    → st.consecutive_successes + 1 < half_mod
    → st.consecutive_failures + 1 < half_mod
    → let p = plan_for a st.status in
      (next_state ok p.healthy_threshold p.unhealthy_threshold now st).status ≡ status_of ok
unfolding next_state plan_for
next_state-plan a st true now h k = ground arith
next_state-plan a st false now h k = ground arith

plan_of-some :
    (now : ℕ) (a : ActiveHealthCheck) (st : UpstreamHealthState) (p : Plan)
    → plan_of now (some a) (some st) ≡ some p
    → p ≡ plan_for a st.status
unfolding plan_of
plan_of-some now a st p e = ground arith

next_state-plan_of :
    (now : ℕ) (a : Option ActiveHealthCheck) (st : UpstreamHealthState) (ok : Bool) (p : Plan)
    → st.consecutive_successes + 1 < half_mod
    → st.consecutive_failures + 1 < half_mod
    → plan_of now a (some st) ≡ some p
    → (next_state ok p.healthy_threshold p.unhealthy_threshold now st).status ≡ status_of ok
unfolding plan_of default_plan next_state
next_state-plan_of now none st true p h k e = ground arith
next_state-plan_of now none st false p h k e = ground arith
next_state-plan_of now (some a) st ok p h k e =
    rw (plan_of-some now a st p e) (next_state-plan a st ok now h k)

-- Whatever `successes` and `http_failures` an active check configures, an upstream whose probe is
-- due takes the status of that one probe: healthy if it succeeded, unhealthy if it failed. (Its
-- counters are taken to be below 2 ^ 63 - 1.)
pub check_upstream-first_result :
    (probe : Probe) (now : ℕ) (s : Service) (u : UpstreamTarget) (hm : HealthMap)
    → (st : UpstreamHealthState) → get_upstream_health_state hm s.name u.id ≡ some st
    → plan_of now (has_active s.upstream_health_checks) (some st) ≢ none
    → st.consecutive_successes + 1 < half_mod
    → st.consecutive_failures + 1 < half_mod
    → let a = has_active s.upstream_health_checks in
      get_health_status (check_upstream probe now s u hm) s.name u.id
      ≡ status_of (probe s u (probe_path a s.health.path) (probe_timeout a))
unfolding check_upstream
check_upstream-first_result probe now s u hm st e due h k =
    let a = has_active s.upstream_health_checks in
    let ok = probe s u (probe_path a s.health.path) (probe_timeout a) in
    elim (Option-cases (plan_of now a (some st))) [
      | inl p ↦ absurd (due p)
      | inr (p, q) ↦
          rw (e, q, check_upstream)
            (rw
              (
                status-process_health_result s.name u.id ok p.healthy_threshold
                    p.unhealthy_threshold now hm,
                e,
              )
              (next_state-plan_of now a st ok p h k q))
    ]
