-- ===== src/Health/Passive.antt =====
-- health.go, RecordPassiveResult: failures of proxied requests.
use sushi_gateway.Prelude.{
  ℕ, zero, suc, String, ◌+◌, ◌≤◌, ◌<◌, ◌≡◌, refl, ap, ◌∙◌, false, List, [], ◌∷◌, arith, length,
  some, str_eq_refl,
}
use sushi_gateway.Prelude.Int.{pos, half_mod}
use sushi_gateway.Prelude.Dict.{or_default}
use sushi_gateway.Model.{Service, HealthCheckConfig, PassiveHealthCheck, PassiveUnhealthyConfig}
use sushi_gateway.Health.{
  HealthMap, UpstreamHealthState, unhealthy, not_available, next_state, process_health_result,
  get_upstream_health_state, get_health_status, fresh, record_passive_result,
}
use sushi_gateway.Health.Lookup.{get-process_health_result}
use sushi_gateway.Health.Thresholds.{observe, failures, observe-failures}

-- a failed request at each of the times
unfoldable pub record_failures : Service → String → List ℕ → HealthMap → HealthMap
record_failures s id [] hm = hm
record_failures s id (t ∷ ts) hm = record_failures s id ts (record_passive_result s id false t hm)

-- the service counts failed requests, up to `t` in a row
pub record CountsFailures (s : Service) (t : ℕ) : Type 0 where
  pub checks : HealthCheckConfig
  pub passive : PassiveHealthCheck
  pub limits : PassiveUnhealthyConfig
  pub has_checks : s.upstream_health_checks ≡ some checks
  pub has_passive_checks : checks.passive ≡ some passive
  pub has_limits : passive.unhealthy ≡ some limits
  pub threshold : limits.http_failures ≡ pos t

abbrev pub current : HealthMap → String → String → UpstreamHealthState
current hm name id = or_default (get_upstream_health_state hm name id) (fresh not_available)

-- the threshold in force: 0 counts as 1
abbrev pub effective : ℕ → ℕ
effective zero = 1
effective (suc t) = suc t

thresholds :
    (s : Service) (id : String) (t x : ℕ) (hm : HealthMap)
    → (c : CountsFailures s t)
    → record_passive_result s id false x hm
      ≡ process_health_result s.name id false (pos 1) (pos (effective t)) x hm
unfolding record_passive_result
thresholds s id zero x hm c = rw (c.has_checks, c.has_passive_checks, c.has_limits, c.threshold)
thresholds s id (suc t) x hm c =
    rw (c.has_checks, c.has_passive_checks, c.has_limits, c.threshold) (ground arith)

record_passive_result-current :
    (s : Service) (id : String) (t x : ℕ) (hm : HealthMap)
    → (c : CountsFailures s t)
    → current (record_passive_result s id false x hm) s.name id
      ≡ next_state false (pos 1) (pos (effective t)) x (current hm s.name id)
record_passive_result-current s id t x hm c = ground (
  arith,
  thresholds s id t x hm c,
  str_eq_refl s.name,
  str_eq_refl id,
  get-process_health_result s.name id s.name id false (pos 1) (pos (effective t)) x hm,
)

record_failures-observe :
    (s : Service) (id : String) (t : ℕ) (ts : List ℕ) (hm : HealthMap)
    → (c : CountsFailures s t)
    → current (record_failures s id ts hm) s.name id
      ≡ observe (pos 1) (pos (effective t)) (failures ts) (current hm s.name id)
unfolding record_failures observe
record_failures-observe s id t [] hm c = refl
record_failures-observe s id t (x ∷ ts) hm c =
    record_failures-observe s id t ts (record_passive_result s id false x hm) c
    ∙ ap (observe (pos 1) (pos (effective t)) (failures ts))
        (record_passive_result-current s id t x hm c)

status-current :
    (hm : HealthMap) (name id : String) → get_health_status hm name id ≡ (current hm name id).status
unfolding get_health_status
status-current hm name id = ground arith

-- Where a service's passive check counts failures up to `t`, that many failed requests in a row
-- (one, if `t` is 0) make the upstream unhealthy, while its counter stays below 2 ^ 63.
pub record_failures-unhealthy :
    (s : Service) (id : String) (t : ℕ) (ts : List ℕ) (hm : HealthMap)
    → CountsFailures s t
    → effective t ≤ length ts
    → (current hm s.name id).consecutive_failures + length ts < half_mod
    → get_health_status (record_failures s id ts hm) s.name id ≡ unhealthy
record_failures-unhealthy s id t ts hm c h b =
    status-current (record_failures s id ts hm) s.name id
    ∙ ap (λ (x : UpstreamHealthState). x.status) (record_failures-observe s id t ts hm c)
    ∙ observe-failures (pos 1) (effective t) ts (current hm s.name id) (enough t h) b (omega arith)
  where
    enough : (t : ℕ) → effective t ≤ length ts → 0 < length ts
    enough zero h = omega arith
    enough (suc t) h = omega arith
