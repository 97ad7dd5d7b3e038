-- ===== src/Balancer/Breaker/Lifecycle.antt =====
-- target_circuit_breaker.go, health.go and load_balancer.go: a breaker's state changes, the health
-- status that they force and the choice of upstreams.
use sushi_gateway.Prelude.{
  ◌≡◌, ◌≢◌, ◌↔◌, refl, ◌∙◌, Bool, true, false, Option, none, some, Bool-cases, inl, inr,
  str_eq_refl,
}
use sushi_gateway.Model.{Service, UpstreamTarget}
use sushi_gateway.Health.{
  HealthStatus, is_healthy, healthy, unhealthy, not_available, forced, get_upstream_health_state,
  UpstreamHealthState, same_status,
}
use sushi_gateway.Health.Lookup.{update_health_status_lem}
use sushi_gateway.Balancer.{
  Env, CbState, closed, half_open, open_state, breaker_key, is_upstream_available, available_at,
  healthy_or_probe,
}
use sushi_gateway.Balancer.Breaker.{on_state_change}

closed-available :
    (enabled : Bool) (o : Option UpstreamHealthState) (st : UpstreamHealthState)
    → o ≡ some st
    → st.status ≡ healthy
    → available_at closed enabled o ≡ true
unfolding available_at healthy_or_probe
closed-available false o st e h = refl
closed-available true o st e h = simp (e, h)

half_open-available :
    (enabled : Bool) (o : Option UpstreamHealthState)
    → o ≢ none
    → available_at half_open enabled o ≡ true
unfolding available_at healthy_or_probe
half_open-available false o n = refl
half_open-available true none n = absurd (n refl)
half_open-available true (some st) n = elim (Bool-cases (is_healthy st.status)) [
  | inl e ↦ simp e
  | inr e ↦ simp e
]

same_status_sound : (a b : HealthStatus) → same_status a b ≡ true → a ≡ b
same_status_sound healthy healthy h = refl
same_status_sound unhealthy unhealthy h = refl
same_status_sound not_available not_available h = refl
same_status_sound healthy unhealthy h = absurd cc
same_status_sound healthy not_available h = absurd cc
same_status_sound unhealthy healthy h = absurd cc
same_status_sound unhealthy not_available h = absurd cc
same_status_sound not_available healthy h = absurd cc
same_status_sound not_available unhealthy h = absurd cc

forced-status : (s : HealthStatus) (o : Option UpstreamHealthState) → (forced s o).status ≡ s
unfolding forced
forced-status s none = refl
forced-status s (some st) = elim (Bool-cases (same_status st.status s)) [
  | inl e ↦ simp e (same_status_sound st.status s e)
  | inr e ↦ simp e
]

-- Once a target's breaker has told of its change to a state, the target is available exactly when
-- that state is not the open one: closed, and half open, where it is let through as a probe. With
-- health checks on, the target must have an entry in the health map for this.
pub on_state_change-is_upstream_available :
    (env : Env) (s : Service) (u : UpstreamTarget) (to : CbState)
    → env.breakers (breaker_key s u) ≡ to
    → get_upstream_health_state env.health s.name u.id ≢ none
    → (is_upstream_available (record env { health = on_state_change s u to env.health }) s u ≡ true)
      ↔ (to ≢ open_state)
unfolding is_upstream_available on_state_change available_at
on_state_change-is_upstream_available env s u open_state b known =
    rw b (λ h. absurd cc, λ h. absurd (h refl))
on_state_change-is_upstream_available env s u closed b known = rw b (
  λ h e. cc,
  λ h.
      closed-available s.health.enabled _
        (forced healthy (get_upstream_health_state env.health s.name u.id))
        (update_health_status_lem s.name u.id s.name u.id healthy env.health
          ∙ simp (str_eq_refl s.name, str_eq_refl u.id))
        (forced-status healthy _),
)
on_state_change-is_upstream_available env s u half_open b known =
    rw b (λ h e. cc, λ h. half_open-available s.health.enabled _ known)
