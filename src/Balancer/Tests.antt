-- ===== src/Balancer/Tests.antt =====
-- load_balancer.go: the theorems at concrete services, cursors and tags.
use mathlib.Core.List.{Memᴰ}
use sushi_gateway.Prelude.{
  ℕ, ◌≡◌, ◌≢◌, refl, subst, true, none, some, [], ◌∷◌, arith, ◌&&◌, not, ◌*◌, ◌/◌, ltb, inl, inr,
  Memᴰ-cases,
}
use sushi_gateway.Prelude.Int.{pos, pos_part}
use sushi_gateway.Prelude.Dict.{empty, put}
use sushi_gateway.Model.{Service, UpstreamTarget, round_robin}
use sushi_gateway.Health.{
  HealthMap, healthy, unhealthy, put_state, fresh, get_upstream_health_state, get_health_status,
}
use sushi_gateway.Balancer.{
  Env, closed, half_open, eligible, contains, tags_match, is_upstream_available,
}
use sushi_gateway.Balancer.{available_at, healthy_or_probe, indices}
use sushi_gateway.Balancer.Connections.{Connections, increment}
use sushi_gateway.Balancer.LeastConnections.{
  Float64, handle_least_connections, get_healthy_candidates,
}
use sushi_gateway.Balancer.LeastConnections.Choice.{
  Drawn, IsBetter, handle_least_connections-IsBetter,
}
use sushi_gateway.Balancer.RoundRobin.{Cursors, handle_round_robin, handle_round_robin_excluding}
use sushi_gateway.Balancer.RoundRobin.Rotation.{rotations, rotations-cycle}
use sushi_gateway.Balancer.RoundRobin.Selection.{
  Selects, SomeHealthy, handle_round_robin-Selects, handle_round_robin_excluding-Selects,
}

abbrev first : UpstreamTarget
first = record { id = "u1"; target = "10.0.0.1:80"; weight = pos 1; tags = "eu" ∷ [] }

abbrev second : UpstreamTarget
second = record { id = "u2"; target = "10.0.0.2:80"; weight = pos 2; tags = "eu" ∷ "ssd" ∷ [] }

abbrev carts : Service
carts = record {
  name = "carts";
  url = "";
  protocol = "http";
  base_path = [];
  load_balancing_strategy = round_robin;
  upstreams = first ∷ second ∷ [];
  plugins = [];
  routes = [];
  health = record { enabled = true; path = [] };
  retry_options = record { max_retries = pos 0; retry_interval_ms = pos 0 };
  host = "";
  service_name = "";
  upstream_health_checks = none;
}

abbrev second_up : HealthMap
second_up = put_state "carts" "u1" (fresh unhealthy) (put_state "carts" "u2" (fresh healthy) empty)

abbrev all_down : HealthMap
all_down = put_state "carts" "u1" (fresh unhealthy) (put_state "carts" "u2" (fresh unhealthy) empty)

abbrev quiet : Env
quiet = record { health = second_up; breakers = λ _. closed }

abbrev probing : Env
probing = record { health = all_down; breakers = λ _. half_open }

abbrev turned : Cursors
turned = put "carts" 4 empty

rotations-cycle_example :
    (rotations 3 turned "carts" (0 ∷ 2 ∷ 5 ∷ [])).0 ≡ some 2 ∷ some 5 ∷ some 0 ∷ []
rotations-cycle_example = rotations-cycle turned "carts" (0 ∷ 2 ∷ 5 ∷ []) (omega arith)

handle_round_robin-Selects_example :
    Selects
      (eligible quiet carts ("eu" ∷ []))
      carts.upstreams
      (handle_round_robin quiet turned carts ("eu" ∷ [])).0
unfolding tags_match contains get_upstream_health_state get_health_status
handle_round_robin-Selects_example =
    handle_round_robin-Selects quiet turned carts ("eu" ∷ []) refl (λ e. cc)
      (second, (Memᴰ.tail (Memᴰ.head refl), refl, refl))

retry_example :
    Selects
      (λ u. not (contains ("u1" ∷ []) u.id) && eligible quiet carts [] u)
      carts.upstreams
      (handle_round_robin_excluding quiet turned carts ("u1" ∷ []) []).0
retry_example = handle_round_robin_excluding-Selects quiet turned carts ("u1" ∷ []) []

none_healthy : ¬ (SomeHealthy probing carts [])
unfolding get_upstream_health_state get_health_status
none_healthy (u, (Memᴰ.head e, h, t)) =
    let at : get_health_status all_down "carts" first.id ≡ healthy =
      subst (λ (w : UpstreamTarget). get_health_status all_down "carts" w.id ≡ healthy) e h in
    cc
none_healthy (u, (Memᴰ.tail (Memᴰ.head e), h, t)) =
    let at : get_health_status all_down "carts" second.id ≡ healthy =
      subst (λ (w : UpstreamTarget). get_health_status all_down "carts" w.id ≡ healthy) e h in
    cc
none_healthy (u, (Memᴰ.tail (Memᴰ.tail m), h, t)) = elim m [ ]

-- the breaker of each target is half open, and each is available to a probe
probe_available : eligible probing carts [] first && eligible probing carts [] second ≡ true
unfolding tags_match is_upstream_available get_upstream_health_state
probe_available = refl

-- thousandths
abbrev pub thousandths : Float64
thousandths = record {
  Number = ℕ;
  of_int = λ n. pos_part n * 1000;
  divide = λ x y. x * 1000 / y;
  multiply = λ x y. x * y / 1000;
  tenth = 100;
  to_int = λ x. pos (x / 1000);
  below = ltb;
}

abbrev one_busy : Connections
one_busy = increment "carts" "u1" empty

two_choices_example :
    (r : ℕ) × (Memᴰ r (0 ∷ 1 ∷ [])
      × ((r ≢ 0)
          × ((d : Drawn probing carts 0) × ((e : Drawn probing carts r) × ((k : ℕ)
                  × ((handle_least_connections thousandths probing one_busy carts []
                          (0 ∷ 0 ∷ 1 ∷ [])
                        ≡ some (some k))
                      × IsBetter thousandths probing one_busy carts 0 r d e k))))))
unfolding get_healthy_candidates indices is_upstream_available available_at healthy_or_probe
    get_upstream_health_state
two_choices_example =
    handle_least_connections-IsBetter thousandths (λ x y h. ground arith) probing one_busy carts []
      0 (0 ∷ 1 ∷ []) 1 (omega arith) (omega arith)
      (λ x m. elim (Memᴰ-cases m) [
        | inl e ↦ omega arith
        | inr n ↦ elim (Memᴰ-cases n) [
          | inl e ↦ omega arith
          | inr k ↦ elim (Memᴰ-cases k) [ inl e ↦ omega arith | inr l ↦ elim l [ ] ]
        ]
      ])
      (Memᴰ.tail (Memᴰ.head refl)) (λ e. omega arith)
