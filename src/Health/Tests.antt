-- ===== src/Health/Tests.antt =====
-- health.go: the theorems at concrete services and states.
use sushi_gateway.Prelude.{◌≡◌, refl, true, false, none, [], ◌∷◌, arith}
use sushi_gateway.Prelude.Int.{pos}
use sushi_gateway.Health.{UpstreamHealthState, healthy}
use sushi_gateway.Health.Thresholds.{observe, observe-healthy_stays}

abbrev up_state : UpstreamHealthState
up_state = record {
  status = healthy;
  consecutive_successes = 4;
  consecutive_failures = 0;
  last_check = none;
}

observe-healthy_stays_example :
    (observe (pos 1) (pos 2) ((false, 10) ∷ (true, 20) ∷ (false, 30) ∷ []) up_state).status
    ≡ healthy
observe-healthy_stays_example =
    observe-healthy_stays (pos 1) 2 ((false, 10) ∷ (true, 20) ∷ (false, 30) ∷ []) up_state refl
      (omega arith) (omega arith)
