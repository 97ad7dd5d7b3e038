-- ===== src/Balancer/Weighted.antt =====
-- load_balancer.go: handleWeighted, smooth weighted round robin with a slow start. A call holds the
-- lock of the service's states, so it is one step; times are nanoseconds of the monotonic clock.
mod Tests
pub mod Weights
pub mod Totals
pub mod Visits
pub mod Balanced
pub mod Fairness
use sushi_gateway.Prelude.{
  ℕ, suc, String, Bool, true, false, ◌&&◌, Option, none, some, List, [], ◌∷◌, ◌-◌, if◌then◌else◌,
  length, ltb, ◌==◌,
}
use sushi_gateway.Prelude.Int.{ℤ, pos, negsuc, ◌+ℤ◌, ◌-ℤ◌, ltb_ℤ, wrap}
use sushi_gateway.Prelude.Dict.{Dict, empty, put, or_default}
use sushi_gateway.Model.{Service, UpstreamTarget}
use sushi_gateway.Balancer.{Env, eligible}
use sushi_gateway.Balancer.LeastConnections.{Float64, weight_or_1}

pub record WeightedState : Type 0 where
  pub current_weight : ℤ
  pub effective_weight : ℤ
  pub first_seen_at : ℕ

-- the states of a service, by the id of the upstream
abbrev pub States : Type 0
States = Dict WeightedState

-- weightedCache, by the name of the service
abbrev pub WeightedCache : Type 0
WeightedCache = Dict States

-- SlowStartDuration
abbrev pub slow_start_duration : ℕ
slow_start_duration = 60000000000

-- candidateIndices, each with the upstream at the index
unfoldable pub numbered :
    (UpstreamTarget → Bool) → ℕ → List UpstreamTarget → List (ℕ × UpstreamTarget)
numbered p i [] = []
numbered p i (u ∷ us) = let rest = numbered p (suc i) us in if p u then (i, u) ∷ rest else rest

-- the variables of the loop; bestUpstreamIndex is kept with its upstream, `none` for -1
pub record Round : Type 0 where
  pub states : States
  pub total_weight : ℤ
  pub best : Option (ℕ × UpstreamTarget)
  pub max_current_weight : ℤ

-- -1 << 31
abbrev pub least_weight : ℤ
least_weight = negsuc 2147483647

unfoldable pub first_state : UpstreamTarget → ℕ → WeightedState
first_state u now = record {
  current_weight = pos 0;
  effective_weight = weight_or_1 u.weight;
  first_seen_at = now;
}

module _ (F : Float64) where
  abbrev at_least_tenth : F.Number → F.Number
  at_least_tenth factor = if F.below factor F.tenth then F.tenth else factor

  -- the scaled weight in the slow start
  unfoldable pub ramped : ℤ → ℕ → ℤ
  ramped configured uptime =
      let w = F.to_int (
        F.multiply (F.of_int configured) (
          at_least_tenth
            (F.divide (F.of_int (pos uptime)) (F.of_int (pos slow_start_duration))))) in
      if ltb_ℤ w (pos 1) then pos 1 else w

  -- effectiveWeight
  unfoldable pub weight_after : ℤ → ℕ → ℤ
  unfolding ramped
  weight_after configured uptime =
      if ltb uptime slow_start_duration then ramped configured uptime else configured

  -- the state of an upstream after its turn in the loop
  unfoldable pub raised : UpstreamTarget → ℕ → WeightedState → WeightedState
  unfolding weight_after
  raised u now st =
      let w = weight_after (weight_or_1 u.weight) (now - st.first_seen_at) in
      record st { current_weight = wrap (st.current_weight +ℤ w); effective_weight = w }

  -- whether the upstream's weight is the largest so far
  unfoldable pub weigh : ℕ → UpstreamTarget → WeightedState → Round → Round
  weigh i u st r =
      let ahead = ltb_ℤ r.max_current_weight st.current_weight in
      record {
        states = put u.id st r.states;
        total_weight = wrap (r.total_weight +ℤ st.effective_weight);
        best = if ahead then some (i, u) else r.best;
        max_current_weight = if ahead then st.current_weight else r.max_current_weight;
      }

  unfoldable pub visit : ℕ → ℕ → UpstreamTarget → Round → Round
  unfolding weigh raised first_state
  visit now i u r = weigh i u (raised u now (or_default (r.states u.id) (first_state u now))) r

  unfoldable pub visit_all : ℕ → List (ℕ × UpstreamTarget) → Round → Round
  unfolding visit
  visit_all now [] r = r
  visit_all now ((i, u) ∷ cs) r = visit_all now cs (visit now i u r)

  unfoldable pub lower : Option WeightedState → String → ℤ → States → States
  lower none id total states = states
  lower (some st) id total states =
      put id (record st { current_weight = wrap (st.current_weight -ℤ total) }) states

  -- the upstream of the largest weight pays the total
  unfoldable pub take_best : Option (ℕ × UpstreamTarget) → Round → ℕ × States
  unfolding lower
  take_best none r = (0, r.states)
  take_best (some (i, u)) r = (i, lower (r.states u.id) u.id r.total_weight r.states)

  -- one call, for two candidates or more
  unfoldable pub swrr : ℕ → List (ℕ × UpstreamTarget) → States → ℕ × States
  unfolding visit_all take_best
  swrr now cs states =
      let r = visit_all now cs (record {
        states = states;
        total_weight = pos 0;
        best = none;
        max_current_weight = least_weight;
      }) in
      take_best r.best r

  unfoldable pub weighted_among :
      ℕ → Service → List (ℕ × UpstreamTarget) → WeightedCache → Option ℕ × WeightedCache
  unfolding swrr
  weighted_among now s [] cache = (none, cache)
  weighted_among now s ((i, u) ∷ []) cache = (some i, cache)
  weighted_among now s (c ∷ d ∷ cs) cache =
      let (i, states) = swrr now (c ∷ d ∷ cs) (or_default (cache s.name) empty) in
      (some i, put s.name states cache)

  unfoldable pub handle_weighted :
      Env → ℕ → WeightedCache → Service → List String → Option ℕ × WeightedCache
  unfolding weighted_among numbered
  handle_weighted env now cache s tags =
      if length s.upstreams == 0
      then (none, cache)
      else if length s.upstreams == 1
      then (some 0, cache)
      else weighted_among now s (numbered (eligible env s tags) 0 s.upstreams) cache
