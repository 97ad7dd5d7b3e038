-- ===== src/Balancer/LeastConnections.antt =====
-- load_balancer.go: handleLeastConnections by the power of two choices, and the linear scan.
-- A float64 is a parameter, with the operations that the code applies to it. The random numbers
-- are a parameter too: the list of what mathrand.Intn gives in turn.
pub mod Choice
use sushi_gateway.Prelude.{
  ℕ, String, Bool, Option, none, some, List, [], ◌∷◌, if◌then◌else◌, length, get_elem?, ◌==◌, ◌>>=◌,
}
use sushi_gateway.Prelude.Int.{ℤ, pos, ltb_ℤ, signed, inc}
use sushi_gateway.Model.{Service, UpstreamTarget}
use sushi_gateway.Balancer.{Env, is_upstream_available, indices}
use sushi_gateway.Balancer.Connections.{Connections, get_active_connections}

-- float64(n), x / y, x * y, x < y, the constant 0.1 and int(x)
pub record Float64 : Type 1 where
  pub Number : Type 0
  pub of_int : ℤ → Number
  pub divide : Number → Number → Number
  pub multiply : Number → Number → Number
  pub tenth : Number
  pub to_int : Number → ℤ
  pub below : Number → Number → Bool

abbrev pub weight_or_1 : ℤ → ℤ
weight_or_1 w = if ltb_ℤ (pos 0) w then w else pos 1

-- getHealthyCandidates
unfoldable pub get_healthy_candidates : Env → Service → List ℕ
get_healthy_candidates env s = indices (λ u. is_upstream_available env s u) 0 s.upstreams

-- the loop that draws idx2 again while it is idx1; `none` if the draws run out
unfoldable pub redraw : ℕ → List ℕ → Option ℕ
redraw i [] = none
redraw i (j ∷ js) = let rest = redraw i js in if i == j then rest else some j

unfoldable pub candidate_at : Service → List ℕ → ℕ → Option (ℕ × UpstreamTarget)
candidate_at s candidates i = do
  c ← get_elem? candidates i
  u ← get_elem? s.upstreams c
  some (c, u)

module _ (F : Float64) where
  -- calculateLeastConnScore
  unfoldable pub calculate_least_conn_score : Connections → String → UpstreamTarget → F.Number
  calculate_least_conn_score conns name u =
      F.divide (F.of_int (signed (inc (get_active_connections conns name u.id))))
        (F.of_int (weight_or_1 u.weight))

  -- of two candidates with their upstreams, the one of the lower score, the second if neither is
  unfoldable pub better :
      Connections → String → Option (ℕ × UpstreamTarget) → Option (ℕ × UpstreamTarget) → Option ℕ
  better conns name (some (c1, u1)) (some (c2, u2)) = some (
      if F.below (calculate_least_conn_score conns name u1)
        (calculate_least_conn_score conns name u2)
      then c1
      else c2)
  better conns name _ _ = none

  -- the two draws and the comparison, for two candidates or more
  unfoldable pub choose : Connections → Service → List ℕ → List ℕ → Option ℕ
  choose conns s candidates [] = none
  choose conns s candidates (i ∷ draws) = do
    j ← redraw i draws
    better conns s.name (candidate_at s candidates i) (candidate_at s candidates j)

  -- handleLeastConnectionsP2C, for the candidates; the outer `none` is a draw that has not ended
  unfoldable pub handle_least_connections_p2c :
      Connections → Service → List ℕ → List ℕ → Option (Option ℕ)
  handle_least_connections_p2c conns s [] draws = some none
  handle_least_connections_p2c conns s (c ∷ []) draws = some (some c)
  handle_least_connections_p2c conns s (c ∷ d ∷ cs) draws = do
    k ← choose conns s (c ∷ d ∷ cs) draws
    some (some k)

  -- handleLeastConnections; the tags are passed on to getHealthyCandidates, which does not read them
  unfoldable pub handle_least_connections :
      Env → Connections → Service → List String → List ℕ → Option (Option ℕ)
  handle_least_connections env conns s tags draws =
      if length s.upstreams == 0
      then some none
      else if length s.upstreams == 1
      then some (some 0)
      else handle_least_connections_p2c conns s (get_healthy_candidates env s) draws
