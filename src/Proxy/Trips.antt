-- ===== src/Proxy/Trips.antt =====
-- sushi_proxy.go and target_circuit_breaker.go: what a trip to an upstream does to the counts of
-- connections.
use sushi_gateway.Prelude.{ℕ, ◌≡◌, refl, ap, ◌∙◌, Bool, true, false, List, [], ◌∷◌}
use sushi_gateway.Model.{Service, UpstreamTarget}
use sushi_gateway.Balancer.{CbState, breaker_key}
use sushi_gateway.Balancer.Connections.{Connections, get_active_connections}
use sushi_gateway.Balancer.Connections.Balance.{SameCounts}
use sushi_gateway.Proxy.Transport.{
  Outgoing, World, Outside, RoundTrip, trip_result, has_succeeded, change_states, execute_breaker,
  round_trip,
}

abbrev pub counts : {σ : Type 0} → World σ → Connections
counts w = w.shared.connections

-- a trip of a request during which the requests that start also end
abbrev pub TripKeepsCounts : {σ R : Type 0} → (Outgoing → World σ → R × World σ) → Type 0
TripKeepsCounts {σ} trip =
    (out : Outgoing) (w : World σ) → SameCounts (counts (trip out w).1) (counts w)

-- While a request is on its way, the other requests that start also end; ServeHTTP itself touches
-- no count.
pub record KeepsCounts {σ : Type 0} (env : Outside σ) : Type 0 where
  pub base : (a : ℕ) → TripKeepsCounts (env.base a)
  pub serve :
      (a : ℕ) (trip : RoundTrip σ) → TripKeepsCounts trip → TripKeepsCounts (env.serve a trip)

change_states-counts :
    {σ : Type 0} (s : Service) (u : UpstreamTarget) (cs : List CbState) (w : World σ)
    → counts (change_states s u cs w) ≡ counts w
unfolding change_states
change_states-counts s u [] w = refl
change_states-counts s u (c ∷ cs) w = change_states-counts s u cs _

module _ {σ : Type 0} (env : Outside σ) (keeps : KeepsCounts env) (s : Service) (u : UpstreamTarget)
    (a : ℕ) where
  execute_breaker-keeps : (b : Bool) → TripKeepsCounts (execute_breaker env s u a b)
  unfolding execute_breaker
  execute_breaker-keeps false out w x y = refl
  execute_breaker-keeps true out w x y =
      ap (λ c. get_active_connections c x y)
        (change_states-counts {σ = σ} s u
          (env.after a (breaker_key s u) (has_succeeded (trip_result (env.base a out w).0)))
          (env.base a out w).1)
      ∙ keeps.base a out w x y

  pub round_trip-keeps : TripKeepsCounts (round_trip env s u a)
  unfolding round_trip
  round_trip-keeps out w x y =
      let (lets_through, changes) = env.before a (breaker_key s u) in
      execute_breaker-keeps lets_through out (change_states s u changes w) x y
      ∙ ap (λ c. get_active_connections c x y) (change_states-counts s u changes w)
