-- ===== src/Balancer/Scan.antt =====
-- load_balancer.go and latency_balancer.go: the loops that keep the candidate of the lowest score,
-- and the linear scan of least connections (handleLeastConnectionsLinear).
use sushi_gateway.Prelude.{
  ℕ, String, ◌≡◌, refl, ap, ◌∙◌, ◌⊎◌, inl, inr, Bool, true, false, Option, none, some, List, [],
  ◌∷◌, if◌then◌else◌, map, Memᴰ, Memᴰ-cases, Bool-cases,
}
use sushi_gateway.Model.{Service, UpstreamTarget}
use sushi_gateway.Balancer.{Env, is_upstream_available}
use sushi_gateway.Balancer.Connections.{Connections}
use sushi_gateway.Balancer.LeastConnections.{Float64, calculate_least_conn_score}
use sushi_gateway.Balancer.Weighted.{numbered}

module _ {N : Type 0} (below : N → N → Bool) where
  -- bestIdx and lowestScore after the loop over the candidates with their scores
  unfoldable pub lowest : List (ℕ × N) → ℕ × N → ℕ × N
  lowest [] best = best
  lowest ((i, x) ∷ cs) (j, y) = lowest cs (if below x y then (i, x) else (j, y))

  -- no candidate's score is below the result's, which is a candidate's or the first one
  abbrev pub IsLowest : List (ℕ × N) → ℕ × N → ℕ × N → Type 0
  IsLowest cs first best =
      ((best ≡ first) ⊎ Memᴰ best cs)
      × ((c : ℕ × N) → Memᴰ c cs → below c.1 best.1 ≡ false)
      × ((z : N) → below z first.1 ≡ false → below z best.1 ≡ false)

  -- The loop ends with a candidate of the lowest score, or with what it began with if no candidate
  -- is below that, whatever the numbers are that an irreflexive and transitive test compares.
  pub lowest-IsLowest :
      ((x : N) → below x x ≡ false)
      → ((x y z : N) → below x y ≡ true → below y z ≡ true → below x z ≡ true)
      → (cs : List (ℕ × N)) (first : ℕ × N) → IsLowest cs first (lowest cs first)
  unfolding lowest
  lowest-IsLowest irreflexive transitive [] first = (inl refl, λ c m. elim m [ ], λ z h. h)
  lowest-IsLowest irreflexive transitive ((i, x) ∷ cs) (j, y) =
      after (below x y) refl (lowest-IsLowest irreflexive transitive cs)
    where
      lower : (z : N) → below x y ≡ true → below z y ≡ false → below z x ≡ false
      lower z e h = elim (Bool-cases (below z x)) [
        | inl zx ↦ let zy = transitive z x y zx e in cc
        | inr zx ↦ zx
      ]

      after :
          (b : Bool)
          → below x y ≡ b
          → ((first : ℕ × N) → IsLowest cs first (lowest cs first))
          → IsLowest ((i, x) ∷ cs) (j, y) (lowest cs (if b then (i, x) else (j, y)))
      after true e rest =
          let (from, least, keeps) = rest (i, x) in
          (
            elim from [ inl b ↦ inr (Memᴰ.head b) | inr m ↦ inr (Memᴰ.tail m) ],
            λ c m. elim (Memᴰ-cases m) [
              | inl same ↦ keeps c.1 (ap (λ (d : ℕ × N). below d.1 x) same ∙ irreflexive x)
              | inr k ↦ least c k
            ],
            λ z h. keeps z (lower z e h),
          )
      after false e rest =
          let (from, least, keeps) = rest (j, y) in
          (
            elim from [ inl b ↦ inl b | inr m ↦ inr (Memᴰ.tail m) ],
            λ c m. elim (Memᴰ-cases m) [
              | inl same ↦ keeps c.1 (ap (λ (d : ℕ × N). below d.1 y) same ∙ e)
              | inr k ↦ least c k
            ],
            keeps,
          )

module _ (F : Float64) (greatest : F.Number) where
  -- the candidates of the linear scan, with the score (connections + 1) / weight of each
  unfoldable pub scored : Connections → String → List (ℕ × UpstreamTarget) → List (ℕ × F.Number)
  unfolding calculate_least_conn_score
  scored conns name cs = map (λ c. (c.0, calculate_least_conn_score F conns name c.1)) cs

  unfoldable pub linear_among : Connections → String → List (ℕ × UpstreamTarget) → ℕ
  unfolding scored lowest
  linear_among conns name ((i, u) ∷ []) = i
  linear_among conns name cs = (lowest F.below (scored conns name cs) (0, greatest)).0

  abbrev any : UpstreamTarget → Bool
  any u = true

  or_none : List (ℕ × UpstreamTarget) → ℕ → Option ℕ
  or_none [] i = none
  or_none (c ∷ cs) i = some i

  -- without health checks every upstream is a candidate, and there is no test for none
  unfoldable pub handle_least_connections_linear : Env → Connections → Service → Option ℕ
  unfolding or_none linear_among
  handle_least_connections_linear env conns s =
      let available = numbered (λ u. is_upstream_available env s u) 0 s.upstreams in
      if s.health.enabled
      then or_none available (linear_among conns s.name available)
      else some (linear_among conns s.name (numbered any 0 s.upstreams))
