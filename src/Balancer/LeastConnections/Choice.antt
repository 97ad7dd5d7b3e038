-- ===== src/Balancer/LeastConnections/Choice.antt =====
-- load_balancer.go: what the power of two choices returns.
use sushi_gateway.Prelude.{
  ℕ, String, ◌≡◌, ◌≢◌, ◌<◌, ◌≤◌, refl, sym, ◌∙◌, true, false, some, List, [], ◌∷◌, arith, Memᴰ,
  Memᴰ-cases, length, get_elem?, ◌==◌, ==_iff, Bool-cases, inl, inr, ◌⊎◌,
}
use sushi_gateway.Model.{Service, UpstreamTarget}
use sushi_gateway.Balancer.{Env, is_upstream_available, indices}
use sushi_gateway.Balancer.Candidates.{indices_iff}
use sushi_gateway.Balancer.RoundRobin.Selection.{get_elem?-Memᴰ}
use sushi_gateway.Balancer.Connections.{Connections}
use sushi_gateway.Balancer.LeastConnections.{
  Float64, get_healthy_candidates, redraw, calculate_least_conn_score, better, candidate_at, choose,
  handle_least_connections_p2c, handle_least_connections,
}

redraw-some :
    (i : ℕ) (draws : List ℕ) (j : ℕ)
    → Memᴰ j draws
    → j ≢ i
    → (r : ℕ) × ((redraw i draws ≡ some r) × (Memᴰ r draws × (r ≢ i)))
unfolding redraw
redraw-some i [] j m n = elim m [ ]
redraw-some i (d ∷ draws) j m n = elim (Bool-cases (i == d)) [
  | inr e ↦
      (d, (simp e, (Memᴰ.head refl, λ (same : d ≡ i). let t = (==_iff i d).1 (sym same) in cc)))
  | inl e ↦ elim (Memᴰ-cases m) [
    | inl same ↦ absurd (n (same ∙ sym ((==_iff i d).0 e)))
    | inr m' ↦
        let (r, (q, (k, o))) = redraw-some i draws j m' n in (r, (simp e q, (Memᴰ.tail k, o)))
  ]
]

-- the candidate at a position, which is an available upstream
pub record Drawn (env : Env) (s : Service) (i : ℕ) : Type 0 where
  pub index : ℕ
  pub upstream : UpstreamTarget
  pub at : get_elem? (get_healthy_candidates env s) i ≡ some index
  pub there : get_elem? s.upstreams index ≡ some upstream
  pub ok : is_upstream_available env s upstream ≡ true

drawn :
    (env : Env) (s : Service) (i : ℕ) → i < length (get_healthy_candidates env s) → Drawn env s i
unfolding get_healthy_candidates
drawn env s i h =
    let (c, at, m) =
      get_elem?-Memᴰ (indices (λ u. is_upstream_available env s u) 0 s.upstreams) i h in
    let (u, there, ok) = (indices_iff (λ u. is_upstream_available env s u) s.upstreams c).0 m in
    record { index = c; upstream = u; at = at; there = there; ok = ok }

candidate_at-Drawn :
    (env : Env) (s : Service) (i : ℕ) (d : Drawn env s i)
    → candidate_at s (get_healthy_candidates env s) i ≡ some (d.index, d.upstream)
unfolding candidate_at
candidate_at-Drawn env s i d = simp (d.at, d.there)

module _ (F : Float64) where
  abbrev pub score : Connections → Service → UpstreamTarget → F.Number
  score conns s u = calculate_least_conn_score F conns s.name u

  -- `k` is the one of two drawn candidates that the other's score is not below
  abbrev pub IsBetter :
      (env : Env)
      → Connections
      → (s : Service) → (i r : ℕ) → Drawn env s i
      → Drawn env s r
      → ℕ
      → Type 0
  IsBetter env conns s i r d e k =
      ((k ≡ d.index) × (F.below (score conns s e.upstream) (score conns s d.upstream) ≡ false))
      ⊎ ((k ≡ e.index) × (F.below (score conns s d.upstream) (score conns s e.upstream) ≡ false))

  better-IsBetter :
      (below_asym : (x y : F.Number) → F.below x y ≡ true → F.below y x ≡ false) (env : Env)
      (conns : Connections) (s : Service) (i r : ℕ) (d : Drawn env s i) (e : Drawn env s r)
      → (k : ℕ) × ((better F conns s.name (some (d.index, d.upstream)) (some (e.index, e.upstream))
            ≡ some k)
          × IsBetter env conns s i r d e k)
  unfolding better
  better-IsBetter below_asym env conns s i r d e =
      elim (Bool-cases (F.below (score conns s d.upstream) (score conns s e.upstream))) [
        | inl b ↦ (d.index, (simp b, inl (refl, below_asym _ _ b)))
        | inr b ↦ (e.index, (simp b, inr (refl, b)))
      ]

  choose-better :
      (env : Env) (conns : Connections) (s : Service) (i : ℕ) (draws : List ℕ) (r : ℕ)
      (d : Drawn env s i) (e : Drawn env s r)
      → redraw i draws ≡ some r
      → choose F conns s (get_healthy_candidates env s) (i ∷ draws)
        ≡ better F conns s.name (some (d.index, d.upstream)) (some (e.index, e.upstream))
  unfolding choose
  choose-better env conns s i draws r d e h =
      simp (h, candidate_at-Drawn env s i d, candidate_at-Drawn env s r e)

  p2c-choose :
      (conns : Connections) (s : Service) (candidates draws : List ℕ) (k : ℕ)
      → 2 ≤ length candidates
      → choose F conns s candidates draws ≡ some k
      → handle_least_connections_p2c F conns s candidates draws ≡ some (some k)
  unfolding handle_least_connections_p2c
  p2c-choose conns s [] draws k h e = absurd (omega arith)
  p2c-choose conns s (c ∷ []) draws k h e = absurd (omega arith)
  p2c-choose conns s (c ∷ d ∷ cs) draws k h e = simp e

  handle-p2c :
      (env : Env) (conns : Connections) (s : Service) (tags : List String) (draws : List ℕ)
      → 2 ≤ length s.upstreams
      → handle_least_connections F env conns s tags draws
        ≡ handle_least_connections_p2c F conns s (get_healthy_candidates env s) draws
  unfolding handle_least_connections
  handle-p2c env conns s tags draws many =
      let n0 : (length s.upstreams == 0) ≡ false = ground arith in
      let n1 : (length s.upstreams == 1) ≡ false = ground arith in simp (n0, n1)

  -- With two available upstreams or more, the power of two choices draws two different
  -- candidates, both available, and returns the one that the other's score is not below: provided
  -- that each draw is below the number of candidates, that one of the draws after the first
  -- differs from the first, and that of two numbers at most one is below the other.
  pub handle_least_connections-IsBetter :
      (below_asym : (x y : F.Number) → F.below x y ≡ true → F.below y x ≡ false) (env : Env)
      (conns : Connections) (s : Service) (tags : List String) (i : ℕ) (draws : List ℕ) (j : ℕ)
      → 2 ≤ length s.upstreams
      → 2 ≤ length (get_healthy_candidates env s)
      → ((x : ℕ) → Memᴰ x (i ∷ draws) → x < length (get_healthy_candidates env s))
      → Memᴰ j draws
      → j ≢ i
      → (r : ℕ) × (Memᴰ r draws
          × ((r ≢ i)
              × ((d : Drawn env s i) × ((e : Drawn env s r) × ((k : ℕ) × ((handle_least_connections
                            F env conns s tags
                            (i ∷ draws)
                          ≡ some (some k))
                        × IsBetter env conns s i r d e k))))))
  handle_least_connections-IsBetter below_asym env conns s tags i draws j many enough below m n =
      let (r, (h, (k, o))) = redraw-some i draws j m n in
      let d = drawn env s i (below i (Memᴰ.head refl)) in
      let e = drawn env s r (below r (Memᴰ.tail k)) in
      let (w, (b, q)) = better-IsBetter below_asym env conns s i r d e in
      let run =
        handle-p2c env conns s tags (i ∷ draws) many
        ∙ p2c-choose conns s (get_healthy_candidates env s) (i ∷ draws) w enough
            (choose-better env conns s i draws r d e h ∙ b) in
      (r, (k, (o, (d, (e, (w, (run, q)))))))
