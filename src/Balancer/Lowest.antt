-- ===== src/Balancer/Lowest.antt =====
-- latency_balancer.go and load_balancer.go: what the scans for the lowest score choose.
use sushi_gateway.Prelude.{
  ℕ, suc, String, ◌≡◌, refl, sym, ap, subst, ◌∙◌, inl, inr, Bool, true, false, ◌&&◌, not, some,
  List, [], ◌∷◌, arith, length, ◌==◌, map, Memᴰ, Bool-cases,
}
use sushi_gateway.Model.{Service, UpstreamTarget}
use sushi_gateway.Health.{HealthMap}
use sushi_gateway.Balancer.{Env, contains, tags_match, eligible, indices}
use sushi_gateway.Balancer.Candidates.{Passes, indices_iff}
use sushi_gateway.Balancer.RoundRobin.Selection.{Selects}
use sushi_gateway.Balancer.LeastConnections.{Float64}
use sushi_gateway.Balancer.Weighted.{numbered}
use sushi_gateway.Balancer.Scan.{lowest, lowest-IsLowest}
use sushi_gateway.Balancer.Latency.{
  Decay, LatencyCache, latency_score, latency_scores, fastest, fastest_or_none, latency_among,
  handle_latency, handle_latency_excluding, get_ewma, by_count,
}

abbrev fsts : {A : Type 0} → List (ℕ × A) → List ℕ
fsts cs = map (λ c. c.0) cs

numbered-indices :
    (p : UpstreamTarget → Bool) (k : ℕ) (us : List UpstreamTarget)
    → fsts (numbered p k us) ≡ indices p k us
unfolding numbered indices
numbered-indices p k [] = refl
numbered-indices p k (u ∷ us) =
    let rest = numbered-indices p (suc k) us in
    elim (Bool-cases (p u)) [ inl e ↦ rw e (ap (◌∷◌ k) rest) | inr e ↦ rw e rest ]

fsts-mem : {A : Type 0} (c : ℕ × A) (cs : List (ℕ × A)) → Memᴰ c cs → Memᴰ c.0 (fsts cs)
fsts-mem c [] m = elim m [ ]
fsts-mem c (d ∷ cs) (Memᴰ.head e) = Memᴰ.head (ap (λ x. x.0) e)
fsts-mem c (d ∷ cs) (Memᴰ.tail m) = Memᴰ.tail (fsts-mem c cs m)

no_upstreams :
    (p : UpstreamTarget → Bool) (us : List UpstreamTarget)
    → (length us == 0) ≡ true
    → (i : ℕ) → ¬ (Passes p us i)
no_upstreams p [] e i (u, at, h) = cc
no_upstreams p (v ∷ us) e i h = absurd (ground arith)

numbered-none :
    (p : UpstreamTarget → Bool) (k : ℕ) (us : List UpstreamTarget)
    → ((u : UpstreamTarget) → Memᴰ u us → p u ≡ false)
    → numbered p k us ≡ []
unfolding numbered
numbered-none p k [] h = refl
numbered-none p k (u ∷ us) h =
    rw (h u (Memᴰ.head refl)) (numbered-none p (suc k) us (λ v m. h v (Memᴰ.tail m)))

-- the laws of the comparison of floats, which hold of a NaN and the infinities too
pub record Ordered (F : Float64) : Type 0 where
  pub irreflexive : (x : F.Number) → F.below x x ≡ false
  pub transitive : (x y z : F.Number) → F.below x y ≡ true → F.below y z ≡ true → F.below x z ≡ true

module _ (F : Float64) (D : Decay F) (law : Ordered F) where
  fsts-latency_scores :
      (clock : ℕ → ℕ × ℕ) (service : String) (cs : List (ℕ × UpstreamTarget))
      (cache : LatencyCache F)
      → fsts (latency_scores F D clock service cs cache).0 ≡ fsts cs
  unfolding latency_scores
  fsts-latency_scores clock service [] cache = refl
  fsts-latency_scores clock service ((i, u) ∷ cs) cache =
      ap (◌∷◌ i) (fsts-latency_scores clock service cs _)

  -- each score of these candidates is below MaxFloat64
  abbrev pub BelowGreatest :
      (ℕ → ℕ × ℕ) → String → List (ℕ × UpstreamTarget) → LatencyCache F → Type 0
  BelowGreatest clock service cs cache =
      (d : ℕ × F.Number)
      → Memᴰ d (latency_scores F D clock service cs cache).0
      → F.below d.1 D.greatest ≡ true

  latency_scores-below :
      (clock : ℕ → ℕ × ℕ) (service : String) (c : ℕ × UpstreamTarget)
      (cs : List (ℕ × UpstreamTarget)) (cache : LatencyCache F)
      → BelowGreatest clock service (c ∷ cs) cache
      → let (scores, cache') = latency_scores F D clock service (c ∷ cs) cache in
        (d : ℕ × F.Number) × Memᴰ d scores × (F.below d.1 D.greatest ≡ true)
  unfolding latency_scores
  latency_scores-below clock service (i, u) cs cache h =
      let (ewma, cache') = get_ewma F D service u.id (clock i).0 (clock i).1 cache in
      let first : ℕ × F.Number = (i, latency_score F D ewma u) in
      (first, Memᴰ.head refl, h first (Memᴰ.head refl))

  -- with some score below the first one, the lowest is a candidate's
  lowest-mem :
      (scores : List (ℕ × F.Number)) (d : ℕ × F.Number)
      → Memᴰ d scores
      → F.below d.1 D.greatest ≡ true
      → Memᴰ (lowest F.below scores (0, D.greatest)).0 (fsts scores)
  lowest-mem scores d m h =
      let (from, least, keeps) =
        lowest-IsLowest F.below law.irreflexive law.transitive scores (0, D.greatest) in
      elim from [
        | inr k ↦ fsts-mem _ scores k
        | inl e ↦
            let not_below = least d m in
            let same = ap (λ (b : ℕ × F.Number). F.below d.1 b.1) e in
            let clash : true ≡ false = sym h ∙ sym same ∙ not_below in cc
      ]

  fastest-mem :
      (clock : ℕ → ℕ × ℕ) (service : String) (c : ℕ × UpstreamTarget)
      (cs : List (ℕ × UpstreamTarget)) (cache : LatencyCache F)
      → BelowGreatest clock service (c ∷ cs) cache
      → Memᴰ (fastest F D clock service (c ∷ cs) cache).0 (fsts (c ∷ cs))
  unfolding fastest
  fastest-mem clock service c [] cache below = Memᴰ.head refl
  fastest-mem clock service c (d ∷ cs) cache below =
      let (e, m, h) = latency_scores-below clock service c (d ∷ cs) cache below in
      subst (Memᴰ _) (fsts-latency_scores clock service (c ∷ d ∷ cs) cache) (lowest-mem _ e m h)

  fastest_or_none-Selects :
      (p : UpstreamTarget → Bool) (us : List UpstreamTarget) (clock : ℕ → ℕ × ℕ) (service : String)
      (cs : List (ℕ × UpstreamTarget)) (cache : LatencyCache F)
      → fsts cs ≡ indices p 0 us
      → BelowGreatest clock service cs cache
      → Selects p us (fastest_or_none F D clock service cs cache).0
  unfolding fastest_or_none
  fastest_or_none-Selects p us clock service [] cache e below =
      λ i h. elim (subst (Memᴰ i) (sym e) ((indices_iff p us i).1 h)) [ ]
  fastest_or_none-Selects p us clock service (c ∷ cs) cache e below =
      (indices_iff p us _).0 (subst (Memᴰ _) e (fastest-mem clock service c cs cache below))

  -- handleLatencyExcluding picks an upstream that has not failed, whose tags match and which is
  -- available, and none only if there is no such upstream, if the scores that it computes for these
  -- upstreams are below MaxFloat64.
  pub handle_latency_excluding-Selects :
      (env : Env) (clock : ℕ → ℕ × ℕ) (s : Service) (failed tags : List String)
      (cache : LatencyCache F)
      → let open_to = λ (u : UpstreamTarget). not (contains failed u.id) && eligible env s tags u in
        BelowGreatest clock s.name (numbered open_to 0 s.upstreams) cache
        → Selects open_to s.upstreams (handle_latency_excluding F D env clock s failed tags cache).0
  unfolding handle_latency_excluding
  handle_latency_excluding-Selects env clock s failed tags cache below =
      elim (Bool-cases (length s.upstreams == 0)) [
        | inl e ↦ rw e (λ i h. no_upstreams _ s.upstreams e i h)
        | inr e ↦ rw e (
            fastest_or_none-Selects _ s.upstreams clock s.name _ cache
              (numbered-indices _ 0 s.upstreams) below)
      ]

-- Without health checks, for two upstreams or more of which none has the tags that the route asks
-- for, handleLatency picks the first one.
pub handle_latency-no_tags :
    (F : Float64) (D : Decay F) (hm : HealthMap) (clock : ℕ → ℕ × ℕ) (s : Service)
    (u v : UpstreamTarget) (us : List UpstreamTarget) (tags : List String) (cache : LatencyCache F)
    → s.upstreams ≡ u ∷ v ∷ us
    → s.health.enabled ≡ false
    → ((w : UpstreamTarget) → Memᴰ w s.upstreams → tags_match w.tags tags ≡ false)
    → (handle_latency F D hm clock s tags cache).0 ≡ some 0
unfolding handle_latency latency_among by_count fastest latency_scores lowest
handle_latency-no_tags F D hm clock s u v us tags cache e off none_match =
    let empty = numbered-none (λ w. tags_match w.tags tags) 0 s.upstreams none_match in
    ap (λ (ws : List UpstreamTarget). (by_count F D hm clock s ws tags cache).0) e ∙ among empty
  where
    among :
        numbered (λ w. tags_match w.tags tags) 0 s.upstreams ≡ []
        → (latency_among F D hm clock s tags cache).0 ≡ some 0
    among empty =
        simp off (
          ap (λ (cs : List (ℕ × UpstreamTarget)). some (fastest F D clock s.name cs cache).0) empty)
