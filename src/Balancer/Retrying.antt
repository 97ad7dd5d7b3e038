-- ===== src/Balancer/Retrying.antt =====
-- load_balancer.go: which upstreams GetNextUpstreamWithRetry leaves out, and what
-- GetNextUpstreamWithRequest does about sticky sessions.
use sushi_gateway.Prelude.{
  ℕ, String, ◌≡◌, ◌≢◌, refl, sym, ap, subst, some_inj, ◌∙◌, inl, inr, Bool, true, false, ◌&&◌, not,
  Option, none, some, List, [], ◌∷◌, ◌==◌, length, str_eq, Bool-cases, get_elem?, Memᴰ, arith,
  keep_iff,
}
use sushi_gateway.Model.{
  Service, UpstreamTarget, UpstreamConfig, LoadBalancingAlgorithm, round_robin, weighted, ip_hash,
  least_connections, latency, consistent_hashing, other,
}
use sushi_gateway.Http.{Request}
use sushi_gateway.Balancer.{Env, CbState, contains, eligible}
use sushi_gateway.Balancer.RoundRobin.{Cursors, handle_round_robin_excluding}
use sushi_gateway.Balancer.RoundRobin.Selection.{Selects, handle_round_robin_excluding-Selects}
use sushi_gateway.Balancer.Interface.{Shared, Excludes}
use sushi_gateway.Balancer.HashExtractor.{Text, extract_ip, extract_hash_value-NotEmpty}
use sushi_gateway.Balancer.Dispatch.{
  Handlers, by_strategy_with_request, starts_session, hash_on_request, excluding,
  get_next_upstream_with_request, get_next_upstream_with_retry, load_balancer, left_of,
}

-- The index that a handler gives is not that of a failed upstream.
abbrev pub AvoidsFailed :
    {σ : Type 0} → (σ → Shared → Service → List String → List String → Option ℕ × σ) → Type 0
AvoidsFailed {σ} f =
    (b : σ) (sh : Shared) (s : Service) (failed tags : List String) (i : ℕ) (u : UpstreamTarget)
    → (f b sh s failed tags).0 ≡ some i
    → get_elem? s.upstreams i ≡ some u
    → contains failed u.id ≡ false

not_empty : {A : Type 0} (xs : List A) (x : A) → Memᴰ x xs → (length xs == 0) ≡ false
not_empty [] x m = elim m [ ]
not_empty (y ∷ ys) x m = ground arith

not_nil : {A : Type 0} (xs : List A) → xs ≢ [] → (length xs == 0) ≡ false
not_nil [] n = absurd (n refl)
not_nil (y ∷ ys) n = ground arith

module _ {σ : Type 0} (h : Handlers σ) (split_host_port : String → Option String)
    (text : Text) where
  module _ (round_robin_law : AvoidsFailed h.handle_round_robin_excluding)
      (least_connections_law : AvoidsFailed h.handle_least_connections_excluding)
      (latency_law : AvoidsFailed h.handle_latency_excluding) where
    excluding-AvoidsFailed :
        (a : LoadBalancingAlgorithm) → AvoidsFailed (excluding h split_host_port text a)
    unfolding excluding
    excluding-AvoidsFailed least_connections = least_connections_law
    excluding-AvoidsFailed latency = latency_law
    excluding-AvoidsFailed round_robin = round_robin_law
    excluding-AvoidsFailed weighted = round_robin_law
    excluding-AvoidsFailed ip_hash = round_robin_law
    excluding-AvoidsFailed consistent_hashing = round_robin_law
    excluding-AvoidsFailed (other name) = round_robin_law

    -- GetNextUpstreamWithRetry chooses no failed upstream while another is left, under any
    -- algorithm, if the handlers that exclude upstreams avoid the failed ones.
    pub load_balancer-Excludes : Excludes (load_balancer h split_host_port text)
    unfolding load_balancer get_next_upstream_with_retry
    load_balancer-Excludes b sh s ip failed tags i u n (v, m, left) e at =
        let some_upstream = not_empty s.upstreams v m in
        let some_failed = not_nil failed n in
        let kept = (keep_iff (λ w. not (contains failed w.id)) s.upstreams v).1 (m, ap not left) in
        let some_left = not_empty (left_of h split_host_port text failed s.upstreams) v kept in
        excluding-AvoidsFailed s.load_balancing_strategy b sh s failed tags i u
          (simp (some_upstream, some_failed, some_left) at e) at

  module _ (req : Request) (known : str_eq (extract_ip split_host_port text req) "" ≡ false) where
    hash_on_request-no_cookie :
        (b : σ) (sh : Shared) (s : Service) (config : Option UpstreamConfig) (tags : List String)
        → (hash_on_request h split_host_port text b sh s req config tags).0.1 ≡ none
    unfolding hash_on_request starts_session
    hash_on_request-no_cookie b sh s config tags =
        let found = extract_hash_value-NotEmpty split_host_port text req config known in
        simp (found.0, found.1)

    by_strategy-no_cookie :
        (a : LoadBalancingAlgorithm) (b : σ) (sh : Shared) (s : Service)
        (config : Option UpstreamConfig) (tags : List String)
        → (by_strategy_with_request h split_host_port text a b sh s req config tags).0.1 ≡ none
    unfolding by_strategy_with_request
    by_strategy-no_cookie least_connections b sh s config tags = refl
    by_strategy-no_cookie latency b sh s config tags = refl
    by_strategy-no_cookie round_robin b sh s config tags = refl
    by_strategy-no_cookie weighted b sh s config tags = refl
    by_strategy-no_cookie ip_hash b sh s config tags = hash_on_request-no_cookie b sh s config tags
    by_strategy-no_cookie consistent_hashing b sh s config tags =
        hash_on_request-no_cookie b sh s config tags
    by_strategy-no_cookie (other name) b sh s config tags = refl

    -- No request whose client address can be told is ever given a cookie for a sticky session,
    -- whatever the service and the upstream are set to.
    pub get_next_upstream_with_request-no_cookie :
        (b : σ) (sh : Shared) (s : Service) (config : Option UpstreamConfig) (tags : List String)
        → (get_next_upstream_with_request h split_host_port text b sh s req config tags).0.1 ≡ none
    unfolding get_next_upstream_with_request
    get_next_upstream_with_request-no_cookie b sh s config tags =
        elim (Bool-cases (length s.upstreams == 0)) [
          | inl e ↦ rw e refl
          | inr e ↦ rw e (by_strategy-no_cookie s.load_balancing_strategy b sh s config tags)
        ]

-- handleRoundRobinExcluding on the shared health map, with the breakers' states of the moment
abbrev pub round_robin_excluding :
    (String → CbState) → Cursors → Shared → Service → List String → List String → Option ℕ × Cursors
round_robin_excluding breakers rr sh s failed tags =
    handle_round_robin_excluding (record { health = sh.health; breakers = breakers }) rr s failed
      tags

and_not : (a b : Bool) → (not a && b) ≡ true → a ≡ false
and_not true b h = cc
and_not false b h = refl

pub round_robin_excluding-AvoidsFailed :
    (breakers : String → CbState) → AvoidsFailed (round_robin_excluding breakers)
round_robin_excluding-AvoidsFailed breakers b sh s failed tags i u e at =
    let env : Env = record { health = sh.health; breakers = breakers } in
    let picks = handle_round_robin_excluding-Selects env b s failed tags in
    let (v, there, passes) =
      subst (Selects (λ w. not (contains failed w.id) && eligible env s tags w) s.upstreams) e
        picks in
    let same : v ≡ u = some_inj (sym there ∙ at) in
    subst (λ (w : UpstreamTarget). contains failed w.id ≡ false) same
      (and_not (contains failed v.id) _ passes)
