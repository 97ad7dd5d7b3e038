-- ===== src/Balancer/Weighted/Tests.antt =====
-- load_balancer.go: handleWeighted for weights of 2 and 1.
use sushi_gateway.Prelude.{
  ℕ, String, ◌≡◌, refl, ◌≤◌, true, false, none, List, [], ◌∷◌, arith, Memᴰ, Memᴰ-cases, inl, inr,
  subst, sym, str_eq_iff,
}
use sushi_gateway.Prelude.Int.{pos}
use sushi_gateway.Prelude.Dict.{empty, put}
use sushi_gateway.Model.{Service, UpstreamTarget, weighted}
use sushi_gateway.Balancer.{Env, closed, tags_match, is_upstream_available, available_at}
use sushi_gateway.Balancer.Weighted.{WeightedState, WeightedCache, numbered}
use sushi_gateway.Balancer.Weighted.Weights.{Candidate, Stands}
use sushi_gateway.Balancer.Weighted.Fairness.{count_some, weighted_calls, handle_weighted-shares}
use sushi_gateway.Balancer.Tests.{thousandths}

abbrev light : UpstreamTarget
light = record { id = "u1"; target = "10.0.0.1:80"; weight = pos 1; tags = [] }

abbrev heavy : UpstreamTarget
heavy = record { id = "u2"; target = "10.0.0.2:80"; weight = pos 2; tags = [] }

abbrev shop : Service
shop = record {
  name = "shop";
  host = "";
  url = "";
  service_name = "";
  protocol = "http";
  base_path = [];
  load_balancing_strategy = weighted;
  upstreams = light ∷ heavy ∷ [];
  plugins = [];
  routes = [];
  health = record { enabled = false; path = [] };
  retry_options = record { max_retries = pos 0; retry_interval_ms = pos 0 };
  upstream_health_checks = none;
}

abbrev env : Env
env = record { health = empty; breakers = λ key. closed }

abbrev seen : WeightedState
seen = record { current_weight = pos 0; effective_weight = pos 1; first_seen_at = 5 }

abbrev cache : WeightedCache
cache = put "shop" (put "u1" seen (put "u2" seen empty)) empty

abbrev times : List ℕ
times = 60000000005 ∷ 60000000006 ∷ 70000000000 ∷ []

abbrev AtRest : Candidate → Type 0
AtRest c = Stands 60000000005 0 0 c.1 (put "u1" seen (put "u2" seen empty))

settled : (c : Candidate) → Memᴰ c ((0, light) ∷ (1, heavy) ∷ []) → AtRest c
settled c m = elim (Memᴰ-cases m) [
  | inl e ↦ subst AtRest (sym e) (seen, refl, refl, omega arith)
  | inr k ↦ elim (Memᴰ-cases k) [
    | inl e ↦ subst AtRest (sym e) (seen, refl, refl, omega arith)
    | inr n ↦ elim n [ ]
  ]
]

late : (now : ℕ) → Memᴰ now times → 60000000005 ≤ now
late now m = elim (Memᴰ-cases m) [
  | inl e ↦ omega arith
  | inr k ↦ elim (Memᴰ-cases k) [
    | inl e ↦ omega arith
    | inr n ↦ elim (Memᴰ-cases n) [ inl e ↦ omega arith | inr l ↦ elim l [ ] ]
  ]
]

not_among : ¬ (Memᴰ {A = String} "u1" ("u2" ∷ []))
not_among m = elim (Memᴰ-cases m) [
  | inl e ↦ let same : false ≡ true = (str_eq_iff "u1" "u2").1 e in cc
  | inr k ↦ elim k [ ]
]

handle_weighted-shares_example :
    count_some 1 (weighted_calls thousandths env shop [] times cache).0 ≡ 2
unfolding numbered tags_match is_upstream_available available_at
handle_weighted-shares_example =
    handle_weighted-shares thousandths env shop [] 60000000005 times cache
      (not_among, ((λ m. elim m [ ]), tt)) (omega arith) (omega arith) settled late refl (1, heavy)
      (Memᴰ.tail (Memᴰ.head refl))
