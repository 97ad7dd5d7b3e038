-- ===== src/Balancer/ChoiceTests.antt =====
-- consistent_hash.go and latency_balancer.go: the theorems on a service of two upstreams.
use sushi_gateway.Prelude.{
  ℕ, Option, ◌≡◌, refl, ap, length-replicate, replicate, ◌+◌, ◌-◌, ◌*◌, ◌/◌, true, false, ◌&&◌, not,
  Bool, none, some, [], ◌∷◌, arith, if◌then◌else◌, ltb, Memᴰ, Memᴰ-cases, inl, inr, subst, sym,
  str_eq,
}
use sushi_gateway.Prelude.Int.{pos, pos_part}
use sushi_gateway.Prelude.Dict.{empty}
use sushi_gateway.Model.{Service, UpstreamTarget, latency}
use sushi_gateway.Balancer.{Env, closed, is_upstream_available, contains, eligible, tags_match}
use sushi_gateway.Balancer.LeastConnections.{Float64}
use sushi_gateway.Balancer.RoundRobin.Selection.{Selects}
use sushi_gateway.Balancer.Latency.{Decay, LatencyCache, latency_scores, handle_latency_excluding}
use sushi_gateway.Balancer.Lowest.{Ordered, BelowGreatest, handle_latency_excluding-Selects}
use sushi_gateway.Balancer.Maglev.{Ring, target_at, get_upstream_with_filter, generate_ring}
use sushi_gateway.Balancer.Maglev.Generated.{Covers, generate_ring-Covers}
use Prim.Native.String.{String}
use sushi_gateway.Balancer.Weighted.{numbered}
use sushi_gateway.Balancer.Lookup.{get_upstream_with_filter-accepted}

abbrev near : UpstreamTarget
near = record { id = "u1"; target = "10.0.0.1:80"; weight = pos 1; tags = [] }

abbrev far : UpstreamTarget
far = record { id = "u2"; target = "10.0.0.2:80"; weight = pos 2; tags = [] }

abbrev maps : Service
maps = record {
  name = "maps";
  host = "";
  url = "";
  service_name = "";
  protocol = "http";
  base_path = [];
  load_balancing_strategy = latency;
  upstreams = near ∷ far ∷ [];
  plugins = [];
  routes = [];
  health = record { enabled = false; path = [] };
  retry_options = record { max_retries = pos 0; retry_interval_ms = pos 0 };
  upstream_health_checks = none;
}

-- thousandths
abbrev fixed_point : Float64
fixed_point = record {
  Number = ℕ;
  of_int = λ n. pos_part n * 1000;
  divide = λ x y. x * 1000 / y;
  multiply = λ x y. x * y / 1000;
  tenth = 100;
  to_int = λ x. pos (x / 1000);
  below = ltb;
}

abbrev decay : Decay fixed_point
decay = record {
  zero = 0;
  one = 1000;
  thousandth = 1;
  decay_time = 10000;
  greatest = 1000000001;
  add = λ x y. x + y;
  subtract = λ x y. x - y;
  exp_minus = λ x. 1000000 / (1000 + x);
  seconds_of = λ d. pos_part d / 1000000;
}

ordered : Ordered fixed_point
ordered = record { irreflexive = λ x. ground arith; transitive = λ x y z h k. ground arith }

abbrev clear : Env
clear = record { health = empty; breakers = λ key. closed }

-- u1 has answered in 80 ms, u2 in 20 ms, and u9 has failed
abbrev measured : LatencyCache fixed_point
measured =
    ("maps:u1", record { ewma = 80; last_touched_at = 5 })
    ∷ ("maps:u2", record { ewma = 20; last_touched_at = 5 })
    ∷ []

abbrev open_to : UpstreamTarget → Bool
open_to u = not (contains ("u9" ∷ []) u.id) && eligible clear maps [] u

measured-BelowGreatest :
    BelowGreatest fixed_point decay ordered
      (λ i. (5, 6))
      "maps"
      (numbered open_to 0 maps.upstreams)
      measured
unfolding latency_scores numbered contains tags_match is_upstream_available
measured-BelowGreatest d (Memᴰ.head e) = ap (λ (x : ℕ × ℕ). ltb x.1 1000000001) e
measured-BelowGreatest d (Memᴰ.tail (Memᴰ.head e)) = ap (λ (x : ℕ × ℕ). ltb x.1 1000000001) e
measured-BelowGreatest d (Memᴰ.tail (Memᴰ.tail m)) = elim m [ ]

handle_latency_excluding-Selects_example :
    Selects open_to maps.upstreams
      (handle_latency_excluding fixed_point decay clear
        (λ i. (5, 6))
        maps
        ("u9" ∷ [])
        []
        measured).0
handle_latency_excluding-Selects_example =
    handle_latency_excluding-Selects fixed_point decay ordered clear (λ i. (5, 6)) maps ("u9" ∷ [])
      [] measured measured-BelowGreatest

untagged : (w : UpstreamTarget) → Memᴰ w maps.upstreams → tags_match w.tags ("eu" ∷ []) ≡ false
unfolding tags_match
untagged w m = elim (Memᴰ-cases m) [
  | inl e ↦ subst (λ (v : UpstreamTarget). tags_match v.tags ("eu" ∷ []) ≡ false) (sym e) refl
  | inr k ↦ elim (Memᴰ-cases k) [
    | inl e ↦ subst (λ (v : UpstreamTarget). tags_match v.tags ("eu" ∷ []) ≡ false) (sym e) refl
    | inr n ↦ elim n [ ]
  ]
]

-- a table whose slots beyond the first two are invalid
abbrev ring : Ring
ring = record { upstreams = near ∷ far ∷ []; lookup_table = some 0 ∷ some 1 ∷ replicate 65535 none }

abbrev is_far : UpstreamTarget → Bool
is_far u = str_eq u.id "u2"

get_upstream_with_filter-accepted_example :
    (v : UpstreamTarget) × (get_upstream_with_filter (λ key. 65530) ring "10.1.1.1" is_far
      ≡ some (some v))
    × (is_far v ≡ true)
unfolding target_at
get_upstream_with_filter-accepted_example =
    get_upstream_with_filter-accepted (λ key. 65530) is_far ring
      (ap (λ (n : ℕ). 2 + n) (length-replicate {A = Option ℕ} 65535 none)) "10.1.1.1" 1 far
      (omega arith) refl refl

-- a hash that only tells one id from the others
abbrev two_hashes : String → ℕ
two_hashes key = if str_eq key "u1" then 5000000000 else 7

generate_ring-Covers_example :
    (ring : Ring) × (generate_ring two_hashes (near ∷ far ∷ []) ≡ some ring)
    × Covers two_hashes (near ∷ far ∷ []) ring
generate_ring-Covers_example = generate_ring-Covers two_hashes near (far ∷ [])
