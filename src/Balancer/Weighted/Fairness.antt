-- ===== src/Balancer/Weighted/Fairness.antt =====
-- load_balancer.go: handleWeighted shares the requests among settled upstreams by their weights.
use native.Mathlib.Nat.{mul-suc, mul-zero, zero-mul, lt_of_mul-lt-mul_left}
use mathlib.Core.Path.{fun_ext}
use sushi_gateway.Prelude.{
  ℕ, suc, String, ◌≡◌, refl, sym, ap, ap₂, subst, ◌∙◌, ◌≤◌, ◌<◌, ◌+◌, ◌*◌, map, false, Option, none,
  some, List, [], ◌∷◌, arith, Memᴰ, AllDistinct, if◌then◌else◌, ◌==◌, length,
}
use sushi_gateway.Prelude.Dict.{empty, or_default, put, get-put_self}
use sushi_gateway.Model.{Service}
use sushi_gateway.Balancer.{Env, eligible}
use sushi_gateway.Balancer.Candidates.{AllAbove}
use sushi_gateway.Balancer.LeastConnections.{Float64}
use sushi_gateway.Balancer.Weighted.{
  States, swrr, WeightedCache, numbered, weighted_among, handle_weighted,
}
use sushi_gateway.Balancer.Weighted.Balanced.{total_of-mem, Balanced, step-Balanced, weight_limit}
use sushi_gateway.Balancer.Weighted.Totals.{
  indexes, total_of-eq, picked, length-numbered, AllAbove-numbered, AllDistinct-numbered,
}
use sushi_gateway.Balancer.Weighted.Weights.{
  Candidate, ids, total_of, weight_at, weight_of-positive, Stands,
}

total_of-none : (cs : List Candidate) → total_of (λ c. 0) cs ≡ 0
total_of-none [] = refl
total_of-none (c ∷ cs) = omega (arith, total_of-none cs)

-- the picks of successive calls at the given times, the first call's first
unfoldable pub calls : Float64 → List ℕ → List Candidate → States → List ℕ × States
calls F [] cs states = ([], states)
calls F (now ∷ nows) cs states =
    let (i, states') = swrr F now cs states in
    let (is, states'') = calls F nows cs states' in (i ∷ is, states'')

-- how often an index was picked
unfoldable pub count : ℕ → List ℕ → ℕ
count i [] = 0
count i (j ∷ js) = let rest = count i js in if i == j then suc rest else rest

module _ (F : Float64) (start : ℕ) (cs : List Candidate) where
  module _ (distinct : AllDistinct (ids cs)) (lo : ℕ) (above : AllAbove lo (indexes cs))
      (some_weight : 0 < total_of weight_at cs) (limit : total_of weight_at cs < weight_limit) where
    calls-Balanced :
        (nows : List ℕ)
        → ((now : ℕ) → Memᴰ now nows → start ≤ now)
        → (k : ℕ) (p : ℕ → ℕ) (states : States) → Balanced F start cs k p states
        → k + length nows ≤ total_of weight_at cs
        → let (is, states') = calls F nows cs states in
          Balanced F start cs (k + length nows) (λ i. p i + count i is) states'
    unfolding calls count
    calls-Balanced [] late k p states b h =
        subst (λ (z : ℕ × (ℕ → ℕ)). Balanced F start cs z.0 z.1 states)
          (ap₂ (λ (x : ℕ) (y : ℕ → ℕ). (x, y)) (omega arith) (fun_ext (λ i. omega arith))) b
    calls-Balanced (now ∷ nows) late k p states b h =
        let (c, m, e, b') =
          step-Balanced F start cs distinct lo above some_weight limit now
            (late now (Memᴰ.head refl)) k (omega (arith, h)) p states b in
        let (is, states'') = calls F nows cs (swrr F now cs states).1 in
        let rest =
          calls-Balanced nows (λ t m'. late t (Memᴰ.tail m')) (suc k) (picked c.0 p)
            (swrr F now cs states).1 b' (omega (arith, h)) in
        subst (λ (z : ℕ × (ℕ → ℕ)). Balanced F start cs z.0 z.1 states'')
          (ap₂ (λ (x : ℕ) (y : ℕ → ℕ). (x, y)) (omega arith) (fun_ext (λ i. ground (arith, e))))
          rest

    fresh-Balanced :
        (states : States)
        → ((c : Candidate) → Memᴰ c cs → Stands start 0 0 c.1 states)
        → Balanced F start cs 0 (λ i. 0) states
    fresh-Balanced states fresh = record {
      stands = λ c m.
          subst (λ (z : ℕ × ℕ). Stands start z.0 z.1 c.1 states)
            (ap₂ (λ (x y : ℕ). (x, y)) (sym (zero-mul (weight_at c)))
              (sym (mul-zero (total_of weight_at cs))))
            (fresh c m);
      picks = total_of-none cs;
      within_turn = λ c m.
          omega (arith, mul-zero (total_of weight_at cs), zero-mul (weight_at c), some_weight);
    }

    -- in as many calls as the weights sum up to, each candidate is picked by its weight
    calls-weight :
        (nows : List ℕ)
        → ((now : ℕ) → Memᴰ now nows → start ≤ now)
        → length nows ≡ total_of weight_at cs
        → (states : States) → ((c : Candidate) → Memᴰ c cs → Stands start 0 0 c.1 states)
        → (c : Candidate) → Memᴰ c cs
        → count c.0 (calls F nows cs states).0 ≡ weight_at c
    calls-weight nows late n states fresh c m =
        let w = total_of weight_at cs in
        let is = (calls F nows cs states).0 in
        let all =
          calls-Balanced nows late 0 (λ i. 0) states (fresh-Balanced states fresh)
            (omega (arith, n)) in
        let at_most : (d : Candidate) → Memᴰ d cs → 0 + count d.0 is ≤ weight_at d = λ d k.
          let turn : (0 + length nows) * weight_at d ≡ w * weight_at d =
            ap (λ (z : ℕ). z * weight_at d) (omega (arith, n)) in
          let lt =
            lt_of_mul-lt-mul_left w {m = 0 + count d.0 is} {n = suc (weight_at d)}
              (omega (arith, all.within_turn d k, turn, mul-suc w (weight_at d))) in
          omega (arith, lt) in
        omega (
          arith,
          total_of-eq (λ d. 0 + count d.0 is) weight_at cs at_most (all.picks ∙ omega (arith, n)) c
              m,
        )

-- how often an index was the result
unfoldable pub count_some : ℕ → List (Option ℕ) → ℕ
count_some i [] = 0
count_some i (none ∷ rs) = count_some i rs
count_some i (some j ∷ rs) = let rest = count_some i rs in if i == j then suc rest else rest

module _ (F : Float64) (env : Env) (s : Service) (tags : List String) where
  -- successive calls of handleWeighted, at the given times
  unfoldable pub weighted_calls : List ℕ → WeightedCache → List (Option ℕ) × WeightedCache
  weighted_calls [] cache = ([], cache)
  weighted_calls (now ∷ nows) cache =
      let (r, cache') = handle_weighted F env now cache s tags in
      let (rs, cache'') = weighted_calls nows cache' in (r ∷ rs, cache'')

  -- the candidates of the service, and the states that the cache holds for it
  abbrev pub candidates : List Candidate
  candidates = numbered (eligible env s tags) 0 s.upstreams

  abbrev pub states_in : WeightedCache → States
  states_in cache = or_default (cache s.name) empty

  module _ (several : 2 ≤ length candidates) where
    handle_weighted-swrr :
        (now : ℕ) (cache : WeightedCache)
        → handle_weighted F env now cache s tags ≡ (
            let (i, states) = swrr F now candidates (states_in cache) in
            (some i, put s.name states cache))
    unfolding handle_weighted
    handle_weighted-swrr now cache =
        let n = length-numbered (eligible env s tags) 0 s.upstreams in
        let not_0 : (length s.upstreams == 0) ≡ false = ground (arith, n, several) in
        let not_1 : (length s.upstreams == 1) ≡ false = ground (arith, n, several) in
        rw not_0 (rw not_1 (among candidates several))
      where
        among :
            (cs : List Candidate)
            → 2 ≤ length cs
            → weighted_among F now s cs cache ≡ (
                let (i, states) = swrr F now cs (states_in cache) in
                (some i, put s.name states cache))
        among [] h = absurd (omega arith)
        among (c ∷ []) h = absurd (omega arith)
        among (c ∷ d ∷ cs) h = refl

    weighted_calls-calls :
        (i : ℕ) (nows : List ℕ) (cache : WeightedCache)
        → count_some i (weighted_calls nows cache).0
          ≡ count i (calls F nows candidates (states_in cache)).0
    unfolding weighted_calls calls count count_some
    weighted_calls-calls i [] cache = refl
    weighted_calls-calls i (now ∷ nows) cache =
        let (j, states') = swrr F now candidates (states_in cache) in
        let kept : states_in (put s.name states' cache) ≡ states' =
          ap (λ (o : Option States). or_default o empty) (get-put_self s.name states' cache) in
        let rest =
          weighted_calls-calls i nows (put s.name states' cache)
          ∙ ap (λ (st : States). count i (calls F nows candidates st).0) kept in
        ap (λ (r : Option ℕ × WeightedCache). count_some i (r.0 ∷ (weighted_calls nows r.1).0))
          (handle_weighted-swrr now cache)
        ∙ ap (λ (n : ℕ). if i == j then suc n else n) rest

  -- In as many calls as the weights of the candidates (whose tags match and which are available)
  -- sum up to, handleWeighted picks each candidate exactly as often as its weight says, where a
  -- weight of 0 or less counts as 1: if there are two candidates or more, all past the slow start
  -- with current weights of 0, the ids of the service's upstreams differ, the weights sum up to
  -- less than 2^31, and no upstream becomes available or unavailable between the calls.
  pub handle_weighted-shares :
      (start : ℕ) (nows : List ℕ) (cache : WeightedCache)
      → AllDistinct (map (λ u. u.id) s.upstreams)
      → 2 ≤ length candidates
      → total_of weight_at candidates < weight_limit
      → ((c : Candidate) → Memᴰ c candidates → Stands start 0 0 c.1 (states_in cache))
      → ((now : ℕ) → Memᴰ now nows → start ≤ now)
      → length nows ≡ total_of weight_at candidates
      → (c : Candidate) → Memᴰ c candidates
      → count_some c.0 (weighted_calls nows cache).0 ≡ weight_at c
  handle_weighted-shares start nows cache distinct several limit settled late n c m =
      let some_weight = total_of-mem weight_at candidates c m in
      weighted_calls-calls several c.0 nows cache
      ∙ calls-weight F start candidates
          (AllDistinct-numbered (eligible env s tags) 0 s.upstreams distinct) 0
          (AllAbove-numbered (eligible env s tags) 0 s.upstreams)
          (omega (arith, some_weight, weight_of-positive c.1)) limit nows late n (states_in cache)
          settled c m
