-- ===== src/Balancer/Weighted/Balanced.antt =====
-- load_balancer.go: one call of handleWeighted keeps the current weights of settled upstreams in balance.
use native.Mathlib.Nat.{mul_comm, mul-suc, suc-mul, mul-le-mul}
use sushi_gateway.Prelude.{
  ℕ, suc, ◌≡◌, ◌≢◌, refl, sym, ap, ap₂, subst, ◌∙◌, ◌≤◌, ◌<◌, ◌+◌, ◌*◌, inl, inr, Option, none,
  some, List, [], ◌∷◌, arith, Memᴰ, Memᴰ-cases, AllDistinct, ◌==◌, ==_iff, Bool-cases, ltb, ltb→lt,
}
use sushi_gateway.Prelude.Int.{ℤ, pos, sub_ℕ, ◌-ℤ◌, ◌≤ℤ◌, half_mod, wrap, wrap_small}
use sushi_gateway.Prelude.Dict.{put, get-put_self, get-put_ne}
use sushi_gateway.Balancer.Candidates.{AllAbove}
use sushi_gateway.Balancer.LeastConnections.{Float64}
use sushi_gateway.Balancer.Weighted.{
  WeightedState, States, Round, slow_start_duration, least_weight, visit_all, lower, take_best,
  swrr,
}
use sushi_gateway.Balancer.Weighted.Totals.{
  indexes, total_of-le, total_of-scale, picked, total_of-picked, unique_index, unique_id,
}
use sushi_gateway.Balancer.Weighted.Weights.{Candidate, ids, total_of, weight_at, Stands}
use sushi_gateway.Balancer.Weighted.Visits.{Visited, visit_all-Visited}

lowered_weight :
    (a b w : ℕ) → a < half_mod → b + w < half_mod → wrap (sub_ℕ a b -ℤ pos w) ≡ sub_ℕ a (b + w)
unfolding ◌-ℤ◌
lowered_weight a b w h k = ap wrap same ∙ wrap_small a (b + w) h k
  where
    same : sub_ℕ a b -ℤ pos w ≡ sub_ℕ a (b + w)
    same = ground arith

not_above : (a b c d : ℕ) → sub_ℕ a b ≤ℤ sub_ℕ c d → c ≤ d → a ≤ b
not_above a b c d h k = ground arith

below_least : (a b : ℕ) → sub_ℕ a b ≤ℤ least_weight → a ≤ b
below_least a b h = ground arith

pub total_of-mem :
    (f : Candidate → ℕ) (cs : List Candidate) (c : Candidate) → Memᴰ c cs → f c ≤ total_of f cs
total_of-mem f [] c m = elim m [ ]
total_of-mem f (d ∷ cs) c m = elim (Memᴰ-cases m) [
  | inl same ↦ omega (arith, ap f same)
  | inr k ↦ omega (arith, total_of-mem f cs c k)
]

-- the weights are small enough for an int to hold every current weight
abbrev pub weight_limit : ℕ
weight_limit = 2147483648

module _ (F : Float64) (start : ℕ) (cs : List Candidate) where
  abbrev pub total_weight_of : ℕ
  total_weight_of = total_of weight_at cs

  -- after `k` calls, of which `p` counts those that picked each index, every current weight is k
  -- times the weight less the total weight for each pick, and no upstream is a whole turn ahead
  pub record Balanced (k : ℕ) (p : ℕ → ℕ) (states : States) : Type 0 where
    pub stands :
        (c : Candidate)
        → Memᴰ c cs
        → Stands start (k * weight_at c) (total_weight_of * p c.0) c.1 states
    pub picks : total_of (λ c. p c.0) cs ≡ k
    pub within_turn :
        (c : Candidate) → Memᴰ c cs → total_weight_of * p c.0 < k * weight_at c + total_weight_of

  module _ (distinct : AllDistinct (ids cs)) (lo : ℕ) (above : AllAbove lo (indexes cs))
      (some_weight : 0 < total_weight_of) (limit : total_weight_of < weight_limit) where
    product_bound :
        (k w : ℕ) → k < total_weight_of → w ≤ total_weight_of → k * w + w + weight_limit < half_mod
    product_bound k w h l =
        let b =
          mul-le-mul {n₁ = k} {m₁ = w} {n₂ = 2147483648} {m₂ = 2147483648} (omega (arith, h, limit))
            (omega (arith, l, limit)) in
        omega (arith, b, l, limit)

    -- some candidate's weight is above 0 when each has been raised
    not_all_down :
        (k : ℕ) (p : ℕ → ℕ)
        → total_of (λ c. p c.0) cs ≡ k
        → ¬ ((c : Candidate) → Memᴰ c cs → k * weight_at c + weight_at c ≤ total_weight_of * p c.0)
    not_all_down k p e h =
        let le =
          total_of-le (λ c. suc k * weight_at c) (λ c. total_weight_of * p c.0) cs
            (λ c m. omega (arith, suc-mul k (weight_at c), h c m)) in
        let left = total_of-scale (suc k) weight_at cs in
        let right =
          total_of-scale total_weight_of (λ c. p c.0) cs
          ∙ ap (λ (n : ℕ). total_weight_of * n) e
          ∙ mul_comm total_weight_of k in
        omega (arith, le, left, right, suc-mul k total_weight_of, some_weight)

    module _ (now : ℕ) (late : start ≤ now) (k : ℕ) (early : k < total_weight_of) (p : ℕ → ℕ)
        (states : States) (b : Balanced k p states) where
      abbrev begin : Round
      begin = record {
        states = states;
        total_weight = pos 0;
        best = none;
        max_current_weight = least_weight;
      }

      abbrev round : Round
      round = visit_all F now cs begin

      abbrev before : Candidate → ℕ
      before c = k * weight_at c

      abbrev paid : Candidate → ℕ
      paid c = total_weight_of * p c.0

      visited : Visited F start now late before paid cs 0 begin round
      visited =
          visit_all-Visited F start now late before paid cs 0 begin distinct b.stands
            (λ c m. (
              omega (arith, product_bound k (weight_at c) early (total_of-mem weight_at cs c m)),
              omega (
                arith,
                b.within_turn c m,
                product_bound k (weight_at c) early (total_of-mem weight_at cs c m),
                limit,
              ),
            ))
            refl (omega (arith, limit))

      -- the loop has chosen a candidate whose weight is above 0
      best_above_0 :
          (c : Candidate) × Memᴰ c cs × (round.best ≡ some c) × (paid c < before c + weight_at c)
      best_above_0 = elim visited.is_best [
        | inl (e, m) ↦ absurd (
            not_all_down k p b.picks (λ d n. below_least _ _ (
              subst (λ (z : ℤ). sub_ℕ (before d + weight_at d) (paid d) ≤ℤ z) m
                (visited.largest d n))))
        | inr (c, n, e, m) ↦ elim (Bool-cases (ltb (paid c) (before c + weight_at c))) [
          | inl lt ↦ (c, n, e, ltb→lt _ _ lt)
          | inr ge ↦ absurd (
              not_all_down k p b.picks (λ d n'.
                not_above _ _ (before c + weight_at c) (paid c)
                  (subst (λ (z : ℤ). sub_ℕ (before d + weight_at d) (paid d) ≤ℤ z) m
                    (visited.largest d n'))
                  (ground arith)))
        ]
      ]

      -- the picked candidate pays the total weight
      abbrev payment : WeightedState → WeightedState
      payment st = record st { current_weight = wrap (st.current_weight -ℤ round.total_weight) }

      abbrev lowered : Candidate → WeightedState → States
      lowered c st = put c.1.id (payment st) round.states

      bound : (c : Candidate) → Memᴰ c cs → before c + weight_at c + weight_limit < half_mod
      bound c m = product_bound k (weight_at c) early (total_of-mem weight_at cs c m)

      payment_lem :
          (c : Candidate)
          → Memᴰ c cs
          → (st : WeightedState) → st.current_weight ≡ sub_ℕ (before c + weight_at c) (paid c)
          → paid c < before c + weight_at c
          → (payment st).current_weight
            ≡ sub_ℕ (suc k * weight_at c) (total_weight_of * picked c.0 p c.0)
      payment_lem c m st cur lt =
          let t = (==_iff c.0 c.0).1 refl in
          let one_more : picked c.0 p c.0 ≡ suc (p c.0) = rw t refl in
          ap₂ (λ (x y : ℤ). wrap (x -ℤ y)) cur (visited.total ∙ ap pos (omega arith))
          ∙ lowered_weight (before c + weight_at c) (paid c) total_weight_of
              (omega (arith, bound c m)) (omega (arith, bound c m, lt, limit))
          ∙ ap₂ sub_ℕ (sym (suc-mul k (weight_at c)))
              (sym (ap (λ (n : ℕ). total_weight_of * n) one_more ∙ mul-suc total_weight_of (p c.0)))

      Stands-picked :
          (c : Candidate)
          → Memᴰ c cs
          → (st : WeightedState) → round.states c.1.id ≡ some st
          → st.current_weight ≡ sub_ℕ (before c + weight_at c) (paid c)
          → st.first_seen_at + slow_start_duration ≤ start
          → paid c < before c + weight_at c
          → (d : Candidate) → Memᴰ d cs
          → Stands start
              (suc k * weight_at d)
              (total_weight_of * picked c.0 p d.0)
              d.1
              (lowered c st)
      Stands-picked c m st here cur old lt d n = elim (Bool-cases (d.0 == c.0)) [
        | inl e ↦
            let same : d ≡ c = unique_index lo cs d c above n m ((==_iff d.0 c.0).0 e) in
            subst
              (λ (z : Candidate).
                Stands start (suc k * weight_at z) (total_weight_of * picked c.0 p z.0) z.1
                  (lowered c st))
              (sym same)
              (
                payment st,
                get-put_self c.1.id (payment st) round.states,
                payment_lem c m st cur lt,
                old,
              )
        | inr e ↦
            let other : d.1.id ≢ c.1.id = λ q.
              let same : d.0 ≡ c.0 =
                ap (λ (z : Candidate). z.0) (unique_id cs d c distinct n m q) in
              let t = (==_iff d.0 c.0).1 same in cc in
            let (st', here', cur', old') = visited.each d n in
            rw e (
              st',
              get-put_ne c.1.id d.1.id (payment st) round.states other ∙ here',
              cur' ∙ ap (λ (z : ℕ). sub_ℕ z (paid d)) (sym (suc-mul k (weight_at d))),
              old',
            )
      ]

      within_turn-picked :
          (c : Candidate)
          → Memᴰ c cs
          → paid c < before c + weight_at c
          → (d : Candidate) → Memᴰ d cs
          → total_weight_of * picked c.0 p d.0 < suc k * weight_at d + total_weight_of
      within_turn-picked c m lt d n = elim (Bool-cases (d.0 == c.0)) [
        | inl e ↦
            let same : d ≡ c = unique_index lo cs d c above n m ((==_iff d.0 c.0).0 e) in
            let here : paid d < before d + weight_at d =
              subst (λ (z : Candidate). paid z < before z + weight_at z) (sym same) lt in
            rw e (omega (arith, here, mul-suc total_weight_of (p d.0), suc-mul k (weight_at d)))
        | inr e ↦ rw e (omega (arith, b.within_turn d n, suc-mul k (weight_at d)))
      ]

      pub step-Balanced :
          (c : Candidate) × Memᴰ c cs
          × ((swrr F now cs states).0 ≡ c.0)
          × Balanced (suc k) (picked c.0 p) (swrr F now cs states).1
      unfolding swrr take_best lower
      step-Balanced =
          let (c, m, e, lt) = best_above_0 in
          let (st, here, cur, old) = visited.each c m in
          let done : swrr F now cs states ≡ (c.0, lowered c st) =
            ap (λ (o : Option Candidate). take_best F o round) e
            ∙ ap
                (λ (o : Option WeightedState).
                  (c.0, lower F o c.1.id round.total_weight round.states))
                here in
          (
            c,
            m,
            ap (λ (r : ℕ × States). r.0) done,
            subst (λ (r : ℕ × States). Balanced (suc k) (picked c.0 p) r.1) (sym done)
                (record {
                  stands = Stands-picked c m st here cur old lt;
                  picks = total_of-picked lo p cs c above m ∙ ap suc b.picks;
                  within_turn = within_turn-picked c m lt;
                }),
          )
