-- ===== src/Balancer/Weighted/Visits.antt =====
-- load_balancer.go: what the loop of handleWeighted does to the states of settled upstreams.
use sushi_gateway.Prelude.{
  ℕ, String, ◌≡◌, ◌≢◌, refl, sym, ap, ap₂, subst, ◌∙◌, ◌≤◌, ◌<◌, ◌+◌, ◌-◌, ◌⊎◌, inl, inr, Bool,
  false, Option, some, List, [], ◌∷◌, arith, Memᴰ, Memᴰ-cases, Bool-cases, if◌then◌else◌, ltb,
  AllDistinct,
}
use sushi_gateway.Prelude.Int.{ℤ, pos, sub_ℕ, ◌+ℤ◌, ◌≤ℤ◌, ltb_ℤ, half_mod, wrap}
use sushi_gateway.Prelude.Dict.{put, or_default, get-put_self, get-put_ne}
use sushi_gateway.Model.{UpstreamTarget}
use sushi_gateway.Balancer.LeastConnections.{Float64, weight_or_1}
use sushi_gateway.Balancer.Weighted.{
  WeightedState, States, Round, first_state, slow_start_duration, weight_after, raised, weigh,
  visit, visit_all,
}
use sushi_gateway.Balancer.Weighted.Weights.{
  weight_of, weight_or_1-pos, Candidate, ids, total_of, weight_at, Stands, raised_weight,
  raised_total, with_weights, mem-ids,
}

module _ (F : Float64) (start now : ℕ) (late : start ≤ now) where
  raised-settled :
      (u : UpstreamTarget) (st : WeightedState) (a b : ℕ)
      → st.current_weight ≡ sub_ℕ a b
      → st.first_seen_at + slow_start_duration ≤ start
      → a + weight_of u < half_mod
      → b < half_mod
      → raised F u now st
        ≡ with_weights (sub_ℕ (a + weight_of u) b) (pos (weight_of u)) st.first_seen_at
  unfolding raised weight_after
  raised-settled u st a b e old h k =
      let over : ltb (now - st.first_seen_at) slow_start_duration ≡ false = ground arith in
      let w = weight_or_1-pos u.weight in
      let cur : wrap (st.current_weight +ℤ weight_or_1 u.weight) ≡ sub_ℕ (a + weight_of u) b =
        ap₂ (λ (x y : ℤ). wrap (x +ℤ y)) e w ∙ raised_weight a b (weight_of u) h k in
      rw over (ap₂ (λ (x y : ℤ). with_weights x y st.first_seen_at) cur w)

  -- what a round's variables are before an upstream's turn, in the integers that they stand for
  module _ (x y : Candidate → ℕ) where
    -- the upstream's current weight after its turn
    abbrev pub up : Candidate → ℤ
    up c = sub_ℕ (x c + weight_at c) (y c)

    abbrev pub Known : States → Candidate → Type 0
    Known states c = Stands start (x c) (y c) c.1 states

    abbrev pub Raised : States → Candidate → Type 0
    Raised states c = Stands start (x c + weight_at c) (y c) c.1 states

    abbrev pub Bounded : Candidate → Type 0
    Bounded c = (x c + weight_at c < half_mod) × (y c < half_mod)

    abbrev ahead : Candidate → Round → Bool
    ahead c r = ltb_ℤ r.max_current_weight (up c)

    visit-settled :
        (c : Candidate) (r : Round) (t : ℕ)
        → (k : Known r.states c) → Bounded c
        → r.total_weight ≡ pos t
        → t + weight_at c < half_mod
        → visit F now c.0 c.1 r ≡ record {
          states = put c.1.id (with_weights (up c) (pos (weight_at c)) k.0.first_seen_at) r.states;
          total_weight = pos (t + weight_at c);
          best = if ahead c r then some c else r.best;
          max_current_weight = if ahead c r then up c else r.max_current_weight;
        }
    unfolding visit weigh
    visit-settled c r t (st, here, cur, old) (h, k) et ht =
        let same = raised-settled c.1 st (x c) (y c) cur old h k in
        let sum : wrap (r.total_weight +ℤ pos (weight_at c)) ≡ pos (t + weight_at c) =
          ap (λ (z : ℤ). wrap (z +ℤ pos (weight_at c))) et ∙ raised_total t (weight_at c) ht in
        ap
          (λ (o : Option WeightedState).
            weigh F c.0 c.1 (raised F c.1 now (or_default o (first_state c.1 now))) r)
          here
        ∙ ap (λ (st' : WeightedState). weigh F c.0 c.1 st' r) same
        ∙ ap
            (λ (z : ℤ). record {
              states =
                  put c.1.id (with_weights (up c) (pos (weight_at c)) st.first_seen_at) r.states;
              total_weight = z;
              best = if ahead c r then some c else r.best;
              max_current_weight = if ahead c r then up c else r.max_current_weight;
            })
            sum

    -- what the loop leaves, from the round `r` with the total `t`
    pub record Visited (cs : List Candidate) (t : ℕ) (r r' : Round) : Type 0 where
      pub total : r'.total_weight ≡ pos (t + total_of weight_at cs)
      pub others : (id : String) → ¬ (Memᴰ id (ids cs)) → r'.states id ≡ r.states id
      pub each : (c : Candidate) → Memᴰ c cs → Raised r'.states c
      pub grows : r.max_current_weight ≤ℤ r'.max_current_weight
      pub largest : (c : Candidate) → Memᴰ c cs → up c ≤ℤ r'.max_current_weight
      pub is_best :
          ((r'.best ≡ r.best) × (r'.max_current_weight ≡ r.max_current_weight))
          ⊎ ((c : Candidate) × Memᴰ c cs × (r'.best ≡ some c) × (r'.max_current_weight ≡ up c))

    Known-other :
        (c d : Candidate) (st : WeightedState) (states : States)
        → d.1.id ≢ c.1.id
        → Known states d
        → Known (put c.1.id st states) d
    Known-other c d st states n (st', here, cur, old) =
        (st', get-put_ne c.1.id d.1.id st states n ∙ here, cur, old)

    -- the round after the first candidate's turn
    abbrev after : Candidate → ℕ → WeightedState → Round → Round
    after c t st r = record {
      states = put c.1.id st r.states;
      total_weight = pos (t + weight_at c);
      best = if ahead c r then some c else r.best;
      max_current_weight = if ahead c r then up c else r.max_current_weight;
    }

    after_max :
        (c : Candidate) (t : ℕ) (st : WeightedState) (r : Round)
        → (r.max_current_weight ≤ℤ (after c t st r).max_current_weight)
          × (up c ≤ℤ (after c t st r).max_current_weight)
    after_max c t st r = elim (Bool-cases (ahead c r)) [
      | inl e ↦ rw e (ground arith, omega arith)
      | inr e ↦ rw e (omega arith, ground arith)
    ]

    Visited-cons :
        (c : Candidate) (cs : List Candidate) (t : ℕ) (st : WeightedState) (r r' : Round)
        → ¬ (Memᴰ c.1.id (ids cs))
        → st.current_weight ≡ up c
        → st.first_seen_at + slow_start_duration ≤ start
        → Visited cs (t + weight_at c) (after c t st r) r'
        → Visited (c ∷ cs) t r r'
    Visited-cons c cs t st r r' n cur old v = record {
      total = v.total ∙ ap pos (omega arith);
      others = λ id m.
          v.others id (λ k. m (Memᴰ.tail k))
          ∙ get-put_ne c.1.id id st r.states (λ e. m (Memᴰ.head e));
      each = λ d m. elim (Memᴰ-cases m) [
        | inl same ↦
            subst (Raised r'.states) (sym same)
              (st, v.others c.1.id n ∙ get-put_self c.1.id st r.states, cur, old)
        | inr k ↦ v.each d k
      ];
      grows = omega (arith, (after_max c t st r).0, v.grows);
      largest = λ d m. elim (Memᴰ-cases m) [
        | inl same ↦
            subst (λ (k : Candidate). up k ≤ℤ r'.max_current_weight) (sym same)
              (omega (arith, (after_max c t st r).1, v.grows))
        | inr k ↦ v.largest d k
      ];
      is_best = elim v.is_best [
        | inl (b, m) ↦ elim (Bool-cases (ahead c r)) [
          | inl e ↦ inr (c, Memᴰ.head refl, rw e at b, rw e at m)
          | inr e ↦ inl (rw e at b, rw e at m)
        ]
        | inr (d, k, b, m) ↦ inr (d, Memᴰ.tail k, b, m)
      ];
    }

    pub visit_all-Visited :
        (cs : List Candidate) (t : ℕ) (r : Round)
        → AllDistinct (ids cs)
        → ((c : Candidate) → Memᴰ c cs → Known r.states c)
        → ((c : Candidate) → Memᴰ c cs → Bounded c)
        → r.total_weight ≡ pos t
        → t + total_of weight_at cs < half_mod
        → Visited cs t r (visit_all F now cs r)
    unfolding visit_all
    visit_all-Visited [] t r d k b et ht = record {
      total = et ∙ ap pos (omega arith);
      others = λ id m. refl;
      each = λ c m. elim m [ ];
      grows = omega arith;
      largest = λ c m. elim m [ ];
      is_best = inl (refl, refl);
    }
    visit_all-Visited (c ∷ cs) t r (n, d) k b et ht =
        let (st, here, cur, old) = k c (Memᴰ.head refl) in
        let st' = with_weights (up c) (pos (weight_at c)) st.first_seen_at in
        let rest =
          visit_all-Visited cs (t + weight_at c) (after c t st' r) d
            (λ e m.
              Known-other c e st' r.states
                (λ q. n (subst (λ (id : String). Memᴰ id (ids cs)) q (mem-ids e cs m)))
                (k e (Memᴰ.tail m)))
            (λ e m. b e (Memᴰ.tail m)) refl (omega (arith, ht)) in
        subst (λ (r' : Round). Visited (c ∷ cs) t r (visit_all F now cs r'))
          (sym (
            visit-settled c r t (st, here, cur, old) (b c (Memᴰ.head refl)) et (omega (arith, ht))))
          (Visited-cons c cs t st' r _ n refl old rest)
