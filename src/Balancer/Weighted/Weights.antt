-- ===== src/Balancer/Weighted/Weights.antt =====
-- load_balancer.go: the weights of handleWeighted, as an int holds them, and their sums.
use sushi_gateway.Prelude.{
  ℕ, String, ◌≡◌, sym, ap, ◌∙◌, ◌≤◌, ◌<◌, ◌+◌, some, List, [], ◌∷◌, arith, Memᴰ, map,
}
use sushi_gateway.Prelude.Int.{ℤ, pos, pos_part, sub_ℕ, ◌+ℤ◌, half_mod, wrap, wrap_small}
use sushi_gateway.Model.{UpstreamTarget}
use sushi_gateway.Balancer.LeastConnections.{weight_or_1}
use sushi_gateway.Balancer.Weighted.{WeightedState, States, slow_start_duration}

-- the weight that counts of an upstream
abbrev pub weight_of : UpstreamTarget → ℕ
weight_of u = pos_part (weight_or_1 u.weight)

pub weight_or_1-pos : (z : ℤ) → weight_or_1 z ≡ pos (pos_part (weight_or_1 z))
weight_or_1-pos z = ground arith

pub weight_of-positive : (u : UpstreamTarget) → 0 < weight_of u
weight_of-positive u = ground arith

abbrev pub Candidate : Type 0
Candidate = ℕ × UpstreamTarget

abbrev pub ids : List Candidate → List String
ids cs = map (λ c. c.1.id) cs

abbrev pub total_of : (Candidate → ℕ) → List Candidate → ℕ
total_of f [] = 0
total_of f (c ∷ cs) = f c + total_of f cs

abbrev pub weight_at : Candidate → ℕ
weight_at c = weight_of c.1

-- the upstream is past its slow start, and its current weight is a - b
abbrev pub Stands : ℕ → ℕ → ℕ → UpstreamTarget → States → Type 0
Stands now a b u states =
    (st : WeightedState) × (states u.id ≡ some st)
    × (st.current_weight ≡ sub_ℕ a b)
    × (st.first_seen_at + slow_start_duration ≤ now)

pub raised_weight :
    (a b w : ℕ) → a + w < half_mod → b < half_mod → wrap (sub_ℕ a b +ℤ pos w) ≡ sub_ℕ (a + w) b
unfolding ◌+ℤ◌
raised_weight a b w h k = ap wrap same ∙ wrap_small (a + w) b h k
  where
    same : sub_ℕ a b +ℤ pos w ≡ sub_ℕ (a + w) b
    same = ground arith

pub sub_ℕ-zero : (n : ℕ) → sub_ℕ n 0 ≡ pos n
sub_ℕ-zero n = ground arith

pub raised_total : (t w : ℕ) → t + w < half_mod → wrap (pos t +ℤ pos w) ≡ pos (t + w)
raised_total t w h =
    ap (λ (z : ℤ). wrap (z +ℤ pos w)) (sym (sub_ℕ-zero t))
    ∙ raised_weight t 0 w h (omega arith)
    ∙ sub_ℕ-zero (t + w)

abbrev pub with_weights : ℤ → ℤ → ℕ → WeightedState
with_weights x y first = record { current_weight = x; effective_weight = y; first_seen_at = first }

pub mem-ids : (c : Candidate) (cs : List Candidate) → Memᴰ c cs → Memᴰ c.1.id (ids cs)
mem-ids c [] m = elim m [ ]
mem-ids c (d ∷ cs) (Memᴰ.head e) = Memᴰ.head (ap (λ (k : Candidate). k.1.id) e)
mem-ids c (d ∷ cs) (Memᴰ.tail m) = Memᴰ.tail (mem-ids c cs m)
