-- ===== src/Balancer/Maglev/Permutation.antt =====
-- consistent_hash.go: for a prime number of slots, each upstream's list is a permutation of them.
use Prim.Native.String.{String}
use native.Mathlib.Decide.{ℕ_discrete}
use native.Mathlib.Nat.{
  mod-lt, mod-eq_of_lt, div-add-mod, add-mul-mod_self_left, add-mul-mod_self_right,
}
use sushi_gateway.Prelude.{
  ℕ, zero, suc, ◌≡◌, ◌≢◌, sym, ap, subst, ◌∙◌, ◌<◌, ◌+◌, ◌-◌, ◌*◌, ◌/◌, ◌%◌, some, some_inj, arith,
  get_elem?,
}
use sushi_gateway.Balancer.Maglev.{tabulate, generate_permutation, generate_offset_and_skip}
use sushi_gateway.Balancer.Maglev.Turn.{IsPermutation}

-- no number between 1 and `m` divides it
abbrev pub IsPrime : ℕ → Type 0
IsPrime m = (s : ℕ) → 1 < s → s < m → m % s ≢ 0

-- the inverse of `s` modulo `m`
record Inverse (m s : ℕ) : Type 0 where
  pub factor : ℕ
  pub times : ℕ
  pub one : factor * s ≡ 1 + times * m

step_identity :
    (x t r a : ℕ)
    → x * r ≡ 1 + a * (t + 1 + r)
    → x * (t + 1) * (t + r) ≡ 1 + (a + x * t) * (t + 1 + r)
step_identity x t r a h = grind arith

same_mod : (a c p q m : ℕ) → a + m * p ≡ c + q * m → a % m ≡ c % m
same_mod a c p q m e =
    sym (add-mul-mod_self_left a m p) ∙ ap (◌% m) e ∙ add-mul-mod_self_right c q m

-- y w s = w + w b m, and y w = m d + k
solve_identity :
    (o k s w y b m d c : ℕ)
    → y * s ≡ 1 + b * m
    → m * d + k ≡ y * w
    → o + w ≡ c + m
    → o + k * s + m * (d * s) ≡ c + (1 + w * b) * m
solve_identity o k s w y b m d c e f g =
    grind (arith, ap (λ (t : ℕ). t * s) f, ap (λ (t : ℕ). w * t) e)

one_step :
    (x q r s t m a : ℕ)
    → s * q ≡ t + 1
    → m ≡ t + 1 + r
    → x * r ≡ 1 + a * m
    → x * q * (m - 1) * s ≡ 1 + (a + x * t) * m
one_step x q r s t m a e f h =
    regroup x q (m - 1) s
    ∙ ap (λ (n : ℕ). x * n * (m - 1)) e
    ∙ ap (λ (n : ℕ). x * (t + 1) * n) less_one
    ∙ step_identity x t r a (h ∙ ap (λ (n : ℕ). 1 + a * n) f)
    ∙ ap (λ (n : ℕ). 1 + (a + x * t) * n) (sym f)
  where
    regroup : (x q n s : ℕ) → x * q * n * s ≡ x * (s * q) * n
    regroup x q n s = grind arith

    less_one : m - 1 ≡ t + r
    less_one = omega (arith, f)

-- m = s q + r
Inverse-step : (m s : ℕ) → 1 < s → s < m → m % s ≢ 0 → Inverse m (m % s) → Inverse m s
Inverse-step m s one_lt lt rest i =
    let pos_s : 0 < s = omega (arith, one_lt) in
    let t = s * (m / s) - 1 in
    let split : m ≡ t + 1 + m % s = omega (arith, div-add-mod m s, mod-lt m pos_s) in
    record {
      factor = i.factor * (m / s) * (m - 1);
      times = i.times + i.factor * t;
      one =
          one_step i.factor (m / s) (m % s) s t m i.times
            (omega (arith, div-add-mod m s, mod-lt m pos_s)) split i.one;
    }

invertible : (m : ℕ) → IsPrime m → (k s : ℕ) → s < k → 0 < s → s < m → Inverse m s
invertible m prime zero s h pos_s lt = absurd (omega (arith, h))
invertible m prime (suc k) s h pos_s lt = elim (ℕ_discrete s 1) [
  | yes e ↦ record { factor = 1; times = 0; one = omega (arith, e) }
  | no ne ↦
      let more : 1 < s = omega (arith, ne, pos_s) in
      let smaller : m % s < s = mod-lt m pos_s in
      let rest = prime s more lt in
      Inverse-step m s more lt rest (
        invertible m prime k (m % s) (omega (arith, h, smaller)) (positive rest)
          (omega (arith, smaller, lt)))
]
  where
    positive : {n : ℕ} → n ≢ 0 → 0 < n
    positive h = omega (arith, h)

-- The list of an offset and a skip that is not 0 has every slot.
covers :
    (m offset skip : ℕ)
    → IsPrime m
    → offset < m
    → 0 < skip
    → skip < m
    → (c : ℕ) → c < m
    → (k : ℕ) × (k < m) × ((offset + k * skip) % m ≡ c)
covers m offset skip prime off_lt pos_skip skip_lt c lt =
    let i = invertible m prime (suc skip) skip (omega arith) pos_skip skip_lt in
    let w = c + (m - offset) in
    let all = i.factor * w in
    let k = all % m in
    (
      k,
      mod-lt all (omega (arith, lt)),
      same_mod (offset + k * skip) c (all / m * skip) (1 + w * i.times) m (
            solve_identity offset k skip w i.factor i.times m (all / m) c i.one (div-add-mod all m)
              (omega (arith, off_lt)))
          ∙ mod-eq_of_lt lt,
    )

get_elem?-tabulate :
    (f : ℕ → ℕ) (j n k : ℕ) → k < n → get_elem? (tabulate f j n) k ≡ some (f (j + k))
unfolding tabulate
get_elem?-tabulate f j zero k h = absurd (omega (arith, h))
get_elem?-tabulate f j (suc n) zero h = ap (λ (x : ℕ). some (f x)) (omega arith)
get_elem?-tabulate f j (suc n) (suc k) h =
    get_elem?-tabulate f (suc j) n k (omega (arith, h)) ∙ ap (λ (x : ℕ). some (f x)) (omega arith)

tabulate-below :
    (f : ℕ → ℕ) (m j n k c : ℕ)
    → ((x : ℕ) → f x < m)
    → get_elem? (tabulate f j n) k ≡ some c
    → c < m
unfolding tabulate
tabulate-below f m j zero k c below e = cc
tabulate-below f m j (suc n) zero c below e = subst (λ (x : ℕ). x < m) (some_inj e) (below j)
tabulate-below f m j (suc n) (suc k) c below e = tabulate-below f m (suc j) n k c below e

-- For a prime number of slots, whatever the hash function is, the list of an upstream is a
-- permutation of the slots.
pub generate_permutation-IsPermutation :
    (sum64 : String → ℕ) (key : String) (m : ℕ)
    → IsPrime m
    → 1 < m
    → IsPermutation m (generate_permutation sum64 key m)
unfolding generate_permutation generate_offset_and_skip
generate_permutation-IsPermutation sum64 key m prime one_lt =
    let offset = sum64 key % m in
    let skip = sum64 key / 4294967296 % (m - 1) + 1 in
    let f = λ (j : ℕ). (offset + j * skip) % m in
    let pos_m : 0 < m = omega (arith, one_lt) in
    let skip_lt : skip < m =
      omega (arith, mod-lt (sum64 key / 4294967296) (below_one one_lt), one_lt) in
    record {
      covers = λ c lt.
          let (k, k_lt, at) =
            covers m offset skip prime (mod-lt (sum64 key) pos_m) (omega arith) skip_lt c lt in
          (
            k,
            get_elem?-tabulate f 0 m k k_lt ∙ ap (λ (x : ℕ). some (f x)) (omega arith) ∙ ap some at,
          );
      slots = λ k c e. tabulate-below f m 0 m k c (λ x. mod-lt (offset + x * skip) pos_m) e;
    }
  where
    below_one : {m : ℕ} → 1 < m → 0 < m - 1
    below_one h = omega arith
