-- ===== src/Balancer/Weighted/Totals.antt =====
-- Sums over the candidates of handleWeighted, and what their distinct indices and ids say.
use native.Mathlib.Nat.{mul-add, mul-zero}
use sushi_gateway.Prelude.{
  ℕ, suc, String, ◌≡◌, refl, sym, ap, subst, ◌∙◌, ◌≤◌, ◌<◌, ◌+◌, ◌*◌, inl, inr, List, [], ◌∷◌,
  arith, Memᴰ, Memᴰ-cases, AllDistinct, if◌then◌else◌, ◌==◌, map, Bool, Bool-cases, length,
}
use sushi_gateway.Model.{UpstreamTarget}
use sushi_gateway.Balancer.Candidates.{AllAbove, AllAbove-weaken}
use sushi_gateway.Balancer.Weighted.{numbered}
use sushi_gateway.Balancer.Weighted.Weights.{Candidate, ids, total_of, mem-ids}

abbrev pub indexes : List Candidate → List ℕ
indexes cs = map (λ c. c.0) cs

pub total_of-le :
    (f g : Candidate → ℕ) (cs : List Candidate)
    → ((c : Candidate) → Memᴰ c cs → f c ≤ g c)
    → total_of f cs ≤ total_of g cs
total_of-le f g [] h = omega arith
total_of-le f g (c ∷ cs) h =
    omega (arith, h c (Memᴰ.head refl), total_of-le f g cs (λ d m. h d (Memᴰ.tail m)))

-- f is below g at each, and the sums are equal
pub total_of-eq :
    (f g : Candidate → ℕ) (cs : List Candidate)
    → ((c : Candidate) → Memᴰ c cs → f c ≤ g c)
    → total_of f cs ≡ total_of g cs
    → (c : Candidate) → Memᴰ c cs
    → f c ≡ g c
total_of-eq f g [] h e c m = elim m [ ]
total_of-eq f g (d ∷ cs) h e c m =
    let here = h d (Memᴰ.head refl) in
    let rest = total_of-le f g cs (λ d' k. h d' (Memᴰ.tail k)) in
    elim (Memᴰ-cases m) [
      | inl same ↦ subst (λ (k : Candidate). f k ≡ g k) (sym same) (omega arith)
      | inr k ↦ total_of-eq f g cs (λ d' k'. h d' (Memᴰ.tail k')) (omega arith) c k
    ]

pub total_of-scale :
    (k : ℕ) (f : Candidate → ℕ) (cs : List Candidate)
    → total_of (λ c. k * f c) cs ≡ k * total_of f cs
total_of-scale k f [] = sym (mul-zero k)
total_of-scale k f (c ∷ cs) = ap (◌+◌ (k * f c)) (total_of-scale k f cs) ∙ sym (mul-add k (f c) _)

-- the counts after one more pick of `i`
abbrev pub picked : ℕ → (ℕ → ℕ) → ℕ → ℕ
picked i p j = if j == i then suc (p j) else p j

AllAbove-mem :
    (lo : ℕ) (cs : List Candidate) (c : Candidate) → AllAbove lo (indexes cs) → Memᴰ c cs → lo ≤ c.0
AllAbove-mem lo [] c h m = elim m [ ]
AllAbove-mem lo (d ∷ cs) c (h, k) m = elim (Memᴰ-cases m) [
  | inl same ↦ omega (arith, ap (λ (e : Candidate). e.0) same)
  | inr m' ↦ omega (arith, AllAbove-mem (suc d.0) cs c k m')
]

total_of-unpicked :
    (i lo : ℕ) (p : ℕ → ℕ) (cs : List Candidate)
    → i < lo
    → AllAbove lo (indexes cs)
    → total_of (λ c. picked i p c.0) cs ≡ total_of (λ c. p c.0) cs
total_of-unpicked i lo p [] h a = refl
total_of-unpicked i lo p (c ∷ cs) h (b, a) =
    let rest = total_of-unpicked i (suc c.0) p cs (omega arith) a in ground arith

pub total_of-picked :
    (lo : ℕ) (p : ℕ → ℕ) (cs : List Candidate) (c : Candidate)
    → AllAbove lo (indexes cs)
    → Memᴰ c cs
    → total_of (λ d. picked c.0 p d.0) cs ≡ suc (total_of (λ d. p d.0) cs)
total_of-picked lo p [] c a m = elim m [ ]
total_of-picked lo p (d ∷ cs) c (b, a) m = elim (Memᴰ-cases m) [
  | inl same ↦
      let here : c.0 ≡ d.0 = ap (λ (e : Candidate). e.0) same in
      let rest = total_of-unpicked c.0 (suc d.0) p cs (omega (arith, here)) a in
      ground (arith, here, rest)
  | inr k ↦
      let above = AllAbove-mem (suc d.0) cs c a k in
      let rest = total_of-picked (suc d.0) p cs c a k in ground (arith, above, rest)
]

-- two candidates of one index, or of one id, are the same
pub unique_index :
    (lo : ℕ) (cs : List Candidate) (c d : Candidate)
    → AllAbove lo (indexes cs)
    → Memᴰ c cs
    → Memᴰ d cs
    → c.0 ≡ d.0
    → c ≡ d
unique_index lo [] c d a m k e = elim m [ ]
unique_index lo (x ∷ cs) c d (b, a) m k e = elim (Memᴰ-cases m) [
  | inl cx ↦ elim (Memᴰ-cases k) [
    | inl dx ↦ cx ∙ sym dx
    | inr k' ↦
        let above = AllAbove-mem (suc x.0) cs d a k' in
        absurd (omega (arith, above, e, ap (λ (z : Candidate). z.0) cx))
  ]
  | inr m' ↦ elim (Memᴰ-cases k) [
    | inl dx ↦
        let above = AllAbove-mem (suc x.0) cs c a m' in
        absurd (omega (arith, above, e, ap (λ (z : Candidate). z.0) dx))
    | inr k' ↦ unique_index (suc x.0) cs c d a m' k' e
  ]
]

pub unique_id :
    (cs : List Candidate) (c d : Candidate)
    → AllDistinct (ids cs)
    → Memᴰ c cs
    → Memᴰ d cs
    → c.1.id ≡ d.1.id
    → c ≡ d
unique_id [] c d a m k e = elim m [ ]
unique_id (x ∷ cs) c d (n, a) m k e = elim (Memᴰ-cases m) [
  | inl cx ↦ elim (Memᴰ-cases k) [
    | inl dx ↦ cx ∙ sym dx
    | inr k' ↦ absurd (
        n (
          subst (λ (id : String). Memᴰ id (ids cs)) (sym e ∙ ap (λ (z : Candidate). z.1.id) cx)
            (mem-ids d cs k')))
  ]
  | inr m' ↦ elim (Memᴰ-cases k) [
    | inl dx ↦ absurd (
        n (
          subst (λ (id : String). Memᴰ id (ids cs)) (e ∙ ap (λ (z : Candidate). z.1.id) dx)
            (mem-ids c cs m')))
    | inr k' ↦ unique_id cs c d a m' k' e
  ]
]

pub length-numbered :
    (p : UpstreamTarget → Bool) (i : ℕ) (us : List UpstreamTarget)
    → length (numbered p i us) ≤ length us
unfolding numbered
length-numbered p i [] = omega arith
length-numbered p i (u ∷ us) =
    let rest = length-numbered p (suc i) us in
    elim (Bool-cases (p u)) [
      | inl e ↦ rw e (omega (arith, rest))
      | inr e ↦ rw e (omega (arith, rest))
    ]

pub AllAbove-numbered :
    (p : UpstreamTarget → Bool) (i : ℕ) (us : List UpstreamTarget)
    → AllAbove i (indexes (numbered p i us))
unfolding numbered
AllAbove-numbered p i [] = tt
AllAbove-numbered p i (u ∷ us) =
    let rest = AllAbove-numbered p (suc i) us in
    elim (Bool-cases (p u)) [
      | inl e ↦ rw e (omega arith, rest)
      | inr e ↦ rw e (AllAbove-weaken i (indexes (numbered p (suc i) us)) rest)
    ]

mem-numbered :
    (p : UpstreamTarget → Bool) (i : ℕ) (us : List UpstreamTarget) (id : String)
    → Memᴰ id (ids (numbered p i us))
    → Memᴰ id (map (λ u. u.id) us)
unfolding numbered
mem-numbered p i [] id m = elim m [ ]
mem-numbered p i (u ∷ us) id m = elim (Bool-cases (p u)) [
  | inl e ↦ elim (Memᴰ-cases (rw e at m)) [
    | inl same ↦ Memᴰ.head same
    | inr k ↦ Memᴰ.tail (mem-numbered p (suc i) us id k)
  ]
  | inr e ↦ Memᴰ.tail (mem-numbered p (suc i) us id (rw e at m))
]

pub AllDistinct-numbered :
    (p : UpstreamTarget → Bool) (i : ℕ) (us : List UpstreamTarget)
    → AllDistinct (map (λ u. u.id) us)
    → AllDistinct (ids (numbered p i us))
unfolding numbered
AllDistinct-numbered p i [] d = tt
AllDistinct-numbered p i (u ∷ us) (n, d) =
    let rest = AllDistinct-numbered p (suc i) us d in
    elim (Bool-cases (p u)) [
      | inl e ↦ rw e (λ m. n (mem-numbered p (suc i) us u.id m), rest)
      | inr e ↦ rw e rest
    ]
