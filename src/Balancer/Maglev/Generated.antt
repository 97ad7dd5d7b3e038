-- ===== src/Balancer/Maglev/Generated.antt =====
-- consistent_hash.go: GenerateRing ends, with an upstream in every slot. MaglevM is prime.
use Prim.Native.String.{String}
use native.Mathlib.Decide.{dec_lt}
use native.Mathlib.Nat.{div-add-mod, mul-mod_left, mul-le-mul}
use sushi_gateway.Prelude.{
  ℕ, zero, suc, ◌≡◌, ◌≢◌, refl, sym, ap, ◌∙◌, ◌≤◌, ◌<◌, ◌+◌, ◌*◌, ◌/◌, ◌%◌, inl, inr, Bool, true,
  false, Option, none, some, List, [], ◌∷◌, map, arith, length, get_elem?, replicate,
  length-replicate, Memᴰ, ◌==◌, ==_iff, Bool-cases, if◌then◌else◌, ◌>>=◌,
}
use sushi_gateway.Model.{UpstreamTarget}
use sushi_gateway.Balancer.Maglev.{
  Ring, maglev_m, generate_permutation, generate_table, generate_ring, target_at,
}
use sushi_gateway.Balancer.Maglev.Slots.{taken_count}
use sushi_gateway.Balancer.Maglev.Rounds.{AllReady, Full, fill-Full}
use sushi_gateway.Balancer.Maglev.Permutation.{IsPrime, generate_permutation-IsPermutation}

-- none of 2, ..., n + 1 divides `m`
unfoldable none_divides : ℕ → ℕ → Bool
none_divides m zero = true
none_divides m (suc n) = let rest = none_divides m n in if m % suc (suc n) == 0 then false else rest

none_divides_lem : (m n s : ℕ) → none_divides m n ≡ true → 1 < s → s < n + 2 → m % s ≢ 0
unfolding none_divides
none_divides_lem m zero s h lo hi e = absurd (omega (arith, lo, hi))
none_divides_lem m (suc n) s h lo hi e = elim (Bool-cases (m % suc (suc n) == 0)) [
  | inl d ↦ absurd (false_true (rw d at h))
  | inr d ↦ elim (dec_lt s (n + 2)) [
    | yes lt ↦ none_divides_lem m n s (rw d at h) lo lt e
    | no ge ↦
        let last : s ≡ suc (suc n) = omega (arith, hi, ge) in
        absurd (differs d ((==_iff _ _).1 (ap (m %◌) (sym last) ∙ e)))
  ]
]
  where
    false_true : false ≡ true → ⊥
    false_true q = cc

    differs : {b : Bool} → b ≡ false → b ≡ true → ⊥
    differs p q = cc

cofactor_above : (m s q : ℕ) → s * q ≡ m → 0 < m → s < m → 1 < q
cofactor_above m s zero e pos lt = absurd (omega (arith, e, pos))
cofactor_above m s (suc zero) e pos lt = absurd (omega (arith, e, lt))
cofactor_above m s (suc (suc q)) e pos lt = omega arith

cofactor_below : (m n s q : ℕ) → s * q ≡ m → m < (n + 2) * (n + 2) → n + 2 ≤ s → q < n + 2
cofactor_below m n s q e root le = elim (dec_lt q (n + 2)) [
  | yes lt ↦ lt
  | no ge ↦
      let bound : (n + 2) * (n + 2) ≤ s * q = mul-le-mul le (omega (arith, ge)) in
      absurd (omega (arith, bound, e, root))
]

-- Without a divisor up to its root a number is prime: a greater divisor has a small cofactor.
prime_lem : (m n : ℕ) → none_divides m n ≡ true → 0 < m → m < (n + 2) * (n + 2) → IsPrime m
prime_lem m n h pos root s lo hi e = elim (dec_lt s (n + 2)) [
  | yes lt ↦ none_divides_lem m n s h lo lt e
  | no ge ↦
      let q = m / s in
      let product : s * q ≡ m = omega (arith, div-add-mod m s, e) in
      none_divides_lem m n q h (cofactor_above m s q product pos hi)
        (cofactor_below m n s q product root (omega (arith, ge)))
        (ap (◌% q) (sym product) ∙ mul-mod_left s q)
]

maglev_m-IsPrime : IsPrime maglev_m
unfolding none_divides
maglev_m-IsPrime = prime_lem maglev_m 255 refl (omega arith) (omega arith)

taken_count-replicate : (m : ℕ) → taken_count (replicate m none) ≡ 0
unfolding taken_count
taken_count-replicate zero = refl
taken_count-replicate (suc m) = taken_count-replicate m

none_taken : (m c i : ℕ) → get_elem? {A = Option ℕ} (replicate m none) c ≡ some (some i) → i < 0
none_taken zero c i e = absurd (cc)
none_taken (suc m) zero i e = absurd (cc)
none_taken (suc m) (suc c) i e = none_taken m c i e

module _ (sum64 : String → ℕ) (m : ℕ) (prime : IsPrime m) (one_lt : 1 < m) where
  abbrev start : UpstreamTarget → List ℕ × ℕ
  start v = (generate_permutation sum64 v.id m, 0)

  start-AllReady : (us : List UpstreamTarget) → AllReady m (replicate m none) (map start us)
  start-AllReady [] = tt
  start-AllReady (u ∷ us) = (
    generate_permutation-IsPermutation sum64 u.id m prime one_lt,
    λ k c h e. absurd (omega (arith, h)),
    start-AllReady us,
  )

  length-starts : (us : List UpstreamTarget) → length (map start us) ≡ length us
  length-starts [] = refl
  length-starts (u ∷ us) = ap suc (length-starts us)

  -- For a prime number of slots the table is filled without an index out of range.
  pub generate_table-Full :
      (u : UpstreamTarget) (us : List UpstreamTarget)
      → (table : List (Option ℕ)) × (generate_table sum64 m (u ∷ us) ≡ some table)
        × Full m (length (u ∷ us)) table
  unfolding generate_table
  generate_table-Full u us =
      fill-Full m (length (u ∷ us)) m (map start (u ∷ us))
        (record { table = replicate m none; populated = 0 }) (omega (arith, length-starts us))
        (omega (arith, length-starts us))
        (record {
          size = length-replicate m none;
          count = sym (taken_count-replicate m);
          valued = λ c i e. absurd (omega (arith, none_taken m c i e));
        })
        (omega (arith, one_lt)) (omega arith) (start-AllReady (u ∷ us))

nth-Memᴰ :
    (us : List UpstreamTarget) (i : ℕ)
    → i < length us
    → (v : UpstreamTarget) × (get_elem? us i ≡ some v) × Memᴰ v us
nth-Memᴰ [] i h = absurd (omega (arith, h))
nth-Memᴰ (u ∷ us) zero h = (u, refl, Memᴰ.head refl)
nth-Memᴰ (u ∷ us) (suc i) h =
    let (v, e, m) = nth-Memᴰ us i (omega (arith, h)) in (v, e, Memᴰ.tail m)

module _ (sum64 : String → ℕ) where
  -- a ring of the upstreams, each of whose slots is that of one of them
  pub record Covers (us : List UpstreamTarget) (ring : Ring) : Type 0 where
    pub upstreams_are : ring.upstreams ≡ us
    pub size : length ring.lookup_table ≡ maglev_m
    pub slot :
        (c : ℕ)
        → c < maglev_m
        → (v : UpstreamTarget) × (target_at sum64 ring c ≡ some (some v)) × Memᴰ v us

  Full-Covers :
      (us : List UpstreamTarget) (table : List (Option ℕ))
      → Full maglev_m (length us) table
      → Covers us (record { upstreams = us; lookup_table = table })
  unfolding target_at
  Full-Covers us table full = record {
    upstreams_are = refl;
    size = full.size;
    slot = λ c lt.
        let (i, e, i_lt) = full.slot c lt in
        let (v, f, m) = nth-Memᴰ us i i_lt in (v, simp (e, f), m);
  }

  -- For one upstream or more, whatever the hash function is, building the ring ends without an index
  -- out of range, and each of the 65537 slots of its table names one of the upstreams.
  pub generate_ring-Covers :
      (u : UpstreamTarget) (us : List UpstreamTarget)
      → (ring : Ring) × (generate_ring sum64 (u ∷ us) ≡ some ring) × Covers (u ∷ us) ring
  unfolding generate_ring
  generate_ring-Covers u us =
      let (table, e, full) =
        generate_table-Full sum64 maglev_m maglev_m-IsPrime (omega arith) u us in
      (
        record { upstreams = u ∷ us; lookup_table = table },
        ap
            (λ (o : Option (List (Option ℕ))).
              o >>= λ t. some (record { upstreams = u ∷ us; lookup_table = t }))
            e,
        Full-Covers (u ∷ us) table full,
      )
