-- ===== src/Balancer/Maglev/Slots.antt =====
-- consistent_hash.go: the filling of the table by one upstream's turn.
use sushi_gateway.Prelude.{
  ℕ, zero, suc, ◌≡◌, refl, sym, ap, ◌∙◌, ◌≤◌, ◌<◌, ◌+◌, inl, inr, Bool, true, false, Option, none,
  some, List, [], ◌∷◌, arith, length, get_elem?, set, Bool-cases, some_inj,
}
use sushi_gateway.Balancer.Maglev.{is_taken, next_free}

-- how many slots are taken
unfoldable pub taken_count : List (Option ℕ) → ℕ
taken_count [] = 0
taken_count (none ∷ table) = taken_count table
taken_count (some i ∷ table) = suc (taken_count table)

pub is_taken-some :
    (table : List (Option ℕ)) (c i : ℕ)
    → get_elem? table c ≡ some (some i)
    → is_taken table c ≡ true
unfolding is_taken
is_taken-some table c i e =
    ap
      (λ (o : Option (Option ℕ)). elim o as (λ (x : Option (Option ℕ)). Bool) [
        | some (some i) ↦ true
        | _ ↦ false
      ])
      e

-- a table with fewer taken slots than slots has a free one
pub free_slot :
    (table : List (Option ℕ))
    → taken_count table < length table
    → (c : ℕ) × (c < length table) × (get_elem? table c ≡ some none)
unfolding taken_count
free_slot [] h = absurd (omega (arith, h))
free_slot (none ∷ table) h = (0, omega arith, refl)
free_slot (some i ∷ table) h =
    let (c, lt, e) = free_slot table (omega (arith, h)) in (suc c, omega (arith, lt), e)

taken_count-le : (table : List (Option ℕ)) → taken_count table ≤ length table
unfolding taken_count
taken_count-le [] = omega arith
taken_count-le (none ∷ table) = omega (arith, taken_count-le table)
taken_count-le (some i ∷ table) = omega (arith, taken_count-le table)

pub taken_count-set :
    (table : List (Option ℕ)) (c i : ℕ)
    → get_elem? table c ≡ some none
    → taken_count (set table c (some i)) ≡ suc (taken_count table)
unfolding taken_count
taken_count-set [] c i e = cc
taken_count-set (none ∷ table) zero i e = refl
taken_count-set (some j ∷ table) zero i e = cc
taken_count-set (none ∷ table) (suc c) i e = taken_count-set table c i e
taken_count-set (some j ∷ table) (suc c) i e = ap suc (taken_count-set table c i e)

-- a table all of whose slots are taken
pub full_slot :
    (table : List (Option ℕ)) (c : ℕ)
    → taken_count table ≡ length table
    → c < length table
    → (i : ℕ) × (get_elem? table c ≡ some (some i))
unfolding taken_count
full_slot [] c e h = absurd (omega (arith, h))
full_slot (none ∷ table) c e h = absurd (omega (arith, e, taken_count-le table))
full_slot (some i ∷ table) zero e h = (i, refl)
full_slot (some i ∷ table) (suc c) e h = full_slot table c (omega (arith, e)) (omega (arith, h))

-- The slots that a permutation lists before `j` are taken.
abbrev pub ReadUpTo : List (Option ℕ) → List ℕ → ℕ → Type 0
ReadUpTo table perm j = (k c : ℕ) → k < j → get_elem? perm k ≡ some c → is_taken table c ≡ true

-- where `next_free` stops, from the entry `j` on
pub next_free-some :
    (table : List (Option ℕ)) (rest : List ℕ) (j k c : ℕ)
    → get_elem? rest k ≡ some c
    → is_taken table c ≡ false
    → (d : ℕ) × (n : ℕ) × (next_free table rest j ≡ some (d, j + n))
      × (get_elem? rest n ≡ some d)
      × (is_taken table d ≡ false)
      × ((i e : ℕ) → i < n → get_elem? rest i ≡ some e → is_taken table e ≡ true)
unfolding next_free
next_free-some table [] j k c e f = cc
next_free-some table (b ∷ rest) j zero c e f =
    let free : is_taken table b ≡ false = ap (is_taken table) (some_inj e) ∙ f in
    (
      b,
      0,
      rw free (ap (λ (n : ℕ). some (b, n)) (omega arith)),
      refl,
      free,
      λ i e' h. absurd (omega (arith, h)),
    )
next_free-some table (b ∷ rest) j (suc k) c e f =
    let (d, n, found, at, free, before) = next_free-some table rest (suc j) k c e f in
    elim (Bool-cases (is_taken table b)) [
      | inr free_b ↦ (
        b,
        0,
        rw free_b (ap (λ (n : ℕ). some (b, n)) (omega arith)),
        refl,
        free_b,
        λ i e' h. absurd (omega (arith, h)),
      )
      | inl taken ↦ (
        d,
        suc n,
        rw taken (found ∙ ap (λ (x : ℕ). some (d, x)) (omega arith)),
        at,
        free,
        λ i. earlier taken before i,
      )
    ]
  where
    earlier :
        {n : ℕ}
        → is_taken table b ≡ true
        → ((i e : ℕ) → i < n → get_elem? rest i ≡ some e → is_taken table e ≡ true)
        → (i e : ℕ) → i < suc n
        → get_elem? (b ∷ rest) i ≡ some e
        → is_taken table e ≡ true
    earlier taken before zero e' h q = ap (is_taken table) (sym (some_inj q)) ∙ taken
    earlier taken before (suc i) e' h q = before i e' (omega (arith, h)) q
