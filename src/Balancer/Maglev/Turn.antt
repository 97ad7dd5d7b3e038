-- ===== src/Balancer/Maglev/Turn.antt =====
-- consistent_hash.go: what the turn of one upstream does to the table that GenerateRing fills.
use sushi_gateway.Prelude.{
  ℕ, zero, suc, ◌≡◌, refl, sym, ap, subst, ◌∙◌, ◌≤◌, ◌<◌, ◌+◌, ◌-◌, Bool, true, false, Option, none,
  some, List, [], ◌∷◌, arith, length, get_elem?, set, drop, some_inj, length-set,
  get_elem?-set_self, get_elem?-set_ne,
}
use native.Mathlib.Decide.{dec_lt, ℕ_discrete}
use sushi_gateway.Balancer.Maglev.{Filling, is_taken, take_slot}
use sushi_gateway.Balancer.Maglev.Slots.{
  taken_count, is_taken-some, free_slot, taken_count-set, ReadUpTo, next_free-some,
}

-- the list has every slot of a table of `m`, and nothing else
pub record IsPermutation (m : ℕ) (perm : List ℕ) : Type 0 where
  pub covers : (c : ℕ) → c < m → (k : ℕ) × (get_elem? perm k ≡ some c)
  pub slots : (k c : ℕ) → get_elem? perm k ≡ some c → c < m

-- the table has `m` slots, of which `populated` are taken by the first `n` upstreams
pub record Counted (m n : ℕ) (fl : Filling) : Type 0 where
  pub size : length fl.table ≡ m
  pub count : fl.populated ≡ taken_count fl.table
  pub valued : (c i : ℕ) → get_elem? fl.table c ≡ some (some i) → i < n

-- what is taken stays taken
abbrev pub Grows : Filling → Filling → Type 0
Grows fl fl' = (c : ℕ) → is_taken fl.table c ≡ true → is_taken fl'.table c ≡ true

get_elem?-drop : (xs : List ℕ) (j k : ℕ) → get_elem? (drop j xs) k ≡ get_elem? xs (j + k)
get_elem?-drop xs zero k = ap (get_elem? xs) (omega arith)
get_elem?-drop [] (suc j) k = none_past k
  where
    none_past : (k : ℕ) → get_elem? {A = ℕ} [] k ≡ get_elem? [] (suc j + k)
    none_past k = refl
get_elem?-drop (x ∷ xs) (suc j) k =
    get_elem?-drop xs j k ∙ ap (get_elem? (x ∷ xs)) {x = suc (j + k)} (omega arith)

is_taken-none :
    (table : List (Option ℕ)) (c : ℕ) → get_elem? table c ≡ some none → is_taken table c ≡ false
unfolding is_taken
is_taken-none table c e =
    ap
      (λ (o : Option (Option ℕ)). elim o as (λ (x : Option (Option ℕ)). Bool) [
        | some (some i) ↦ true
        | _ ↦ false
      ])
      e

free_there :
    (table : List (Option ℕ)) (c : ℕ)
    → c < length table
    → is_taken table c ≡ false
    → get_elem? table c ≡ some none
unfolding is_taken
free_there [] c h f = absurd (omega (arith, h))
free_there (none ∷ table) zero h f = refl
free_there (some i ∷ table) zero h f = cc
free_there (t ∷ table) (suc c) h f = free_there table c (omega (arith, h)) f

is_taken-set :
    (table : List (Option ℕ)) (d i c : ℕ)
    → d < length table
    → is_taken table c ≡ true
    → is_taken (set table d (some i)) c ≡ true
unfolding is_taken
is_taken-set [] d i c h t = absurd (omega (arith, h))
is_taken-set (o ∷ table) zero i zero h t = refl
is_taken-set (o ∷ table) zero i (suc c) h t = t
is_taken-set (o ∷ table) (suc d) i zero h t = t
is_taken-set (o ∷ table) (suc d) i (suc c) h t = is_taken-set table d i c (omega (arith, h)) t

pub record Turned (m n i : ℕ) (perm : List ℕ) (j : ℕ) (fl : Filling) : Type 0 where
  pub next : ℕ
  pub after : Filling
  pub runs : take_slot i perm j fl ≡ some (next, after)
  pub counted : Counted m n after
  pub one_more : after.populated ≡ suc fl.populated
  pub grows : Grows fl after
  pub read_on : ReadUpTo after.table perm next

is_taken-set_self :
    (table : List (Option ℕ)) (d i : ℕ)
    → d < length table
    → is_taken (set table d (some i)) d ≡ true
is_taken-set_self table d i h =
    is_taken-some (set table d (some i)) d i (get_elem?-set_self table d (some i) h)

valued-set :
    (n : ℕ) (table : List (Option ℕ)) (d i : ℕ)
    → d < length table
    → i < n
    → ((c v : ℕ) → get_elem? table c ≡ some (some v) → v < n)
    → (c v : ℕ) → get_elem? (set table d (some i)) c ≡ some (some v)
    → v < n
valued-set n table d i h lt old c v e = elim (ℕ_discrete d c) [
  | yes same ↦
      let v_is : i ≡ v = some_inj (
        some_inj (
          sym (get_elem?-set_self table d (some i) h)
          ∙ ap (get_elem? (set table d (some i))) same
          ∙ e)) in
      subst (λ (x : ℕ). x < n) v_is lt
  | no ne ↦ old c v (sym (get_elem?-set_ne table (some i) ne) ∙ e)
]

not_past :
    (table : List (Option ℕ)) (perm : List ℕ) (j k c : ℕ)
    → ReadUpTo table perm j
    → get_elem? perm k ≡ some c
    → is_taken table c ≡ false
    → j ≤ k
not_past table perm j k c read at free = elim (dec_lt k j) [
  | yes lt ↦ absurd (clash (read k c lt at) free)
  | no ge ↦ omega (arith, ge)
]
  where
    clash : {b : Bool} → b ≡ true → b ≡ false → ⊥
    clash e f = cc

read-set :
    (table : List (Option ℕ)) (perm : List ℕ) (j x d i : ℕ)
    → d < length table
    → ReadUpTo table perm j
    → get_elem? perm (j + x) ≡ some d
    → ((y e : ℕ) → y < x → get_elem? (drop j perm) y ≡ some e → is_taken table e ≡ true)
    → ReadUpTo (set table d (some i)) perm (suc (j + x))
read-set table perm j x d i h read at before k c lt e = elim (dec_lt k j) [
  | yes early ↦ is_taken-set table d i c h (read k c early e)
  | no late ↦ elim (ℕ_discrete k (j + x)) [
    | yes same ↦
        let c_is : d ≡ c = some_inj (sym at ∙ ap (get_elem? perm) (sym same) ∙ e) in
        subst (λ (y : ℕ). is_taken (set table d (some i)) y ≡ true) c_is
          (is_taken-set_self table d i h)
    | no ne ↦ is_taken-set table d i c h (
        before (k - j) c (between late ne)
          (get_elem?-drop perm j (k - j) ∙ ap (get_elem? perm) (back late) ∙ e))
  ]
]
  where
    back : (k < j → ⊥) → j + (k - j) ≡ k
    back late = omega (arith, late)

    between : (k < j → ⊥) → (k ≡ j + x → ⊥) → k - j < x
    between late ne = omega (arith, late, ne)

lt_eq : (a b c : ℕ) → a < b → c ≡ b → a < c
lt_eq a b c h e = omega arith

-- A turn ends with a slot taken, while one is free.
pub take_slot-Turned :
    (m n i : ℕ) (perm : List ℕ) (j : ℕ) (fl : Filling)
    → i < n
    → Counted m n fl
    → fl.populated < m
    → IsPermutation m perm
    → ReadUpTo fl.table perm j
    → Turned m n i perm j fl
unfolding take_slot
take_slot-Turned m n i perm j fl lt counted room p read =
    let (c, c_lt, c_free) = free_slot fl.table (omega (arith, counted.size, counted.count, room)) in
    let free = is_taken-none fl.table c c_free in
    let (k, at) = p.covers c (omega (arith, counted.size, c_lt)) in
    let past : j ≤ k = not_past fl.table perm j k c read at free in
    let at_rest : get_elem? (drop j perm) (k - j) ≡ some c =
      get_elem?-drop perm j (k - j) ∙ ap (get_elem? perm) (omega (arith, past)) ∙ at in
    let (d, x, found, d_at, d_free, before) =
      next_free-some fl.table (drop j perm) j (k - j) c at_rest free in
    let d_in : get_elem? perm (j + x) ≡ some d = sym (get_elem?-drop perm j x) ∙ d_at in
    let d_lt : d < length fl.table =
      lt_eq d m (length fl.table) (p.slots (j + x) d d_in) counted.size in
    record {
      next = suc (j + x);
      after = record { table = set fl.table d (some i); populated = suc fl.populated };
      runs = rw found refl;
      counted = record {
        size = length-set fl.table d (some i) ∙ counted.size;
        count =
            ap suc counted.count
            ∙ sym (taken_count-set fl.table d i (free_there fl.table d d_lt d_free));
        valued = valued-set n fl.table d i d_lt lt counted.valued;
      };
      one_more = refl;
      grows = λ e t. is_taken-set fl.table d i e d_lt t;
      read_on = read-set fl.table perm j x d i d_lt read d_in before;
    }
