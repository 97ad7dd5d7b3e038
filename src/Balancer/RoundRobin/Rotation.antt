-- ===== src/Balancer/RoundRobin/Rotation.antt =====
-- load_balancer.go: the cursor of a service steps through the valid indices in turn.
use native.Mathlib.Nat.{mod-lt, mod-eq_of_lt, mod-add-mod, mod-mod, mod_self, suc-add, zero-add}
use sushi_gateway.Prelude.{
  ℕ, zero, suc, String, ◌+◌, ◌-◌, ◌%◌, ◌≤◌, ◌<◌, ◌≡◌, refl, sym, ap, ap₂, ◌∙◌, Option, some, List,
  [], ◌∷◌, ◌++◌, map, arith, str_eq_refl, length, length-drop, get_elem?, take, drop,
}
use sushi_gateway.Balancer.RoundRobin.{Cursors, cursor, rotate}

-- `k` calls in a row
unfoldable pub rotations : ℕ → Cursors → String → List ℕ → List (Option ℕ) × Cursors
rotations zero rr key valid = ([], rr)
rotations (suc k) rr key valid =
    let (i, rr1) = rotate rr key valid in let (is, rr2) = rotations k rr1 key valid in (i ∷ is, rr2)

cursor-rotate :
    (rr : Cursors) (key : String) (i : ℕ) (is : List ℕ)
    → cursor (rotate rr key (i ∷ is)).1 key ≡ (cursor rr key + 1) % length (i ∷ is)
unfolding rotate
cursor-rotate rr key i is = rw (str_eq_refl key)

get_elem?-drop :
    (c : ℕ) (xs : List ℕ) (h : c < length xs)
    → (x : ℕ) × (get_elem? xs c ≡ some x) × (drop c xs ≡ x ∷ drop (suc c) xs)
get_elem?-drop c [] h = absurd (omega arith)
get_elem?-drop zero (x ∷ xs) h = (x, refl, refl)
get_elem?-drop (suc c) (x ∷ xs) h = get_elem?-drop c xs (omega arith)

next-mod : (a b n : ℕ) → a % n ≡ b % n → (a + 1) % n % n ≡ (b + 1) % n
next-mod a b n e =
    mod-mod (a + 1) n ∙ sym (mod-add-mod a n 1) ∙ ap (λ (x : ℕ). (x + 1) % n) e ∙ mod-add-mod b n 1

-- up to the end of the list, the picks are a stretch of it
module _ (key : String) (i : ℕ) (is : List ℕ) where
  abbrev size : ℕ
  size = length (i ∷ is)

  pick-rotate :
      (c : ℕ) (rr : Cursors)
      → cursor rr key % size ≡ c % size
      → c < size
      → (x : ℕ) → get_elem? (i ∷ is) c ≡ some x
      → (rotate rr key (i ∷ is)).0 ≡ some x
  unfolding rotate
  pick-rotate c rr e h x q = rw (e, mod-eq_of_lt h) q

  cursor-next :
      (c : ℕ) (rr : Cursors)
      → cursor rr key % size ≡ c % size
      → cursor (rotate rr key (i ∷ is)).1 key % size ≡ suc c % size
  cursor-next c rr e =
      rw (cursor-rotate rr key i is)
        (next-mod (cursor rr key) c size e ∙ ap (λ (x : ℕ). x % size) (omega arith))

  rotations-stretch :
      (k c : ℕ) (rr : Cursors)
      → cursor rr key % size ≡ c % size
      → c + k ≤ size
      → ((rotations k rr key (i ∷ is)).0 ≡ map some (take k (drop c (i ∷ is))))
        × (cursor (rotations k rr key (i ∷ is)).1 key % size ≡ (c + k) % size)
  unfolding rotations
  rotations-stretch zero c rr e h = (refl, e ∙ ap (λ (x : ℕ). x % size) (omega arith))
  rotations-stretch (suc k) c rr e h =
      let (x, q, d) = get_elem?-drop c (i ∷ is) (omega arith) in
      let (rest, last) =
        rotations-stretch k (suc c) (rotate rr key (i ∷ is)).1 (cursor-next c rr e) (omega arith) in
      (
        rw d (ap₂ ◌∷◌ (pick-rotate c rr e (omega arith) x q) rest),
        last ∙ ap (λ (x : ℕ). x % size) (omega arith),
      )

rotations-append :
    (a b : ℕ) (rr : Cursors) (key : String) (valid : List ℕ)
    → (rotations (a + b) rr key valid).0
      ≡ (rotations a rr key valid).0 ++ (rotations b (rotations a rr key valid).1 key valid).0
unfolding rotations
rotations-append zero b rr key valid = rw zero-add
rotations-append (suc a) b rr key valid =
    rw suc-add
      (ap (◌∷◌ (rotate rr key valid).0) (rotations-append a b (rotate rr key valid).1 key valid))

map-append {ℓ κ} :
    {A : Type ℓ} {B : Type κ} (f : A → B) (xs ys : List A) → map f (xs ++ ys) ≡ map f xs ++ map f ys
map-append f [] ys = refl
map-append f (x ∷ xs) ys = ap (◌∷◌ (f x)) (map-append f xs ys)

take_all : (n : ℕ) (xs : List ℕ) → length xs ≤ n → take n xs ≡ xs
take_all zero [] h = refl
take_all (suc n) [] h = refl
take_all zero (x ∷ xs) h = absurd (omega arith)
take_all (suc n) (x ∷ xs) h = ap (◌∷◌ x) (take_all n xs (omega arith))

-- As many calls in a row as there are valid indices pick each of them once: they are picked in
-- the order of the list, from the cursor to the end and then from the start up to the cursor.
pub rotations-cycle :
    (rr : Cursors) (key : String) (valid : List ℕ)
    → 0 < length valid
    → let c = cursor rr key % length valid in
      (rotations (length valid) rr key valid).0 ≡ map some (drop c valid ++ take c valid)
rotations-cycle rr key [] h = absurd (omega arith)
rotations-cycle rr key (i ∷ is) h =
    let n = length (i ∷ is) in
    let c = cursor rr key % n in
    let below : c < n = mod-lt (cursor rr key) (omega arith) in
    let split : n ≡ (n - c) + c = omega arith in
    let total : c + (n - c) ≡ n = omega arith in
    let (front, at) =
      rotations-stretch key i is (n - c) c rr (sym (mod-mod (cursor rr key) n)) (omega arith) in
    let wrapped : cursor (rotations (n - c) rr key (i ∷ is)).1 key % n ≡ 0 % n =
      at ∙ ap (λ (x : ℕ). x % n) total ∙ mod_self n ∙ sym (mod-eq_of_lt (omega arith)) in
    let (back, _) =
      rotations-stretch key i is c 0 (rotations (n - c) rr key (i ∷ is)).1 wrapped (omega arith) in
    ap (λ (x : ℕ). (rotations x rr key (i ∷ is)).0) split
    ∙ rotations-append (n - c) c rr key (i ∷ is)
    ∙ ap₂ ◌++◌
        (front
          ∙ ap (map some)
              (take_all (n - c) (drop c (i ∷ is)) (omega (arith, length-drop c (i ∷ is)))))
        back
    ∙ sym (map-append some (drop c (i ∷ is)) (take c (i ∷ is)))
