-- ===== src/Balancer/Candidates.antt =====
-- load_balancer.go: what tagsMatch decides, and which indices a filtering loop collects.
use sushi_gateway.Prelude.{
  ℕ, zero, suc, String, ◌+◌, ◌≤◌, ◌≡◌, refl, sym, ap, ◌∙◌, ◌↔◌, inl, inr, Bool, true, some, List,
  [], ◌∷◌, arith, str_eq, str_eq_iff, Memᴰ, Memᴰ-cases, Bool-cases, get_elem?,
}
use sushi_gateway.Model.{UpstreamTarget}
use sushi_gateway.Balancer.{contains, all_found, tags_match, indices}

pub contains-Memᴰ : (ys : List String) (x : String) → contains ys x ≡ true → Memᴰ x ys
unfolding contains
contains-Memᴰ [] x h = cc
contains-Memᴰ (y ∷ ys) x h = elim (Bool-cases (str_eq y x)) [
  | inl e ↦ Memᴰ.head (sym ((str_eq_iff y x).0 e))
  | inr e ↦ Memᴰ.tail (contains-Memᴰ ys x (rw e at h))
]

pub Memᴰ-contains : (ys : List String) (x : String) → Memᴰ x ys → contains ys x ≡ true
unfolding contains
Memᴰ-contains [] x h = elim h [ ]
Memᴰ-contains (y ∷ ys) x (Memᴰ.head e) = ground (arith, str_eq_iff y x)
Memᴰ-contains (y ∷ ys) x (Memᴰ.tail h) = ground (arith, Memᴰ-contains ys x h)

all_found_sound :
    (ts rs : List String) → all_found ts rs ≡ true → (r : String) → Memᴰ r rs → Memᴰ r ts
unfolding all_found
all_found_sound ts [] h r m = elim m [ ]
all_found_sound ts (q ∷ rs) h r (Memᴰ.head e) = rw e (contains-Memᴰ ts q (ground arith))
all_found_sound ts (q ∷ rs) h r (Memᴰ.tail m) = all_found_sound ts rs (ground arith) r m

all_found_complete :
    (ts rs : List String) → ((r : String) → Memᴰ r rs → Memᴰ r ts) → all_found ts rs ≡ true
unfolding all_found
all_found_complete ts [] h = refl
all_found_complete ts (q ∷ rs) h = ground (
  arith,
  Memᴰ-contains ts q (h q (Memᴰ.head refl)),
  all_found_complete ts rs (λ r m. h r (Memᴰ.tail m)),
)

-- tagsMatch holds exactly when every required tag is a tag of the target.
pub tags_match_iff :
    (ts rs : List String) → (tags_match ts rs ≡ true) ↔ ((r : String) → Memᴰ r rs → Memᴰ r ts)
unfolding tags_match
tags_match_iff ts [] = (λ h r m. elim m [ ], λ h. refl)
tags_match_iff [] (q ∷ rs) = (λ h. cc, λ h. elim (h q (Memᴰ.head refl)) [ ])
tags_match_iff (t ∷ ts) (q ∷ rs) =
    (all_found_sound (t ∷ ts) (q ∷ rs), all_found_complete (t ∷ ts) (q ∷ rs))

-- `i` is the index of an upstream that passes `p`
abbrev pub Passes : (UpstreamTarget → Bool) → List UpstreamTarget → ℕ → Type 0
Passes p us i = (u : UpstreamTarget) × (get_elem? us i ≡ some u) × (p u ≡ true)

-- `i` is `k` and an index of an upstream that passes
abbrev PassesFrom : (UpstreamTarget → Bool) → ℕ → List UpstreamTarget → ℕ → Type 0
PassesFrom p k us i = (j : ℕ) × (i ≡ k + j) × Passes p us j

PassesFrom-cons :
    (p : UpstreamTarget → Bool) (k : ℕ) (u : UpstreamTarget) (us : List UpstreamTarget) (i : ℕ)
    → PassesFrom p (suc k) us i
    → PassesFrom p k (u ∷ us) i
PassesFrom-cons p k u us i (j, e, h) = (suc j, omega arith, h)

indices-PassesFrom :
    (p : UpstreamTarget → Bool) (k : ℕ) (us : List UpstreamTarget) (i : ℕ)
    → Memᴰ i (indices p k us)
    → PassesFrom p k us i
unfolding indices
indices-PassesFrom p k [] i h = elim h [ ]
indices-PassesFrom p k (u ∷ us) i h = elim (Bool-cases (p u)) [
  | inl e ↦ elim (Memᴰ-cases (rw e at h)) [
    | inl same ↦ (0, omega arith, (u, refl, e))
    | inr m ↦ PassesFrom-cons p k u us i (indices-PassesFrom p (suc k) us i m)
  ]
  | inr e ↦ PassesFrom-cons p k u us i (indices-PassesFrom p (suc k) us i (rw e at h))
]

Passes-indices :
    (p : UpstreamTarget → Bool) (k : ℕ) (us : List UpstreamTarget) (j : ℕ)
    → Passes p us j
    → (i : ℕ) → i ≡ k + j
    → Memᴰ i (indices p k us)
unfolding indices
Passes-indices p k [] j (u, e, h) i q = cc
Passes-indices p k (v ∷ us) zero (u, e, h) i q =
    let same : p v ≡ true = ap p (ground arith) ∙ h in rw same (Memᴰ.head (omega arith))
Passes-indices p k (v ∷ us) (suc j) (u, e, h) i q =
    let rest = Passes-indices p (suc k) us j (u, e, h) i (omega arith) in
    elim (Bool-cases (p v)) [ inl yes_p ↦ rw yes_p (Memᴰ.tail rest) | inr no_p ↦ rw no_p rest ]

-- The filtering loop collects exactly the indices of the upstreams that pass its test.
pub indices_iff :
    (p : UpstreamTarget → Bool) (us : List UpstreamTarget) (i : ℕ)
    → Memᴰ i (indices p 0 us) ↔ Passes p us i
indices_iff p us i =
    (λ m. back (indices-PassesFrom p 0 us i m), λ h. Passes-indices p 0 us i h i (omega arith))
  where
    back : PassesFrom p 0 us i → Passes p us i
    back (j, e, h) = let same : i ≡ j = omega arith in rw same h

-- the indices come in increasing order, so none comes twice
abbrev pub AllAbove : ℕ → List ℕ → Type 0
AllAbove k [] = Unit
AllAbove k (i ∷ is) = (k ≤ i) × AllAbove (suc i) is

pub AllAbove-weaken : (k : ℕ) (is : List ℕ) → AllAbove (suc k) is → AllAbove k is
AllAbove-weaken k [] h = tt
AllAbove-weaken k (i ∷ is) h = (omega arith, h.1)

pub indices-AllAbove :
    (p : UpstreamTarget → Bool) (k : ℕ) (us : List UpstreamTarget) → AllAbove k (indices p k us)
unfolding indices
indices-AllAbove p k [] = tt
indices-AllAbove p k (u ∷ us) = elim (Bool-cases (p u)) [
  | inl e ↦ rw e (omega arith, indices-AllAbove p (suc k) us)
  | inr e ↦ rw e (AllAbove-weaken k (indices p (suc k) us) (indices-AllAbove p (suc k) us))
]
