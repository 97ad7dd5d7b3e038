-- ===== src/Validator/Paths.antt =====
-- service_validator.go, route_validator.go: the paths that the checks accept.
use sushi_gateway.Prelude.{
  ℕ, ◌≡◌, ◌↔◌, ◌⊎◌, inl, inr, refl, ap, ◌∙◌, Bool, true, false, not, ◌&&◌, none, [], ◌∷◌, ◌++◌,
  arith, ==_iff, Bool-cases, ltb, length,
}
use sushi_gateway.Prelude.Text.{bytes_eq, bytes_eq_iff, starts_with_byte, ends_with_byte}
use sushi_gateway.Model.{Bytes}
use sushi_gateway.Routing.{slash}
use sushi_gateway.Validator.{path_end, path_start, validate_route_path, reject_if, first_of}
use sushi_gateway.Validator.Checks.{first_of_iff, reject_if_iff, reject_unless_iff}

abbrev pub StartsWith : ℕ → Bytes → Type 0
StartsWith c p = (q : Bytes) × (p ≡ c ∷ q)

abbrev pub EndsWith : ℕ → Bytes → Type 0
EndsWith c p = (q : Bytes) × (p ≡ q ++ c ∷ [])

pub starts_with_byte_iff : (c : ℕ) (p : Bytes) → (starts_with_byte c p ≡ true) ↔ StartsWith c p
starts_with_byte_iff c [] = (λ h. cc, λ h. let (q, e) = h in cc)
starts_with_byte_iff c (b ∷ p) = (
  λ h. (p, ap (λ (x : ℕ). x ∷ p) ((==_iff b c).0 h)),
  λ h. let (q, e) = h in (==_iff b c).1 (ground arith),
)

ends_sound : (c : ℕ) (p : Bytes) → ends_with_byte c p ≡ true → EndsWith c p
unfolding ends_with_byte
ends_sound c [] h = cc
ends_sound c (b ∷ []) h = ([], ap (λ (x : ℕ). x ∷ []) ((==_iff b c).0 h))
ends_sound c (b ∷ d ∷ p) h = let (q, e) = ends_sound c (d ∷ p) h in (b ∷ q, ap (◌∷◌ b) e)

ends_complete : (c : ℕ) (q : Bytes) → ends_with_byte c (q ++ c ∷ []) ≡ true
unfolding ends_with_byte
ends_complete c [] = ground arith
ends_complete c (b ∷ []) = ground arith
ends_complete c (b ∷ d ∷ q) = ends_complete c (d ∷ q)

pub ends_with_byte_iff : (c : ℕ) (p : Bytes) → (ends_with_byte c p ≡ true) ↔ EndsWith c p
ends_with_byte_iff c p =
    (ends_sound c p, λ h. let (q, e) = h in ap (ends_with_byte c) e ∙ ends_complete c q)

pub not_ends_iff : (c : ℕ) (p : Bytes) → (ends_with_byte c p ≡ false) ↔ ¬ (EndsWith c p)
not_ends_iff c p = elim (Bool-cases (ends_with_byte c p)) [
  | inl e ↦ (λ h m. cc, λ h. absurd (h (ends_sound c p e)))
  | inr e ↦ (λ h m. let f = (ends_with_byte_iff c p).1 m in cc, λ h. e)
]

-- "/", or a path that starts with a slash and does not end with one
abbrev pub IsCleanPath : Bytes → Type 0
IsCleanPath p = StartsWith slash p × ((p ≡ slash ∷ []) ⊎ ¬ (EndsWith slash p))

long_iff : (p : Bytes) → StartsWith slash p → (ltb 1 (length p) ≡ false) ↔ (p ≡ slash ∷ [])
long_iff [] (q, e) = (λ h. cc, λ h. cc)
long_iff (b ∷ []) (q, e) = (λ h. ground arith, λ h. refl)
long_iff (b ∷ d ∷ p) (q, e) = (λ h. ground arith, λ h. cc)

either_false {ℓ κ} :
    {P : Type ℓ} {Q : Type κ} (a b : Bool)
    → (a ≡ false) ↔ P
    → (b ≡ false) ↔ Q
    → ((a && b) ≡ false) ↔ (P ⊎ Q)
either_false true b p q =
    (λ h. inr (q.0 h), λ h. elim h [ inl x ↦ absurd (let e = p.1 x in cc) | inr y ↦ q.1 y ])
either_false false b p q = (λ h. inl (p.0 refl), λ h. refl)

-- the check on the start of a path, and one on its end that is right for a path with that start
pub clean_iff :
    (p : Bytes) (ends : Bool)
    → (StartsWith slash p → (ends ≡ false) ↔ ((p ≡ slash ∷ []) ⊎ ¬ (EndsWith slash p)))
    → (first_of
          (reject_if (not (starts_with_byte slash p)) (path_start p))
          (reject_if ends (path_end p))
        ≡ none)
      ↔ IsCleanPath p
clean_iff p ends i = (
  λ h.
      let (x, y) = (first_of_iff _ _).0 h in
      let start = (starts_with_byte_iff slash p).0 ((reject_unless_iff _ _).0 x) in
      (start, (i start).0 ((reject_if_iff _ _).0 y)),
  λ h. (first_of_iff _ _).1 (
    (reject_unless_iff _ _).1 ((starts_with_byte_iff slash p).1 h.0),
    (reject_if_iff _ _).1 ((i h.0).1 h.1),
  ),
)

swap_sum {ℓ κ} : {P : Type ℓ} {Q : Type κ} → (P ⊎ Q) ↔ (Q ⊎ P)
swap_sum =
    (λ h. elim h [ inl x ↦ inr x | inr y ↦ inl y ], λ h. elim h [ inl x ↦ inr x | inr y ↦ inl y ])

pub validate_route_path_iff : (p : Bytes) → (validate_route_path p ≡ none) ↔ IsCleanPath p
unfolding validate_route_path
validate_route_path_iff p = clean_iff p _ (λ start.
    let e = either_false _ _ (not_ends_iff slash p) (long_iff p start) in
    (λ h. swap_sum.0 (e.0 h), λ h. e.1 (swap_sum.1 h)))

not_root_iff : (p : Bytes) → (not (bytes_eq p (slash ∷ [])) ≡ false) ↔ (p ≡ slash ∷ [])
not_root_iff p =
    let i = bytes_eq_iff p (slash ∷ []) in
    elim (Bool-cases (bytes_eq p (slash ∷ []))) [
      | inl e ↦ (λ h. i.0 e, λ h. simp e)
      | inr e ↦
          (λ h. absurd (let h' : true ≡ false = rw e at h in cc), λ h. absurd (let t = i.1 h in cc))
    ]

pub base_path_iff :
    (p : Bytes)
    → (first_of
          (reject_if (not (starts_with_byte slash p)) (path_start p))
          (reject_if (not (bytes_eq p (slash ∷ [])) && ends_with_byte slash p) (path_end p))
        ≡ none)
      ↔ IsCleanPath p
base_path_iff p = clean_iff p _ (λ start. either_false _ _ (not_root_iff p) (not_ends_iff slash p))
