-- ===== src/Routing/Dynamic.antt =====
-- request.go: matching a path segment by segment.
use sushi_gateway.Prelude.{
  ℕ, ◌≡◌, refl, sym, ap, ap₂, ◌∙◌, ◌↔◌, inl, inr, true, false, List, [], ◌∷◌, ◌++◌, arith,
  Bool-cases, Bool-ext, ◌==◌,
}
use sushi_gateway.Prelude.Text.{
  bytes_eq, bytes_eq_iff, bytes_eq_refl, ends_with_byte, contains_byte, split, join, join-split,
  onto_first,
}
use sushi_gateway.Model.{Bytes}
use sushi_gateway.Routing.{
  slash, open_brace, close_brace, is_param, match_parts, match_dynamic_route, is_static, match_path,
}

-- a segment in braces
abbrev pub IsParam : Bytes → Type 0
IsParam p = (name : Bytes) × (p ≡ open_brace ∷ name ++ close_brace ∷ [])

ends_with_byte-append :
    (c b : ℕ) (s : Bytes)
    → ends_with_byte c (b ∷ s) ≡ true
    → (name : Bytes) × (b ∷ s ≡ name ++ c ∷ [])
unfolding ends_with_byte
ends_with_byte-append c b [] h = ([], ground arith)
ends_with_byte-append c b (d ∷ s) h =
    let (name, e) = ends_with_byte-append c d s h in (b ∷ name, ap (◌∷◌ b) e)

append-ends_with_byte : (c : ℕ) (name : Bytes) → ends_with_byte c (name ++ c ∷ []) ≡ true
unfolding ends_with_byte
append-ends_with_byte c [] = ground arith
append-ends_with_byte c (b ∷ []) = ground arith
append-ends_with_byte c (b ∷ d ∷ s) = append-ends_with_byte c (d ∷ s)

IsParam-of : (p : Bytes) → is_param p ≡ true → IsParam p
unfolding is_param ends_with_byte
IsParam-of [] h = cc
IsParam-of (b ∷ []) h = absurd (ground arith)
IsParam-of (b ∷ d ∷ s) h =
    let (name, e) = ends_with_byte-append close_brace d s (ground arith) in
    (name, ap₂ ◌∷◌ (ground arith) e)

is_param_of : (name : Bytes) → is_param (open_brace ∷ name ++ close_brace ∷ []) ≡ true
unfolding is_param ends_with_byte
is_param_of [] = refl
is_param_of (b ∷ name) = append-ends_with_byte close_brace (b ∷ name)

-- A segment is a parameter exactly when it is a text between braces.
is_param_iff : (p : Bytes) → (is_param p ≡ true) ↔ IsParam p
is_param_iff p = (IsParam-of p, λ (name, e). rw e (is_param_of name))

-- the segments of a route and of a request that fit
pub data Fits : List Bytes → List Bytes → Type 0 where
  nil : Fits [] []
  param : {p q : Bytes} {ps qs : List Bytes} → IsParam p → Fits ps qs → Fits (p ∷ ps) (q ∷ qs)
  literal : {p q : Bytes} {ps qs : List Bytes} → p ≡ q → Fits ps qs → Fits (p ∷ ps) (q ∷ qs)

match_parts-Fits : (ps qs : List Bytes) → match_parts ps qs ≡ true → Fits ps qs
unfolding match_parts
match_parts-Fits [] [] h = nil
match_parts-Fits [] (q ∷ qs) h = cc
match_parts-Fits (p ∷ ps) [] h = cc
match_parts-Fits (p ∷ ps) (q ∷ qs) h = elim (Bool-cases (is_param p)) [
  | inl e ↦ param (IsParam-of p e) (match_parts-Fits ps qs (rw e at h))
  | inr e ↦ literal ((bytes_eq_iff p q).0 (ground arith)) (match_parts-Fits ps qs (ground arith))
]

Fits-match_parts : {ps qs : List Bytes} → Fits ps qs → match_parts ps qs ≡ true
unfolding match_parts
Fits-match_parts nil = refl
Fits-match_parts (param {p = p} h f) = rw ((is_param_iff p).1 h) (Fits-match_parts f)
Fits-match_parts (literal {p = p} {q = q} e f) =
    ground (arith, (bytes_eq_iff p q).1 e, Fits-match_parts f)

-- A route with braces matches a path exactly when the two have the same number of segments and
-- each segment of the route is a text between braces or equal to the segment of the path.
pub match_dynamic_route_iff :
    (route_path request_path : Bytes)
    → (match_dynamic_route route_path request_path ≡ true)
      ↔ Fits (split slash route_path) (split slash request_path)
unfolding match_dynamic_route
match_dynamic_route_iff r q = (match_parts-Fits (split slash r) (split slash q), Fits-match_parts)

-- the segments of a path without an opening brace are no parameters
abbrev NoParams : List Bytes → Type 0
NoParams [] = Unit
NoParams (p ∷ ps) = (contains_byte open_brace p ≡ false) × NoParams ps

onto_first-NoParams :
    (b : ℕ) (ps : List Bytes) → (b == open_brace) ≡ false → NoParams ps → NoParams (onto_first b ps)
unfolding contains_byte
onto_first-NoParams b [] e h = (ground arith, tt)
onto_first-NoParams b (p ∷ ps) e h = (ground arith, h.1)

split-NoParams : (s : Bytes) → contains_byte open_brace s ≡ false → NoParams (split slash s)
unfolding split contains_byte
split-NoParams [] h = (refl, tt)
split-NoParams (b ∷ s) h =
    let rest = split-NoParams s (ground arith) in
    elim (Bool-cases (b == slash)) [
      | inl e ↦ rw e (refl, rest)
      | inr e ↦ rw e (onto_first-NoParams b (split slash s) (ground arith) rest)
    ]

is_param-contains : (p : Bytes) → contains_byte open_brace p ≡ false → is_param p ≡ false
unfolding is_param contains_byte
is_param-contains [] h = refl
is_param-contains (b ∷ p) h = ground arith

NoParams-eq : (ps qs : List Bytes) → NoParams ps → match_parts ps qs ≡ true → ps ≡ qs
unfolding match_parts
NoParams-eq [] [] n h = refl
NoParams-eq [] (q ∷ qs) n h = cc
NoParams-eq (p ∷ ps) [] n h = cc
NoParams-eq (p ∷ ps) (q ∷ qs) n h =
    ground (arith, is_param-contains p n.0, bytes_eq_iff p q, NoParams-eq ps qs n.1)

match_parts_refl : (ps : List Bytes) → match_parts ps ps ≡ true
unfolding match_parts
match_parts_refl [] = refl
match_parts_refl (p ∷ ps) = ground (arith, bytes_eq_refl p, match_parts_refl ps)

split-injective : (s t : Bytes) → split slash s ≡ split slash t → s ≡ t
split-injective s t e = sym (join-split slash s) ∙ ap (join slash) e ∙ join-split slash t

is_static-contains : (r : Bytes) → is_static r ≡ true → contains_byte open_brace r ≡ false
unfolding is_static
is_static-contains r e = ground arith

-- The plain comparison that a route without braces gets is only a shortcut: on every route and
-- path it decides the same as the segment-wise match.
pub match_path_lem :
    (route_path request_path : Bytes)
    → match_path route_path request_path ≡ match_dynamic_route route_path request_path
unfolding match_path match_dynamic_route
match_path_lem r q = elim (Bool-cases (is_static r)) [
  | inr e ↦ rw e
  | inl e ↦ rw e (
      Bool-ext (bytes_eq r q) _
        (λ h. let same = (bytes_eq_iff r q).0 h in rw same (match_parts_refl (split slash q)))
        (λ h. (bytes_eq_iff r q).1 (
          split-injective r q (
            NoParams-eq (split slash r) (split slash q) (split-NoParams r (is_static-contains r e))
              h))))
]
