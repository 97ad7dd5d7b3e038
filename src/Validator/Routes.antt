-- ===== src/Validator/Routes.antt =====
-- route_validator.go: which routes are accepted.
use sushi_gateway.Prelude.{
  String, ◌≡◌, ◌↔◌, ◌⊎◌, inl, inr, refl, false, not, ◌&&◌, none, List, [], ◌∷◌, arith, Memᴰ,
  if◌then◌else◌, length, ◌==◌,
}
use sushi_gateway.Model.{Bytes, Route}
use sushi_gateway.Routing.{slice_contains_string}
use sushi_gateway.Validator.{
  ConfigError, is_nil, valid_methods, validate_route_path, validate_path, validate_method,
  validate_route, reject_if, first_error, method_invalid,
}
use sushi_gateway.Validator.Checks.{
  both_iff, first_error_iff, reject_unless_iff, slice_contains_iff,
}
use sushi_gateway.Validator.Paths.{IsCleanPath, validate_route_path_iff}

abbrev pub IsValidRoute : Route → Type 0
IsValidRoute r =
    (¬ ((r.path ≡ []) × (r.paths ≡ []))
      × (((r.path ≡ []) ⊎ IsCleanPath r.path) × ((p : Bytes) → Memᴰ p r.paths → IsCleanPath p)))
    × ((m : String) → Memᴰ m r.methods → Memᴰ m valid_methods)

some_path_iff :
    (p : Bytes) (ps : List Bytes) (e : ConfigError)
    → (reject_if (is_nil p && length ps == 0) e ≡ none) ↔ ¬ ((p ≡ []) × (ps ≡ []))
some_path_iff [] [] e = (λ h. cc, λ h. absurd (h (refl, refl)))
some_path_iff [] (q ∷ ps) e = (λ h n. cc, λ h. ground arith)
some_path_iff (b ∷ p) ps e = (λ h n. cc, λ h. refl)

own_path_iff :
    (p : Bytes)
    → ((if not (is_nil p) then validate_route_path p else none) ≡ none) ↔ ((p ≡ []) ⊎ IsCleanPath p)
own_path_iff [] = (λ h. inl refl, λ h. refl)
own_path_iff (b ∷ p) =
    let i = validate_route_path_iff (b ∷ p) in
    (λ h. inr (i.0 h), λ h. elim h [ inl e ↦ absurd cc | inr c ↦ i.1 c ])

paths_iff :
    (ps : List Bytes)
    → (first_error validate_route_path ps ≡ none) ↔ ((p : Bytes) → Memᴰ p ps → IsCleanPath p)
paths_iff ps =
    let i = first_error_iff validate_route_path ps in
    (
      λ h p m. (validate_route_path_iff p).0 (i.0 h p m),
      λ h. i.1 (λ p m. (validate_route_path_iff p).1 (h p m)),
    )

methods_iff :
    (ms : List String)
    → ((if length ms == 0
          then none
          else first_error
              (λ m. reject_if (not (slice_contains_string valid_methods m)) (method_invalid m))
              ms)
        ≡ none)
      ↔ ((m : String) → Memᴰ m ms → Memᴰ m valid_methods)
methods_iff [] = (λ h m i. elim i [ ], λ h. refl)
methods_iff (n ∷ ms) = rw nonempty (
  λ h m k. (slice_contains_iff valid_methods m).0 ((reject_unless_iff _ _).0 (i.0 h m k)),
  λ h. i.1 (λ m k. (reject_unless_iff _ _).1 ((slice_contains_iff valid_methods m).1 (h m k))),
)
  where
    nonempty : (length (n ∷ ms) == 0) ≡ false
    nonempty = ground arith

    i :
        (first_error
            (λ m. reject_if (not (slice_contains_string valid_methods m)) (method_invalid m))
            (n ∷ ms)
          ≡ none)
        ↔ ((m : String)
            → Memᴰ m (n ∷ ms)
            → reject_if (not (slice_contains_string valid_methods m)) (method_invalid m) ≡ none)
    i = first_error_iff _ (n ∷ ms)

-- ValidateRoute accepts a route exactly when it has a path, each path that it has is "/" or starts
-- with a slash and does not end with one, and each method that it lists is one of the seven.
pub validate_route_iff : (r : Route) → (validate_route r ≡ none) ↔ IsValidRoute r
unfolding validate_route validate_path validate_method
validate_route_iff r =
    both_iff _ _
      (both_iff _ _ (some_path_iff r.path r.paths _)
        (both_iff _ _ (own_path_iff r.path) (paths_iff r.paths)))
      (methods_iff r.methods)
