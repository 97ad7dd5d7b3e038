-- ===== src/Cors/Checked.antt =====
-- cors.go: what a config that Validate accepts leads to.
use sushi_gateway.Prelude.{
  String, ◌≡◌, refl, ◌&&◌, not, Bool, true, false, Bool-cases, inl, inr, Option, none, some, List,
  [], ◌∷◌, str_eq,
}
use sushi_gateway.Prelude.Int.{ℤ}
use sushi_gateway.Http.{Request}
use sushi_gateway.Http.Response.{Headers}
use sushi_gateway.Balancer.LeastConnections.{Float64}
use sushi_gateway.Cors.{
  Value, array, not_array, CorsPlugin, CorsConfig, all_strings, is_list_of, required_list,
  optional_list, is_valid, to_strings, asserted_list, list_or_nil, parse_cors_config, cors_headers,
  execute, flag_or_false, age_or_0,
}

-- an option has a value
abbrev pub IsSome {ℓ} : {A : Type ℓ} → Option A → Type ℓ
IsSome {A} o = (a : A) × (o ≡ some a)

and_true : (a b : Bool) → (a && b) ≡ true → (a ≡ true) × (b ≡ true)
and_true true b e = (refl, e)
and_true false b e = cc

module _ (F : Float64) where
  to_strings-IsSome :
      (ok : String → Bool) (es : List (Option String))
      → all_strings F ok es ≡ true
      → IsSome (to_strings F es)
  unfolding all_strings to_strings
  to_strings-IsSome ok [] h = ([], refl)
  to_strings-IsSome ok (none ∷ es) h = absurd (cc)
  to_strings-IsSome ok (some s ∷ es) h = elim (Bool-cases (ok s)) [
    | inl e ↦ let (ss, q) = to_strings-IsSome ok es (rw e at h) in (s ∷ ss, rw q refl)
    | inr e ↦ absurd (false_true (rw e at h))
  ]
    where
      false_true : false ≡ true → ⊥
      false_true e = cc

  is_list_of-IsSome :
      (ok : String → Bool) (es : List (Option String))
      → is_list_of F ok es ≡ true
      → IsSome (to_strings F es)
  unfolding is_list_of
  is_list_of-IsSome ok [] h = absurd (cc)
  is_list_of-IsSome ok (e ∷ es) h = to_strings-IsSome ok (e ∷ es) h

  required-IsSome : (v : Option Value) → required_list F v ≡ true → IsSome (asserted_list F v)
  required-IsSome none h = absurd (cc)
  required-IsSome (some not_array) h = absurd (cc)
  required-IsSome (some (array es)) h = is_list_of-IsSome (λ s. true) es h

  optional-IsSome :
      (ok : String → Bool) (v : Option Value)
      → optional_list F ok v ≡ true
      → IsSome (list_or_nil F v)
  optional-IsSome ok none h = ([], refl)
  optional-IsSome ok (some not_array) h = ([], refl)
  optional-IsSome ok (some (array es)) h = is_list_of-IsSome ok es h

  -- For a config that Validate accepts, Execute does not panic: it sets the headers of one parsed
  -- config on every request, and calls the next handler exactly if the request is no preflight or
  -- preflight_continue is set.
  pub execute-is_valid :
      (to_upper : String → String) (decimal : ℤ → String) (p : CorsPlugin F)
      → is_valid F to_upper p ≡ true
      → (c : CorsConfig F) × (parse_cors_config F p ≡ some c)
        × ((req : Request) (hs : Headers)
            → execute F decimal p req hs
              ≡ some (
                cors_headers F decimal c hs,
                not (str_eq req.method "OPTIONS" && not (flag_or_false F p.preflight_continue)),
              ))
  unfolding is_valid parse_cors_config execute
  execute-is_valid to_upper decimal p h =
      let (h1, k1) = and_true (required_list F p.allow_origins) _ h in
      let (h2, k2) = and_true _ _ k1 in
      let (h3, k3) = and_true _ _ k2 in
      let (h4, k4) = and_true _ _ k3 in
      let (origins, e1) = required-IsSome p.allow_origins h1 in
      let (methods, e2) = optional-IsSome _ p.allow_methods h2 in
      let (headers, e3) = optional-IsSome (λ s. true) p.allow_headers h3 in
      let (exposed, e4) = optional-IsSome (λ s. true) p.expose_headers h4 in
      (
        record {
          allow_origins = origins;
          allow_methods = methods;
          allow_headers = headers;
          expose_headers = exposed;
          allow_credentials = flag_or_false F p.allow_credentials;
          allow_private_network = flag_or_false F p.allow_private_network;
          preflight_continue = flag_or_false F p.preflight_continue;
          max_age = age_or_0 F p.max_age;
        },
        simp (e1, e2, e3, e4),
        λ req hs. simp (e1, e2, e3, e4),
      )
