-- ===== src/Validator/Services.antt =====
-- service_validator.go and validateServices: which services are accepted.
use sushi_gateway.Prelude.{
  ◌≡◌, ◌≢◌, ◌↔◌, ◌⊎◌, inl, inr, refl, true, false, not, none, List, [], ◌∷◌, arith, Memᴰ,
  Memᴰ-cases, if◌then◌else◌, str_eq, str_eq_iff, length, ltb, ◌==◌, Bool-cases, ap, ◌∙◌, Option,
}
use sushi_gateway.Prelude.Text.{starts_with_byte, ends_with_byte}
use sushi_gateway.Model.{
  Bytes, Service, Route, Backend, LoadBalancingAlgorithm, other, round_robin, weighted, ip_hash,
  least_connections, latency, consistent_hashing,
}
use sushi_gateway.Routing.{slash, slice_contains_string}
use sushi_gateway.Validator.{
  ConfigError, upstream_missing, path_start, path_end, is_nil, is_valid, available_proxy_protocols,
  validate_service_load_balancing, validate_base_path, validate_protocol, has_aggregation_route,
  validate_upstream, validate_health_check_path, validate_service, reject_if, first_of,
}
use sushi_gateway.Validator.Checks.{
  first_of_iff, both_iff, reject_if_iff, reject_unless_iff, slice_contains_iff,
}
use sushi_gateway.Validator.Paths.{
  IsCleanPath, StartsWith, EndsWith, base_path_iff, starts_with_byte_iff, not_ends_iff,
}

-- a strategy is named by one of the constants, or not at all
abbrev pub IsKnown : LoadBalancingAlgorithm → Type 0
IsKnown (other s) = s ≡ ""
IsKnown _ = Unit

is_valid_iff : (a : LoadBalancingAlgorithm) → (is_valid a ≡ true) ↔ IsKnown a
unfolding is_valid
is_valid_iff (other s) = str_eq_iff s ""
is_valid_iff round_robin = (λ h. tt, λ h. refl)
is_valid_iff weighted = (λ h. tt, λ h. refl)
is_valid_iff ip_hash = (λ h. tt, λ h. refl)
is_valid_iff least_connections = (λ h. tt, λ h. refl)
is_valid_iff latency = (λ h. tt, λ h. refl)
is_valid_iff consistent_hashing = (λ h. tt, λ h. refl)

load_balancing_iff :
    (s : Service) → (validate_service_load_balancing s ≡ none) ↔ IsKnown s.load_balancing_strategy
unfolding validate_service_load_balancing
load_balancing_iff s =
    let i = reject_unless_iff (is_valid s.load_balancing_strategy) _ in
    let k = is_valid_iff s.load_balancing_strategy in (λ h. k.0 (i.0 h), λ h. i.1 (k.1 h))

unless_nil_iff {ℓ} :
    {P : Type ℓ} (p : Bytes) (rest : Option ConfigError)
    → (rest ≡ none) ↔ P
    → (P → p ≢ [])
    → ((if is_nil p then none else rest) ≡ none) ↔ ((p ≡ []) ⊎ P)
unless_nil_iff [] rest i n = (λ h. inl refl, λ h. refl)
unless_nil_iff (b ∷ p) rest i n =
    (λ h. inr (i.0 h), λ h. elim h [ inl e ↦ absurd (cc) | inr y ↦ i.1 y ])

validate_base_path_iff :
    (s : Service) → (validate_base_path s ≡ none) ↔ ((s.base_path ≡ []) ⊎ IsCleanPath s.base_path)
unfolding validate_base_path
validate_base_path_iff s =
    unless_nil_iff s.base_path _ (base_path_iff s.base_path) (λ h e. let ((q, e'), _) = h in cc)

protocol_iff :
    (s : Service) → (validate_protocol s ≡ none) ↔ Memᴰ s.protocol ("http" ∷ "https" ∷ [])
unfolding validate_protocol
protocol_iff s =
    let i = reject_unless_iff (slice_contains_string available_proxy_protocols s.protocol) _ in
    let k = slice_contains_iff available_proxy_protocols s.protocol in
    (λ h. k.0 (i.0 h), λ h. i.1 (k.1 h))

-- some route is answered from several backends
abbrev pub Aggregates : List Route → Type 0
Aggregates rs = (r : Route) × Memᴰ r rs × (r.backends ≢ [])

-- a URL, an aggregation route or an upstream
abbrev pub HasTarget : Service → Type 0
HasTarget s = (s.url ≢ "") ⊎ Aggregates s.routes ⊎ (s.upstreams ≢ [])

abbrev pub HealthPathIsClean : Service → Type 0
HealthPathIsClean s =
    (s.health.enabled ≡ false) ⊎ (StartsWith slash s.health.path × ¬ (EndsWith slash s.health.path))

has_aggregation_route_iff : (rs : List Route) → (has_aggregation_route rs ≡ true) ↔ Aggregates rs
unfolding has_aggregation_route
has_aggregation_route_iff [] = (λ h. cc, λ h. let (r, m, n) = h in elim m [ ])
has_aggregation_route_iff (r ∷ rs) =
    has_backends r rs r.backends refl (has_aggregation_route_iff rs)
  where
    has_backends :
        (r : Route) (rs : List Route) (bs : List Backend)
        → r.backends ≡ bs
        → (has_aggregation_route rs ≡ true) ↔ Aggregates rs
        → ((if ltb 0 (length bs) then true else has_aggregation_route rs) ≡ true)
          ↔ Aggregates (r ∷ rs)
    has_backends r rs [] e i = (
      λ h. let (r', m, n) = i.0 h in (r', Memᴰ.tail m, n),
      λ h.
          let (r', m, n) = h in
          elim (Memᴰ-cases m) [
            | inl same ↦ absurd (n (ap (λ (x : Route). x.backends) same ∙ e))
            | inr m' ↦ i.1 (r', m', n)
          ],
    )
    has_backends r rs (b ∷ bs) e i = (λ h. (r, Memᴰ.head refl, λ e'. cc), λ h. ground arith)

nonempty_iff {ℓ} :
    {A : Type ℓ} (us : List A) (e : ConfigError) → (reject_if (length us == 0) e ≡ none) ↔ (us ≢ [])
nonempty_iff [] e = (λ h. cc, λ h. absurd (h refl))
nonempty_iff (u ∷ us) e = (λ h e'. cc, λ h. ground arith)

validate_upstream_iff : (s : Service) → (validate_upstream s ≡ none) ↔ HasTarget s
unfolding validate_upstream
validate_upstream_iff s = elim (Bool-cases (str_eq s.url "")) [
  | inr e ↦ simp e (λ h. inl (λ e'. let t = (str_eq_iff s.url "").1 e' in cc), λ h. refl)
  | inl e ↦ elim (Bool-cases (has_aggregation_route s.routes)) [
    | inl a ↦ simp (e, a) (λ h. inr (inl ((has_aggregation_route_iff s.routes).0 a)), λ h. refl)
    | inr a ↦
        simp (e, a)
          (
            λ h. inr (inr (upstreams_iff.0 h)),
            λ h. elim h [
              | inl u ↦ absurd (u ((str_eq_iff s.url "").0 e))
              | inr (inl g) ↦ absurd (let t = (has_aggregation_route_iff s.routes).1 g in cc)
              | inr (inr g) ↦ upstreams_iff.1 g
            ],
          )
  ]
]
  where
    upstreams_iff :
        (reject_if (length s.upstreams == 0) (upstream_missing s.name) ≡ none) ↔ (s.upstreams ≢ [])
    upstreams_iff = nonempty_iff s.upstreams _

starts_nonempty : (p : Bytes) → StartsWith slash p → is_nil p ≡ false
starts_nonempty [] (q, e) = cc
starts_nonempty (b ∷ p) h = refl

health_path_checks_iff :
    (p : Bytes) (missing : ConfigError)
    → (first_of (reject_if (is_nil p) missing) (
          first_of
            (reject_if (not (starts_with_byte slash p)) (path_start p))
            (reject_if (ends_with_byte slash p) (path_end p)))
        ≡ none)
      ↔ (StartsWith slash p × ¬ (EndsWith slash p))
health_path_checks_iff p missing = (
  λ h.
      let (_, rest) = (first_of_iff _ _).0 h in
      let (x, y) = (first_of_iff _ _).0 rest in
      (
        (starts_with_byte_iff slash p).0 ((reject_unless_iff _ _).0 x),
        (not_ends_iff slash p).0 ((reject_if_iff _ _).0 y),
      ),
  λ h. (first_of_iff _ _).1 (
    (reject_if_iff _ _).1 (starts_nonempty p h.0),
    (first_of_iff _ _).1 (
      (reject_unless_iff _ _).1 ((starts_with_byte_iff slash p).1 h.0),
      (reject_if_iff _ _).1 ((not_ends_iff slash p).1 h.1),
    ),
  ),
)

health_path_iff : (s : Service) → (validate_health_check_path s ≡ none) ↔ HealthPathIsClean s
unfolding validate_health_check_path
health_path_iff s = elim (Bool-cases s.health.enabled) [
  | inr e ↦ simp e (λ h. inl refl, λ h. refl)
  | inl e ↦ simp e (
    λ h. inr ((health_path_checks_iff s.health.path _).0 h),
    λ h. elim h [ inl n ↦ absurd cc | inr y ↦ (health_path_checks_iff s.health.path _).1 y ],
  )
]

abbrev pub IsValidService : Service → Type 0
IsValidService s =
    IsKnown s.load_balancing_strategy
    × (((s.base_path ≡ []) ⊎ IsCleanPath s.base_path)
        × (Memᴰ s.protocol ("http" ∷ "https" ∷ []) × (HasTarget s × HealthPathIsClean s)))

-- ValidateService accepts a service exactly when its strategy is known or empty, its base path is
-- empty or clean, its protocol is http or https, it has a URL, an aggregation route or an
-- upstream, and the path of an enabled health check starts with a slash and does not end with one.
pub validate_service_iff : (s : Service) → (validate_service s ≡ none) ↔ IsValidService s
unfolding validate_service
validate_service_iff s = both_iff _ _ (load_balancing_iff s) (
    both_iff _ _ (validate_base_path_iff s)
      (both_iff _ _ (protocol_iff s) (both_iff _ _ (validate_upstream_iff s) (health_path_iff s))))
