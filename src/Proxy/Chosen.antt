-- ===== src/Proxy/Chosen.antt =====
-- sushi_proxy.go: where the upstream comes from that selectUpstreamWithRetry returns.
use sushi_gateway.Prelude.{
  ℕ, String, ◌≡◌, ◌≢◌, refl, inl, inr, false, Option, none, some, List, [], ◌∷◌, str_eq, Bool-cases,
  get_elem?,
}
use sushi_gateway.Model.{Bytes, Service, Route, UpstreamTarget, ProxyConfig}
use sushi_gateway.Http.{Request, Cookie}
use sushi_gateway.Balancer.{contains}
use sushi_gateway.Balancer.Interface.{Shared, LoadBalancer, SomeLeft, Excludes}
use sushi_gateway.Proxy.Select.{
  Lookups, chosen, at_index, conclude, next_index, balance, direct_or_balance, discovered, discover,
  select_upstream_with_retry,
}

module _ {σ : Type 0} (lb : LoadBalancer σ) (env : Lookups) (config : Option ProxyConfig)
    (s : Service) (route : Option Route) (req : Request) where
  -- the balancer chose the index of this upstream
  abbrev pub ChosenAt : σ → Shared → List String → UpstreamTarget → Type 0
  ChosenAt b sh failed u =
      (i : ℕ) × ((next_index lb env config s route req b sh failed).0.0 ≡ some i)
      × (get_elem? s.upstreams i ≡ some u)

  conclude-chosen :
      (c : Option Cookie) (o : Option ℕ) (u : UpstreamTarget) (url : Bytes) (cookie : Option Cookie)
      → conclude lb env config s route req c o ≡ some (chosen (some u) url cookie)
      → (i : ℕ) × (o ≡ some i) × (get_elem? s.upstreams i ≡ some u)
  unfolding conclude at_index
  conclude-chosen c none u url cookie e = cc
  conclude-chosen c (some i) u url cookie e = (i, refl, at_upstream (get_elem? s.upstreams i) e)
    where
      at_upstream :
          (o : Option UpstreamTarget)
          → at_index lb env config s route req c o ≡ some (chosen (some u) url cookie)
          → o ≡ some u
      at_upstream none h = cc
      at_upstream (some v) h = cc

  direct_or_balance-chosen :
      (b : σ) (sh : Shared) (failed : List String) (u : UpstreamTarget) (url : Bytes)
      (cookie : Option Cookie)
      → (direct_or_balance lb env config s route req b sh failed).0
        ≡ some (chosen (some u) url cookie)
      → ChosenAt b sh failed u
  unfolding direct_or_balance balance
  direct_or_balance-chosen b sh failed u url cookie e = elim (Bool-cases (str_eq s.url "")) [
    | inl t ↦ conclude-chosen _ _ u url cookie (rw t at e)
    | inr t ↦ let bad = rw t at e in cc
  ]

  -- An upstream that is not nil is one that the balancer chose.
  pub select_upstream_with_retry-chosen :
      (b : σ) (sh : Shared) (failed : List String) (u : UpstreamTarget) (url : Bytes)
      (cookie : Option Cookie)
      → (select_upstream_with_retry lb env config s route req b sh failed).0
        ≡ some (chosen (some u) url cookie)
      → ChosenAt b sh failed u
  unfolding select_upstream_with_retry discover discovered
  select_upstream_with_retry-chosen b sh failed u url cookie e =
      elim (Bool-cases (str_eq s.service_name "")) [
        | inl t ↦ direct_or_balance-chosen b sh failed u url cookie (rw t at e)
        | inr t ↦ by_registry env.registry (rw t at e)
      ]
    where
      by_url :
          (o : Option Bytes)
          → some (discovered lb env config s route req o) ≡ some (chosen (some u) url cookie)
          → ChosenAt b sh failed u
      by_url none h = cc
      by_url (some direct_url) h = cc

      by_registry :
          (r : Option (String → Option Bytes))
          → (discover lb env config s route req r b sh failed).0 ≡ some (chosen (some u) url cookie)
          → ChosenAt b sh failed u
      by_registry none h = direct_or_balance-chosen b sh failed u url cookie h
      by_registry (some registry) h = by_url (registry s.service_name) h

  -- A retry goes to none of the failed upstreams while another is left.
  pub ChosenAt-not_failed :
      (b : σ) (sh : Shared) (failed : List String) (u : UpstreamTarget)
      → Excludes lb
      → failed ≢ []
      → SomeLeft failed s.upstreams
      → ChosenAt b sh failed u
      → contains failed u.id ≡ false
  unfolding next_index
  ChosenAt-not_failed b sh [] u law n left c = absurd (n refl)
  ChosenAt-not_failed b sh (f ∷ failed) u law n left (i, e, at) =
      law b sh s _ (f ∷ failed) _ i u n left e at
