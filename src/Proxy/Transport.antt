-- ===== src/Proxy/Transport.antt =====
-- sushi_proxy.go and target_circuit_breaker.go: the requests that the proxy makes, and the RoundTrip
-- that httputil.ReverseProxy calls for them, which puts the breaker of the target around the
-- transport. net/http, ReverseProxy and gobreaker are parameters.
use sushi_gateway.Prelude.{ℕ, String, Bool, true, false, Option, none, some, List, [], ◌∷◌}
use sushi_gateway.Model.{Bytes, Service, UpstreamTarget}
use sushi_gateway.Balancer.{CbState, breaker_key}
use sushi_gateway.Balancer.Breaker.{attempt, on_state_change}
use sushi_gateway.Balancer.Interface.{Shared}
use sushi_gateway.Proxy.Select.{Lookups}

-- net/url's URL, as far as the code reads it
pub record Url : Type 0 where
  pub scheme : String
  pub host : String

-- the request that the Director makes, as far as the code sets it
pub record Outgoing : Type 0 where
  pub url_scheme : String
  pub url_host : String
  pub url_path : Bytes
  pub host : String
  pub x_forwarded_host : String
  pub x_forwarded_for : String

-- proxyError, and what errorCapturingResponseWriter holds after proxy.ServeHTTP; a status of 0 is
-- a response that was never begun
pub record Exchange : Type 0 where
  pub proxy_error : Bool
  pub status_code : ℕ
  pub body : Bytes

-- http.Response, as far as the code reads it
pub record Response : Type 0 where
  pub status_code : ℕ
  pub body : Bytes

pub record World (σ : Type 0) : Type 0 where
  pub balancer : σ
  pub shared : Shared

-- a RoundTrip, with `none` for an error
abbrev pub RoundTrip : Type 0 → Type 0
RoundTrip σ = Outgoing → World σ → Option Response × World σ

-- What code outside this repository does at an attempt, which other requests overlap: url.Parse;
-- whether getTransport gives a transport, and that transport's RoundTrip; gobreaker's decision on
-- the breaker of a key, and the states to which it changes before and after the call, by whether
-- the call succeeded; ReverseProxy.ServeHTTP over a RoundTrip, `none` where it panics, as with
-- http.ErrAbortHandler when the response's body cannot be copied; the clock after it, and the time
-- that the attempt took.
pub record Outside (σ : Type 0) : Type 0 where
  pub lookups : Lookups
  pub parse_url : Bytes → Option Url
  pub transport : ℕ → Bool
  pub base : ℕ → RoundTrip σ
  pub before : ℕ → String → Bool × List CbState
  pub after : ℕ → String → Bool → List CbState
  pub serve : ℕ → RoundTrip σ → Outgoing → World σ → Option Exchange × World σ
  pub now : ℕ → ℕ
  pub duration : ℕ → ℕ

-- the response, unless the function given to Execute fails
accepted_or_error : Option ℕ → Response → Option Response
accepted_or_error none r = none
accepted_or_error (some status) r = some r

unfoldable pub trip_result : Option Response → Option Response
unfolding accepted_or_error attempt
trip_result none = none
trip_result (some r) = accepted_or_error (attempt (some r.status_code)) r

abbrev pub has_succeeded : Option Response → Bool
has_succeeded none = false
has_succeeded (some r) = true

module _ {σ : Type 0} where
  abbrev pub on_shared : (Shared → Shared) → World σ → World σ
  on_shared f w = record w { shared = f w.shared }

  -- OnStateChange for each change of state
  unfoldable pub change_states : Service → UpstreamTarget → List CbState → World σ → World σ
  unfolding on_state_change
  change_states s u [] w = w
  change_states s u (c ∷ cs) w =
      change_states s u cs
        (on_shared (λ sh. record sh { health = on_state_change s u c sh.health }) w)

module _ {σ : Type 0} (env : Outside σ) (s : Service) (u : UpstreamTarget) (a : ℕ) where
  -- cb.Execute, with whether the function is called
  unfoldable pub execute_breaker : Bool → RoundTrip σ
  unfolding trip_result change_states
  execute_breaker false out w = (none, w)
  execute_breaker true out w =
      let (r, w') = env.base a out w in
      let result = trip_result r in
      (result, change_states s u (env.after a (breaker_key s u) (has_succeeded result)) w')

  -- CircuitBreakerTransport.RoundTrip
  unfoldable pub round_trip : RoundTrip σ
  unfolding execute_breaker change_states
  round_trip out w =
      let (lets_through, changes) = env.before a (breaker_key s u) in
      execute_breaker lets_through out (change_states s u changes w)
