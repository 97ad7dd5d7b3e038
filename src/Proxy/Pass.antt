-- ===== src/Proxy/Pass.antt =====
-- sushi_proxy.go: HandleProxyPass. Each pass of the loop is `attempt`; what it does that can be
-- seen is kept in `log`, the newest first. Metrics and log lines are left out.
use sushi_gateway.Prelude.{
  ℕ, zero, suc, String, Bool, true, false, ◌&&◌, not, Option, none, some, List, [], ◌∷◌, ◌*◌, ◌^◌,
  ◌%◌, ◌-◌, if◌then◌else◌, ltb,
}
use sushi_gateway.Prelude.Int.{ℤ, pos, negsuc, int_mod, signed, leb_ℤ, pos_part}
use sushi_gateway.Prelude.Dict.{or_default}
use sushi_gateway.Model.{Bytes, Service, Route, UpstreamTarget, ProxyConfig}
use sushi_gateway.Http.{Request, HttpError, Cookie, get}
use sushi_gateway.Health.{record_passive_result}
use sushi_gateway.Retry.{
  RetryHandle, new_retry_handle, mark_failed, increment_retry, get_failed_upstreams,
}
use sushi_gateway.Balancer.Connections.{increment, decrement}
use sushi_gateway.Balancer.Interface.{LoadBalancer}
use sushi_gateway.Proxy.Framing.{sanitize_value}
use sushi_gateway.Proxy.Path.{director_path}
use sushi_gateway.Proxy.Transport.{Url, Outgoing, Exchange, World, on_shared, Outside, round_trip}
use sushi_gateway.Proxy.Select.{Selected, refused, chosen, select_upstream_with_retry}

pub data Event : Type 0 where
  -- time.Sleep, in nanoseconds
  slept : ℤ → Event
  cookie_set : Cookie → Event
  -- the request of an attempt to an upstream, by its id, and what came back; `none` where ServeHTTP
  -- panicked
  sent : ℕ → String → Outgoing → Option Exchange → Event
  -- the buffered response is written to the client
  wrote : ℕ → Bytes → Event

-- what the function returns, nil or an error, or that it panics
pub data Outcome : Type 0 where
  returned_nil panicked : Outcome
  failed : HttpError → Outcome

pub record Pass (σ : Type 0) : Type 0 where
  pub handle : RetryHandle
  pub world : World σ
  pub log : List Event

abbrev retry_interval : Service → ℤ
retry_interval s =
    if leb_ℤ s.retry_options.retry_interval_ms (pos 0)
    then pos 100
    else s.retry_options.retry_interval_ms

-- time.Duration(interval * 2^(attempt-1)) * time.Millisecond, where 2^(attempt-1) is an int
unfoldable pub backoff_duration : Service → ℕ → ℤ
backoff_duration s a = signed (pos_part (retry_interval s) * 2 ^ (a - 1) * 1000000 % int_mod)

abbrev pub is_success : Exchange → Bool
is_success x = not x.proxy_error && ltb x.status_code 500

abbrev preserve_host : Option Route → Bool
preserve_host none = false
preserve_host (some r) = or_default r.preserve_host false

-- proxy.Director
unfoldable pub direct : Service → Option Route → Request → Url → Outgoing
direct s route req target = record {
  url_scheme = target.scheme;
  url_host = target.host;
  url_path = director_path s.base_path req.path;
  host = if preserve_host route then req.host else target.host;
  x_forwarded_host = sanitize_value (get req "Host");
  x_forwarded_for = sanitize_value req.remote_addr;
}

abbrev pub upstream_error : HttpError
upstream_error = record { http_code = 502; code = "UPSTREAM_ERROR" }

abbrev url_error : HttpError
url_error = record { http_code = 500; code = "ERROR_PARSING_PROXY_URL" }

abbrev transport_error : HttpError
transport_error = record { http_code = 500; code = "INTERNAL_SERVER_ERROR" }

-- the loop is left, or goes on with lasErr
pub data Next : Type 0 where
  leave : Outcome → Next
  go_on : HttpError → Next

-- for attempt := 0; attempt <= maxRetries; attempt++
abbrev pub attempts_allowed : ℤ → ℕ
attempts_allowed (pos n) = suc n
attempts_allowed (negsuc n) = 0

module _ {σ : Type 0} where
  abbrev pub note : Event → Pass σ → Pass σ
  note e st = record st { log = e ∷ st.log }

  abbrev pub note_cookie : Option Cookie → Pass σ → Pass σ
  note_cookie none st = st
  note_cookie (some c) st = note (cookie_set c) st

  abbrev pub with_balancer : σ → Pass σ → Pass σ
  with_balancer b st = record st { world = record { balancer = b; shared = st.world.shared } }

  unfoldable pub back_off : Service → ℕ → Pass σ → Pass σ
  back_off s zero st = st
  back_off s (suc a) st =
      note (slept (backoff_duration s (suc a))) (record st { handle = increment_retry st.handle })

  -- IncrementActiveConnections, DecrementActiveConnections and RecordPassiveResult on the maps
  unfoldable pub starts : Service → UpstreamTarget → World σ → World σ
  starts s u = on_shared (λ sh. record sh { connections = increment s.name u.id sh.connections })

  unfoldable pub ends : Service → UpstreamTarget → World σ → World σ
  ends s u = on_shared (λ sh. record sh { connections = decrement s.name u.id sh.connections })

  unfoldable pub passive : Service → UpstreamTarget → Exchange → ℕ → World σ → World σ
  passive s u x now =
      on_shared
        (λ sh. record sh { health = record_passive_result s u.id (is_success x) now sh.health })

module _ {σ : Type 0} (lb : LoadBalancer σ) (env : Outside σ) (config : Option ProxyConfig)
    (s : Service) (route : Option Route) (req : Request) where
  -- the end of an attempt, after the passive result is recorded
  unfoldable pub settle : ℕ → UpstreamTarget → Exchange → Bool → Pass σ → Next × Pass σ
  settle a u x true st = (
    leave returned_nil,
    note (wrote x.status_code x.body)
        (with_balancer (lb.record_latency s.name u.id (env.duration a) st.world.balancer) st),
  )
  settle a u x false st = (go_on upstream_error, record st { handle = mark_failed u.id st.handle })

  -- what follows proxy.ServeHTTP; nothing does if it panics, since no call is deferred
  unfoldable pub judge :
      ℕ → UpstreamTarget → Outgoing → Option Exchange → World σ → Pass σ → Next × Pass σ
  unfolding settle
  judge a u out none w st = (leave panicked, note (sent a u.id out none) (record st { world = w }))
  judge a u out (some x) w st = settle a u x (is_success x) (
      note (sent a u.id out (some x))
        (record st { world = passive s u x (env.now a) (ends s u w) }))

  -- proxy.ServeHTTP, over the transport with the circuit breaker, and what follows it
  unfoldable pub exchange : ℕ → UpstreamTarget → Url → Pass σ → Next × Pass σ
  unfolding judge
  exchange a u target st =
      let out = direct s route req target in
      let (r, w) = env.serve a (round_trip env s u a) out st.world in judge a u out r w st

  unfoldable pub transported : ℕ → UpstreamTarget → Url → Bool → Pass σ → Next × Pass σ
  unfolding exchange
  transported a u target false st =
      (leave (failed transport_error), record st { world = ends s u st.world })
  transported a u target true st = exchange a u target st

  -- from IncrementActiveConnections on; a nil upstream is dereferenced once there is a transport
  unfoldable pub forward : ℕ → Option UpstreamTarget → Option Url → Pass σ → Next × Pass σ
  unfolding transported
  forward a u none st = (leave (failed url_error), st)
  forward a none (some target) st =
      (leave (if env.transport a then panicked else failed transport_error), st)
  forward a (some u) (some target) st =
      transported a u target (env.transport a) (record st { world = starts s u st.world })

  unfoldable pub after_select : ℕ → Option Selected → Pass σ → Next × Pass σ
  unfolding forward
  after_select a none st = (leave panicked, st)
  after_select a (some (refused e)) st = (leave (failed e), st)
  after_select a (some (chosen u url cookie)) st =
      forward a u (env.parse_url url) (note_cookie cookie st)

  unfoldable pub attempt : ℕ → Pass σ → Next × Pass σ
  unfolding after_select back_off
  attempt a st =
      let st' = back_off s a st in
      let (selected, b) =
        select_upstream_with_retry lb env.lookups config s route req st'.world.balancer
          st'.world.shared (get_failed_upstreams st'.handle) in
      after_select a selected (with_balancer b st')

  abbrev pub last_error : Option HttpError → Outcome
  last_error none = returned_nil
  last_error (some e) = failed e

  -- the rest of the loop runs only if the attempt does not leave it
  unfoldable pub proceed :
      (HttpError → Pass σ → Outcome × Pass σ) → Next × Pass σ → Outcome × Pass σ
  proceed rest (leave outcome, st) = (outcome, st)
  proceed rest (go_on e, st) = rest e st

  -- the loop: `k` attempts are left, and `a` is the next one
  unfoldable pub run : ℕ → ℕ → Option HttpError → Pass σ → Outcome × Pass σ
  unfolding proceed attempt
  run zero a last st = (last_error last, st)
  run (suc k) a last st = proceed (λ e. run k (suc a) (some e)) (attempt a st)

  abbrev pub first_pass : World σ → Pass σ
  first_pass w = record { handle = new_retry_handle s.name; world = w; log = [] }

  unfoldable pub handle_proxy_pass : World σ → Outcome × Pass σ
  unfolding run
  handle_proxy_pass w = run (attempts_allowed s.retry_options.max_retries) 0 none (first_pass w)
