-- ===== src/Lib.antt =====
-- A model of the proxy core of the Sushi gateway (sushi-proxy/internal).
--
-- A request is routed to a service and one of its routes, passes the route's chain of plugins, and
-- is sent to an upstream that the load balancer picks among those whose health and circuit breaker
-- let it be used; a failed upstream is remembered and left out at a retry. The configuration is
-- validated before it is served, and a shutdown waits for the requests in flight.
--
-- Model        model/entities.go, model/load_balancing.go: the configuration's data, with the fields
--              that the modelled code reads. Text that is walked byte by byte (paths) is a list of
--              bytes.
-- Validator    gateway/proxy_config_validator.go, service_validator.go, route_validator.go,
--              plugin_validator.go: ValidateConfig with generateEntityIDs (Validator/Ids). The ids
--              that crypto/rand gives and what each plugin's own validator says are parameters.
-- Routing      util/request.go: GetServiceAndRouteFromRequest, MatchRoute, matchDynamicRoute. The
--              order in which Go walks a map of headers does not matter to the match.
-- Plugins      gateway/plugin_manager.go: the chain of a route (Plugins/Turns: who comes before whom).
--              sort.Slice is a parameter over the code's less function: some permutation of the
--              slice in its order. What a plugin does is a parameter.
-- Health       gateway/health.go: the map of health states; active checks (Health/Active), whose
--              HTTP probe is a parameter, and passive ones. A method holds the mutex, so a call is
--              one step. Counters are bit patterns of 64 bits.
-- Http         the request of net/http as far as it is read, and model/errors.go.
-- Balancer     gateway/load_balancer.go: which upstreams are eligible, round robin
--              (Balancer/RoundRobin), smooth weighted round robin (Balancer/Weighted), the active
--              connections (Balancer/Connections), the power of two choices
--              (Balancer/LeastConnections), the linear scan (Balancer/Scan), IP hash with bounded
--              load (Balancer/IpHash), and the dispatch among the algorithms (Balancer/Dispatch, over
--              `Handlers`), which fills the interface that the proxy uses (Balancer/Interface).
--              gateway/latency_balancer.go (Balancer/Latency), consistent_hash.go (Balancer/Maglev)
--              and hash_extractor.go (Balancer/HashExtractor). A float64, the hash of xxhash and
--              random draws are parameters. gateway/target_circuit_breaker.go (Balancer/Breaker):
--              the settings given to gobreaker, whose own state machine is a parameter.
-- Proxy        gateway/sushi_proxy.go: HandleProxyPass (Proxy/Pass) with the selection of the
--              upstream (Proxy/Select), its paths (Proxy/Path) and the checks of headers
--              (Proxy/Framing), and the RoundTrip with the breaker of target_circuit_breaker.go
--              (Proxy/Transport). The reverse proxy, which may panic and which other requests run
--              beside, url.Parse, gobreaker and the base transport are parameters; what an attempt
--              does that can be seen is a log of events.
-- Retry        gateway/retry_handle.go: the failed upstreams of a request.
-- Acl          gateway/acl.go: the access control plugin, with the panics of its type assertions.
-- RateLimit    gateway/rate_limit.go: the windows per second, minute and hour; Redis is a parameter.
-- Auth         gateway/basic_auth.go, key_auth.go, jwt.go, multi_auth.go and rbac.go, one module each:
--              whether a request goes on, as whom, and with which headers. base64, golang-jwt and
--              casbin are parameters.
-- Bots         gateway/bot_protection.go.
-- Cache        gateway/cache.go: lookup, recording and replay of a response. Redis and encoding/json
--              are parameters; a handler is given by its calls on the writer (Http/Response). The
--              goroutine that stores a response is a job that is run later.
-- ServiceBreaker gateway/circuit_breaker.go: the breaker of a service around the next handler;
--              gobreaker is a parameter.
-- HeaderTransformation gateway/header_transformation.go; Go's text functions are parameters.
-- Cors         gateway/cors.go.
-- Drain        gateway/drain.go: ConnectionTracker, as a step relation between the atomic operations
--              of any number of requests and of the shutdown.
-- Prelude      what the modules share: Boolean tests, lists, integers, texts, maps. Samples: values of
--              the tests.
--
-- Bounds: an int or int64 counter has 64 bits and wraps around; a theorem that needs it small says
-- so. A time is a number of nanoseconds. Every loop is over a list or a count, but for two: the redraw
-- of the power of two choices is over the list of draws, and its theorem shows that it ends where some
-- draw differs from the first; the loop that fills the Maglev table has as many rounds as the table
-- has slots, and each round that does not end the loop fills one at least. The power in the backoff
-- of a retry is exact up to 2^62, beyond which Go leaves the conversion to the implementation.
--
-- Not modelled: the Ketama ring, which nothing uses; the heap of least connections; the router and
-- the chain of handlers that sushi_proxy.go builds, and its cache of transports; the plugins mtls, waf,
-- aggregation, shadow-traffic, http-log, request-size-limiting and request-termination; the Validate of
-- jwt; metrics and log lines everywhere; the stores, the admin API, telemetry and discovery.
pub mod Prelude
pub mod Model
pub mod Validator
pub mod Routing
pub mod Plugins
pub mod Health
pub mod Balancer
pub mod Retry
pub mod Http
pub mod Proxy
pub mod Acl
pub mod RateLimit
pub mod Auth
pub mod Bots
pub mod Cache
pub mod ServiceBreaker
pub mod HeaderTransformation
pub mod Cors
pub mod Drain
pub mod Samples
