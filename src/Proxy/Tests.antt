-- ===== src/Proxy/Tests.antt =====
-- sushi_proxy.go: the theorems for a service of two upstreams, of which the first fails.
use sushi_gateway.Prelude.{
  ℕ, String, refl, ◌≤◌, true, false, Option, none, some, List, [], ◌∷◌, ◌+◌, if◌then◌else◌, arith,
  length, str_eq,
}
use sushi_gateway.Prelude.Int.{ℤ, pos}
use sushi_gateway.Prelude.Text.{codes, bytes_eq}
use sushi_gateway.Prelude.Dict.{empty}
use sushi_gateway.Model.{Service, UpstreamTarget, round_robin}
use sushi_gateway.Http.{Request}
use sushi_gateway.Balancer.{CbState, closed, open_state}
use sushi_gateway.Balancer.Connections.{get_active_connections, count_in}
use sushi_gateway.Balancer.RoundRobin.{Cursors, handle_round_robin}
use sushi_gateway.Balancer.Interface.{Shared, LoadBalancer}
use sushi_gateway.Balancer.Dispatch.{Handlers, load_balancer}
use sushi_gateway.Balancer.Retrying.{
  round_robin_excluding, round_robin_excluding-AvoidsFailed, load_balancer-Excludes,
}
use sushi_gateway.Proxy.Transport.{Outgoing, Exchange, Response, World, Outside, RoundTrip}
use sushi_gateway.Proxy.Pass.{handle_proxy_pass}
use sushi_gateway.Proxy.Steps.{sent_ids}
use sushi_gateway.Proxy.Attempts.{
  OneResponse, handle_proxy_pass-attempts, handle_proxy_pass-OneResponse,
}
use sushi_gateway.Proxy.Trips.{counts}
use sushi_gateway.Proxy.Accounts.{Accounted, handle_proxy_pass-Accounted}
use sushi_gateway.Proxy.Fresh.{FreshPass, handle_proxy_pass-Fresh}
use sushi_gateway.Proxy.Forwarded.{SentTo, handle_proxy_pass-SentTo}

abbrev first : UpstreamTarget
first = record { id = "u1"; target = "10.0.0.1:80"; weight = pos 1; tags = [] }

abbrev second : UpstreamTarget
second = record { id = "u2"; target = "10.0.0.2:80"; weight = pos 2; tags = [] }

abbrev with_retries : ℤ → Service
with_retries n = record {
  name = "carts";
  host = "";
  url = "";
  service_name = "";
  protocol = "http";
  base_path = codes "/carts";
  load_balancing_strategy = round_robin;
  upstreams = first ∷ second ∷ [];
  plugins = [];
  routes = [];
  health = record { enabled = false; path = [] };
  retry_options = record { max_retries = n; retry_interval_ms = pos 50 };
  upstream_health_checks = none;
}

abbrev carts : Service
carts = with_retries (pos 2)

abbrev order : Request
order = record {
  method = "GET";
  request_uri = "/carts/7";
  path = codes "/carts/7";
  remote_addr = "10.1.1.1:4000";
  host = "shop";
  header = λ name. [];
  transfer_encoding = [];
  cookie = λ name. none;
  query_arg = λ name. "";
  consumer_id = none;
}

abbrev breakers : String → CbState
breakers key = closed

abbrev rotating : Cursors → Shared → Service → List String → Option ℕ × Cursors
rotating rr sh s tags =
    handle_round_robin (record { health = sh.health; breakers = breakers }) rr s tags

abbrev handlers : Handlers Cursors
handlers = record {
  handle_round_robin = rotating;
  handle_weighted = rotating;
  handle_ip_hash = λ rr sh s key tags. rotating rr sh s tags;
  handle_least_connections = rotating;
  handle_latency = rotating;
  handle_round_robin_excluding = round_robin_excluding breakers;
  handle_least_connections_excluding = round_robin_excluding breakers;
  handle_latency_excluding = round_robin_excluding breakers;
  record_latency = λ name id d rr. rr;
  generate_session_id = λ rr. ("session", rr);
}

abbrev host_of : String → Option String
host_of address = some "10.1.1.1"

abbrev balancer : LoadBalancer Cursors
balancer = load_balancer handlers host_of (λ path. "path")

-- the upstream at 10.0.0.1:80 answers 500, the other 200
abbrev respond : Outgoing → Response
respond out = record {
  status_code = if str_eq out.url_host "10.0.0.1:80" then 500 else 200;
  body = codes "ok";
}

-- the error handler is called for an error of the transport
abbrev exchange_of : Option Response → Exchange
exchange_of none = record { proxy_error = true; status_code = 200; body = [] }
exchange_of (some r) = record { proxy_error = false; status_code = r.status_code; body = r.body }

abbrev exchange_over :
    RoundTrip Cursors → Outgoing → World Cursors → Option Exchange × World Cursors
exchange_over trip out w = let (r, w') = trip out w in (some (exchange_of r), w')

abbrev outside : Outside Cursors
outside = record {
  lookups = record { registry = none; split_host_port = host_of; clean = λ path. path };
  parse_url = λ url. some (record {
    scheme = "http";
    host =
        if bytes_eq url (codes "http://10.0.0.1:80/carts/7") then "10.0.0.1:80" else "10.0.0.2:80";
  });
  transport = λ a. true;
  base = λ a out w. (some (respond out), w);
  before = λ a key. (true, []);
  after = λ a key ok. if ok then [] else open_state ∷ [];
  serve = λ a trip. exchange_over trip;
  now = λ a. 1000 + a;
  duration = λ a. 30;
}

abbrev at_start : World Cursors
at_start = record { balancer = empty; shared = record { connections = empty; health = empty } }

handle_proxy_pass-attempts_example :
    length (sent_ids (handle_proxy_pass balancer outside none carts none order at_start).1.log) ≤ 3
handle_proxy_pass-attempts_example =
    handle_proxy_pass-attempts balancer outside none carts none order at_start 2 refl

handle_proxy_pass-OneResponse_example :
    OneResponse balancer outside none carts none order
      (handle_proxy_pass balancer outside none carts none order at_start)
handle_proxy_pass-OneResponse_example =
    handle_proxy_pass-OneResponse balancer outside none carts none order at_start 2 refl

handle_proxy_pass-Accounted_example :
    let st = (handle_proxy_pass balancer outside none carts none order at_start).1 in
    Accounted carts st.log (counts st.world) (counts at_start)
unfolding get_active_connections count_in
handle_proxy_pass-Accounted_example =
    handle_proxy_pass-Accounted balancer outside none carts none order at_start (λ s u. omega arith)
      (record { base = λ a out w s u. refl; serve = λ a trip h out w. h out w })

handle_proxy_pass-Fresh_example :
    FreshPass balancer outside none carts none order
      (load_balancer-Excludes handlers host_of
        (λ path. "path")
        (round_robin_excluding-AvoidsFailed breakers)
        (round_robin_excluding-AvoidsFailed breakers)
        (round_robin_excluding-AvoidsFailed breakers))
      (handle_proxy_pass balancer outside none carts none order at_start).1
handle_proxy_pass-Fresh_example =
    handle_proxy_pass-Fresh balancer outside none carts none order
      (load_balancer-Excludes handlers host_of (λ path. "path")
        (round_robin_excluding-AvoidsFailed breakers) (round_robin_excluding-AvoidsFailed breakers)
        (round_robin_excluding-AvoidsFailed breakers))
      at_start

handle_proxy_pass-SentTo_example :
    SentTo
      (codes "/carts")
      (codes "/carts/7")
      (handle_proxy_pass balancer outside none carts none order at_start).1.log
handle_proxy_pass-SentTo_example =
    handle_proxy_pass-SentTo balancer outside none carts none order at_start
