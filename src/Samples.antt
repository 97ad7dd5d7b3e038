-- ===== src/Samples.antt =====
-- Values that the tests of several plugins share: integers in the place of a float64, a request.
use sushi_gateway.Prelude.{String, none, [], ◌∷◌, if◌then◌else◌, str_eq}
use sushi_gateway.Prelude.Int.{ℤ, pos, ltb_ℤ}
use sushi_gateway.Prelude.Text.{codes}
use sushi_gateway.Http.{Request}
use sushi_gateway.Balancer.LeastConnections.{Float64}

abbrev pub whole : Float64
whole = record {
  Number = ℤ;
  of_int = λ i. i;
  divide = λ x y. x;
  multiply = λ x y. x;
  tenth = pos 0;
  to_int = λ x. x;
  below = ltb_ℤ;
}

-- a GET request with one header
abbrev pub request_with : String → String → Request
request_with name value = record {
  method = "GET";
  request_uri = "/items?page=2";
  path = codes "/items";
  remote_addr = "10.1.1.1:4000";
  host = "shop";
  header = λ k. if str_eq k name then value ∷ [] else [];
  transfer_encoding = [];
  cookie = λ k. none;
  query_arg = λ k. "";
  consumer_id = none;
}
