-- ===== src/ServiceBreaker/Tests.antt =====
-- circuit_breaker.go: the theorems with a breaker that counts failures in a row, up to 3.
use sushi_gateway.Prelude.{ℕ, ◌≡◌, refl, ◌+◌, none, some, List, [], ◌∷◌, if◌then◌else◌, ltb, keep}
use sushi_gateway.Prelude.Int.{ℤ, pos, seconds}
use sushi_gateway.Prelude.Text.{codes, split}
use sushi_gateway.Http.{Request}
use sushi_gateway.Http.Response.{Headers, Call, answer_calls, set}
use sushi_gateway.ServiceBreaker.{Gobreaker, CircuitBreakerPlugin, Breakers, split_path, split_from}
use sushi_gateway.ServiceBreaker.Segments.{not_empty, split_path_lem}
use sushi_gateway.Samples.{whole, request_with}

abbrev counting : Gobreaker
counting = record {
  Breaker = ℕ;
  new_breaker = λ name most t threshold. 0;
  before = λ now b. (ltb b 3, b);
  after = λ ok now b. if ok then 0 else b + 1;
}

abbrev none_yet : Breakers whole counting
none_yet name = none

abbrev plugin : CircuitBreakerPlugin whole
plugin = record {
  failure_threshold = some (pos 3);
  timeout = some (pos 30);
  success_threshold = none;
}

abbrev tagged : Headers → Headers
tagged hs = set "Etag" "v1" hs

-- an upstream that fails
abbrev failing : Request → List Call
failing req = answer_calls tagged 502 (codes "no" ∷ [])

abbrev item : Request
item = request_with "Accept" "text/html"

abbrev config : ℤ × ℤ × ℤ
config = (pos 3, pos 1, seconds (pos 30))

split_path_lem_example :
    split_path (codes "/api//items/") ≡ keep not_empty (split b'/' (codes "/api//items/"))
split_path_lem_example = split_path_lem (codes "/api//items/")

segments : split_path (codes "/api//items/") ≡ codes "api" ∷ codes "items" ∷ []
unfolding split_path split_from
segments = refl

-- the router has set a Content-Type
abbrev before : Headers
before = set "Content-Type" "application/json; charset=UTF-8" (λ k. [])
