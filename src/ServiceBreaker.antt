-- ===== src/ServiceBreaker.antt =====
-- circuit_breaker.go: the plugin that puts a gobreaker around the next handler, one for each
-- service name. gobreaker is a parameter: NewCircuitBreaker with the settings that the code gives,
-- and the two halves of Execute, before and after the call of the function.
pub mod Segments
pub mod Answers
mod Tests
use sushi_gateway.Prelude.{
  ℕ, String, ◌+◌, ◌-◌, ◌%◌, ◌<◌, Bool, true, false, not, ◌&&◌, Option, none, some, List, [], ◌∷◌,
  ◌++◌, if◌then◌else◌, ◌==◌, ltb, leb, length, ◌>>=◌,
}
use sushi_gateway.Prelude.Int.{ℤ, pos, pos_part, neg_part, seconds}
use sushi_gateway.Prelude.Text.{codes, bytes_eq}
use sushi_gateway.Model.{Bytes}
use sushi_gateway.Http.{Request}
use sushi_gateway.Http.Response.{
  Headers, Writer, write_header, write, Call, change, call_write_header, call_write,
}
use sushi_gateway.Balancer.LeastConnections.{Float64}

-- the two slices of splitPath: `part` is path[start:i]
abbrev pub add_part : Bytes → List Bytes → List Bytes
add_part [] parts = parts
add_part (b ∷ part) parts = (b ∷ part) ∷ parts

unfoldable pub split_from : Bytes → Bytes → List Bytes
split_from part [] = add_part part []
split_from part (b ∷ s) =
    if b == b'/' then add_part part (split_from [] s) else split_from (part ++ b ∷ []) s

abbrev pub after_slash : Bytes → Bytes
after_slash [] = []
after_slash (b ∷ s) = if b == b'/' then s else b ∷ s

-- splitPath
unfoldable pub split_path : Bytes → List Bytes
split_path path = split_from [] (after_slash path)

abbrev first_or : Bytes → List Bytes → Bytes
first_or d [] = d
first_or d (p ∷ ps) = p

-- getServiceNameFromRequest, with the text of the context's key service_name: in this repository
-- nothing sets it
unfoldable pub get_service_name_from_request : Option String → Request → Bytes
unfolding split_path
get_service_name_from_request (some name) req = codes name
get_service_name_from_request none req =
    if ltb 1 (length req.path)
    then first_or (codes "default") (split_path req.path)
    else codes "default"

-- isFailureStatus
unfoldable pub is_failure_status : ℕ → Bool
is_failure_status code = leb 500 code && leb code 599

abbrev uint32_mod : ℕ
uint32_mod = 4294967296

-- uint32(i)
abbrev pub uint32 : ℤ → ℕ
uint32 z = (pos_part z + (uint32_mod - neg_part z % uint32_mod)) % uint32_mod

-- responseRecorder
pub record Recorder : Type 0 where
  pub headers : Headers
  pub body : Bytes
  pub status_code : ℕ

abbrev pub new_recorder : Recorder
new_recorder = record { headers = λ k. []; body = []; status_code = 200 }

unfoldable pub record_call : Call → Recorder → Recorder
record_call (change f) r = record r { headers = f r.headers }
record_call (call_write_header n) r = record r { status_code = n }
record_call (call_write b) r = record r { body = r.body ++ b }

unfoldable pub record_calls : List Call → Recorder → Recorder
record_calls [] r = r
record_calls (c ∷ cs) r = record_calls cs (record_call c r)

-- the copy of the buffered response, whose headers are added to those that are there
unfoldable pub send_recorded : Recorder → Writer → Writer
unfolding write write_header
send_recorded r w =
    write r.body (write_header r.status_code (record w { header = λ k. w.header k ++ r.headers k }))

-- model.NewHttpError(503, ...).WriteJSONResponse, with the bytes of its body
unfoldable pub send_unavailable : Bytes → Writer → Writer
unfolding write write_header
send_unavailable json w = write json (write_header 503 w)

pub record Gobreaker : Type 1 where
  pub Breaker : Type 0
  -- the name, MaxRequests, Timeout in nanoseconds, and the number in ReadyToTrip
  pub new_breaker : Bytes → ℕ → ℤ → ℕ → Breaker
  -- whether the function is called, at a time
  pub before : ℕ → Breaker → Bool × Breaker
  pub after : Bool → ℕ → Breaker → Breaker

module _ (F : Float64) where
  pub record CircuitBreakerPlugin : Type 0 where
    pub failure_threshold : Option F.Number
    pub timeout : Option F.Number
    pub success_threshold : Option F.Number

  abbrev at_least_1 : F.Number → Bool
  at_least_1 x = not (F.below x (F.of_int (pos 1)))

  abbrev required : Option F.Number → Bool
  required none = false
  required (some x) = at_least_1 x

  abbrev optional : Option F.Number → Bool
  optional none = true
  optional (some x) = at_least_1 x

  -- Validate
  unfoldable pub is_valid : CircuitBreakerPlugin → Bool
  is_valid p =
      if required p.failure_threshold
      then if required p.timeout then optional p.success_threshold else false
      else false

  abbrev int_or_1 : Option F.Number → ℤ
  int_or_1 none = pos 1
  int_or_1 (some x) = F.to_int x

  -- getConfig: the two thresholds and the timeout; `none` is the panic of a type assertion
  unfoldable pub get_config : CircuitBreakerPlugin → Option (ℤ × ℤ × ℤ)
  get_config p = do
    failures ← p.failure_threshold
    t ← p.timeout
    some (F.to_int failures, int_or_1 p.success_threshold, seconds (F.to_int t))

  module _ (G : Gobreaker) where
    abbrev pub Breakers : Type 0
    Breakers = Bytes → Option G.Breaker

    abbrev pub store : Bytes → G.Breaker → Breakers → Breakers
    store name b bs k = if bytes_eq k name then some b else bs k

    unfoldable pub create : Bytes → ℤ × ℤ × ℤ → Breakers → Option G.Breaker → G.Breaker × Breakers
    create name (failures, successes, t) bs (some b) = (b, bs)
    create name (failures, successes, t) bs none =
        let b = G.new_breaker name (uint32 successes) t (uint32 failures) in (b, store name b bs)

    -- getOrCreateCircuitBreaker
    unfoldable pub get_or_create_circuit_breaker :
        Bytes → ℤ × ℤ × ℤ → Breakers → G.Breaker × Breakers
    get_or_create_circuit_breaker name c bs = create name c bs (bs name)

    -- the call of the next handler and what its status tells the breaker
    unfoldable pub answer :
        (Request → List Call)
        → Request
        → Bytes
        → Bytes
        → ℕ
        → Breakers
        → Writer
        → Bool × G.Breaker
        → Writer × Breakers
    answer next req json name now bs w (false, b) = (send_unavailable json w, store name b bs)
    answer next req json name now bs w (true, b) =
        let r = record_calls (next req) new_recorder in
        (send_recorded r w, store name (G.after (not (is_failure_status r.status_code)) now b) bs)

    -- Execute, at the times before and after the next handler; `json` is the body of the refusal
    unfoldable pub execute :
        CircuitBreakerPlugin
        → Option String
        → (Request → List Call)
        → Request
        → Bytes
        → ℕ
        → ℕ
        → Breakers
        → Writer
        → Option (Writer × Breakers)
    execute p context next req json now now2 bs w = do
      c ← get_config p
      let name = get_service_name_from_request context req
      let (b, bs1) = get_or_create_circuit_breaker name c bs
      some (answer next req json name now2 bs1 w (G.before now b))
