-- ===== src/Http/Response.antt =====
-- net/http's ResponseWriter, as the handlers use it: what a handler does to a response is the list
-- of its calls.
use sushi_gateway.Prelude.{
  ℕ, String, Option, none, some, List, [], ◌∷◌, ◌++◌, map, if◌then◌else◌, str_eq,
}
use sushi_gateway.Model.{Bytes}

abbrev pub Headers : Type 0
Headers = String → List String

abbrev pub set : String → String → Headers → Headers
set name v hs k = if str_eq k name then v ∷ [] else hs k

-- http.ResponseWriter: its header map, the status and the headers that were sent, and the body
pub record Writer : Type 0 where
  pub header : Headers
  pub sent : Option (ℕ × Headers)
  pub body : Bytes

abbrev send : Option (ℕ × Headers) → ℕ → Headers → Option (ℕ × Headers)
send none n hs = some (n, hs)
send (some s) n hs = some s

-- WriteHeader: only the first one counts
unfoldable pub write_header : ℕ → Writer → Writer
write_header n w = record w { sent = send w.sent n w.header }

-- Write, which sends the status 200 first if none was sent
unfoldable pub write : Bytes → Writer → Writer
write b w = record w { sent = send w.sent 200 w.header; body = w.body ++ b }

pub data Call : Type 0 where
  change : (Headers → Headers) → Call
  call_write_header : ℕ → Call
  call_write : Bytes → Call

abbrev pass_call : Call → Writer → Writer
pass_call (change f) w = record w { header = f w.header }
pass_call (call_write_header n) w = write_header n w
pass_call (call_write b) w = write b w

unfoldable pub pass_calls : List Call → Writer → Writer
unfolding write write_header
pass_calls [] w = w
pass_calls (c ∷ cs) w = pass_calls cs (pass_call c w)

-- a handler that changes the headers, then sends a status and writes the body in any parts
abbrev pub answer_calls : (Headers → Headers) → ℕ → List Bytes → List Call
answer_calls f n bs = change f ∷ call_write_header n ∷ map call_write bs
