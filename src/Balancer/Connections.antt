-- ===== src/Balancer/Connections.antt =====
-- load_balancer.go: activeConnectionCache, the number of requests in flight at each upstream of
-- each service. A service without an entry has no ServiceConnectionState; a count is the bit
-- pattern of an int64. Each call holds the lock of the service's state, so it is one step.
pub mod Balance
use sushi_gateway.Prelude.{
  ℕ, String, ◌+◌, ◌-◌, ◌%◌, Option, none, some, Bool, true, false, if◌then◌else◌, ltb,
}
use sushi_gateway.Prelude.Int.{inc, dec, half_mod}
use sushi_gateway.Prelude.Dict.{Dict, empty, put, or_default}

abbrev pub Connections : Type 0
Connections = Dict (Dict ℕ)

-- the count is above 0, as an int64
abbrev pub is_above_0 : ℕ → Bool
is_above_0 n = if ltb 0 n then ltb n half_mod else false

-- IncrementActiveConnections
unfoldable pub increment : String → String → Connections → Connections
increment service upstream conns =
    let counts = or_default (conns service) empty in
    put service (put upstream (inc (or_default (counts upstream) 0)) counts) conns

unfoldable pub decrement_in : Option (Dict ℕ) → String → String → Connections → Connections
decrement_in none service upstream conns = conns
decrement_in (some counts) service upstream conns =
    let n = or_default (counts upstream) 0 in
    if is_above_0 n then put service (put upstream (dec n) counts) conns else conns

-- DecrementActiveConnections
unfoldable pub decrement : String → String → Connections → Connections
unfolding decrement_in
decrement service upstream conns = decrement_in (conns service) service upstream conns

unfoldable pub count_in : Option (Dict ℕ) → String → ℕ
count_in none upstream = 0
count_in (some counts) upstream = or_default (counts upstream) 0

-- GetActiveConnections
unfoldable pub get_active_connections : Connections → String → String → ℕ
unfolding count_in
get_active_connections conns service upstream = count_in (conns service) upstream
