-- ===== src/RateLimit.antt =====
-- sushi-proxy/internal/gateway/rate_limit.go: the limits per second, minute and hour. Redis is a
-- parameter, with INCR (`none` where the call fails) and EXPIRE; so is fmt.Sprintf("%s:%d", ...).
-- The response headers and the metrics are left out.
pub mod Window
mod Tests
use Prim.Native.String.{◌++◌ as str_append}
use sushi_gateway.Prelude.{
  ℕ, String, ◌-◌, ◌/◌, Bool, true, false, Option, none, some, List, [], ◌∷◌, if◌then◌else◌, str_eq,
  leb, ltb, ◌==◌,
}
use sushi_gateway.Prelude.Int.{ℤ, pos, pos_part, ltb_ℤ}
use sushi_gateway.Model.{Service, Route, PluginConfig}

pub record Redis : Type 1 where
  pub State : Type 0
  pub incr : String → State → Option ℕ × State
  pub expire : String → ℕ → State → State

pub data Level : Type 0 where
  service_level route_level global_level : Level

unfoldable pub has_rate_limit : List PluginConfig → Bool
has_rate_limit [] = false
has_rate_limit (p ∷ ps) = if str_eq p.name "rate-limiting" then true else has_rate_limit ps

unfoldable pub detect_rate_limit_operation_level : Service → Route → Level
detect_rate_limit_operation_level s r =
    if has_rate_limit s.plugins
    then service_level
    else if has_rate_limit r.plugins
    then route_level
    else global_level

unfoldable pub get_map_key_entry : Level → Service → Route → String
get_map_key_entry global_level s r = "Global"
get_map_key_entry service_level s r = str_append "Service::" s.name
get_map_key_entry route_level s r = str_append "Route::" r.name

-- the limits of a config, 0 where there is none, and fault_tolerant
pub record Limits : Type 0 where
  pub second : ℤ
  pub minute : ℤ
  pub hour : ℤ
  pub fault_tolerant : Bool

pub data Reply : Type 0 where
  passed store_error : Reply
  exceeded : ℕ → Reply

module _ (R : Redis) (sprint : String → ℕ → String) where
  unfoldable pub answer : String → ℕ → ℕ → Option ℕ × R.State → Option (Bool × ℕ) × R.State
  answer key limit window (none, st) = (none, st)
  answer key limit window (some count, st) =
      (some (leb count limit, limit - count), if count == 1 then R.expire key window st else st)

  -- checkRateLimitRedis, at a time in seconds: whether the request is allowed, and what remains
  unfoldable pub check_rate_limit_redis : String → ℕ → ℕ → ℕ → R.State → Option (Bool × ℕ) × R.State
  check_rate_limit_redis key limit window now st =
      let window_key = sprint key (now / window) in
      answer window_key limit window (R.incr window_key st)

  unfoldable pub settle : Bool → ℕ → Option (Bool × ℕ) × R.State → Option Reply × R.State
  settle fault_tolerant window (none, st) = (if fault_tolerant then none else some store_error, st)
  settle fault_tolerant window (some (true, remaining), st) = (none, st)
  settle fault_tolerant window (some (false, remaining), st) = (some (exceeded window), st)

  -- `limit > 0 && !checkLimit(...)`: the reply, if the request ends here
  unfoldable pub check_limit : Bool → String → ℤ → ℕ → ℕ → R.State → Option Reply × R.State
  check_limit fault_tolerant key limit window now st =
      if ltb_ℤ (pos 0) limit
      then settle fault_tolerant window (check_rate_limit_redis key (pos_part limit) window now st)
      else (none, st)

  -- go on with the next limit if the request has not ended
  unfoldable pub and_then :
      Option Reply × R.State → (R.State → Option Reply × R.State) → Option Reply × R.State
  and_then (none, st) next = next st
  and_then (some r, st) next = (some r, st)

  unfoldable pub or_passed : Option Reply × R.State → Reply × R.State
  or_passed (none, st) = (passed, st)
  or_passed (some r, st) = (r, st)

  -- the three checks of Execute, for the key of the scope and the client
  unfoldable pub check_limits : Limits → String → ℕ → R.State → Reply × R.State
  check_limits l base_key now st = or_passed (
      and_then
        (and_then (check_limit l.fault_tolerant (str_append base_key "sec") l.second 1 now st)
          (check_limit l.fault_tolerant (str_append base_key "min") l.minute 60 now))
        (check_limit l.fault_tolerant (str_append base_key "hr") l.hour 3600 now))
