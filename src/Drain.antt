-- ===== src/Drain.antt =====
-- sushi-proxy/internal/gateway/drain.go: ConnectionTracker. Each request runs Track in a goroutine
-- of its own; a step of the model is one atomic operation of one goroutine, in any order.
pub mod Counting
pub mod Race
mod Tests
use sushi_gateway.Prelude.{
  ℕ, zero, suc, ◌+◌, ◌-◌, ◌≡◌, Bool, true, false, Option, none, some, List, [], ◌∷◌, ◌++◌,
  if◌then◌else◌, get_elem?, set,
}

-- How far a request is in Track: before the load of isDraining, after it, after wg.Add(1), in
-- next.ServeHTTP after active.Add(1), after wg.Done(), after active.Add(-1); or turned away.
pub data Stage : Type 0 where
  arrived admitted added serving leaving finished rejected : Stage

-- the shutdown: before Wait, in it, and after it returned nil or ctx.Err()
pub data Waiter : Type 0 where
  idle waiting drained timed_out : Waiter

pub record Tracker : Type 0 where
  pub wg : ℕ
  pub is_draining : Bool
  pub active : ℕ
  pub requests : List Stage
  pub waiter : Waiter

unfoldable pub new : Tracker
new = record { wg = 0; is_draining = false; active = 0; requests = []; waiter = idle }

-- the next operation of a request at a stage; `none` where it has returned
unfoldable pub advance : Stage → Tracker → Option (Stage × Tracker)
advance arrived t = some (if t.is_draining then rejected else admitted, t)
advance admitted t = some (added, record t { wg = t.wg + 1 })
advance added t = some (serving, record t { active = t.active + 1 })
advance serving t = some (leaving, record t { wg = t.wg - 1 })
advance leaving t = some (finished, record t { active = t.active - 1 })
advance _ t = none

-- StartDraining: the CompareAndSwap changes the flag only from false to true
unfoldable pub start_draining : Tracker → Tracker
start_draining t = record t { is_draining = true }

unfoldable pub get_active_count : Tracker → ℕ
get_active_count t = t.active

pub data Step (t : Tracker) : Tracker → Type 0 where
  arrive : Step t (record t { requests = t.requests ++ arrived ∷ [] })
  go :
      (i : ℕ) (s s' : Stage) (u : Tracker)
      → get_elem? t.requests i ≡ some s
      → advance s t ≡ some (s', u)
      → Step t (record u { requests = set t.requests i s' })
  drain : Step t (start_draining t)
  wait : t.waiter ≡ idle → Step t (record t { waiter = waiting })
  done : t.waiter ≡ waiting → t.wg ≡ 0 → Step t (record t { waiter = drained })
  expire : t.waiter ≡ waiting → Step t (record t { waiter = timed_out })

infix 40 ◌⟶*◌
pub data ◌⟶*◌ (t : Tracker) : Tracker → Type 0 where
  here : t ⟶* t
  next : {u v : Tracker} → t ⟶* u → Step u v → t ⟶* v
