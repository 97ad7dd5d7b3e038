-- ===== src/Health/Thresholds.antt =====
-- health.go, processHealthResult: how many results in a row change a status.
use sushi_gateway.Prelude.{
  ℕ, ◌+◌, ◌≤◌, ◌<◌, ◌≡◌, Bool, true, false, List, [], ◌∷◌, arith, length, if◌then◌else◌, ltb,
}
use sushi_gateway.Prelude.Int.{ℤ, pos, half_mod}
use sushi_gateway.Health.{UpstreamHealthState, healthy, unhealthy, next_state}

-- the states that a list of results leads through, each with the time of its probe
unfoldable pub observe : ℤ → ℤ → List (Bool × ℕ) → UpstreamHealthState → UpstreamHealthState
observe ht ut [] st = st
observe ht ut ((ok, now) ∷ rs) st = observe ht ut rs (next_state ok ht ut now st)

-- the longest run of failures, with `c` failures just before the list
abbrev pub longest_failures : ℕ → List (Bool × ℕ) → ℕ
longest_failures c [] = c
longest_failures c ((true, _) ∷ rs) =
    let rest = longest_failures 0 rs in if ltb c rest then rest else c
longest_failures c ((false, _) ∷ rs) = longest_failures (c + 1) rs

longest_failures-le : (c : ℕ) (rs : List (Bool × ℕ)) → c ≤ longest_failures c rs
longest_failures-le c [] = omega arith
longest_failures-le c ((true, _) ∷ rs) = ground arith
longest_failures-le c ((false, _) ∷ rs) = omega (arith, longest_failures-le (c + 1) rs)

abbrev pub failures : List ℕ → List (Bool × ℕ)
failures [] = []
failures (t ∷ ts) = (false, t) ∷ failures ts

abbrev pub successes : List ℕ → List (Bool × ℕ)
successes [] = []
successes (t ∷ ts) = (true, t) ∷ successes ts

-- An upstream that has failed at least as often in a row as the threshold says is unhealthy,
-- whatever its status was, while the counter stays below 2 ^ 63.
pub observe-failures :
    (ht : ℤ) (t : ℕ) (ts : List ℕ) (st : UpstreamHealthState)
    → 0 < length ts
    → st.consecutive_failures + length ts < half_mod
    → t ≤ st.consecutive_failures + length ts
    → (observe ht (pos t) (failures ts) st).status ≡ unhealthy
unfolding observe next_state
observe-failures ht t [] st h b e = absurd (omega arith)
observe-failures ht t (x ∷ []) st h b e = ground arith
observe-failures ht t (x ∷ y ∷ ts) st h b e =
    observe-failures ht t (y ∷ ts) (next_state false ht (pos t) x st) (omega arith) (omega arith)
      (omega arith)

-- An upstream that has succeeded at least as often in a row as the threshold says is healthy,
-- whatever its status was, while the counter stays below 2 ^ 63.
pub observe-successes :
    (t : ℕ) (ut : ℤ) (ts : List ℕ) (st : UpstreamHealthState)
    → 0 < length ts
    → st.consecutive_successes + length ts < half_mod
    → t ≤ st.consecutive_successes + length ts
    → (observe (pos t) ut (successes ts) st).status ≡ healthy
unfolding observe next_state
observe-successes t ut [] st h b e = absurd (omega arith)
observe-successes t ut (x ∷ []) st h b e = ground arith
observe-successes t ut (x ∷ y ∷ ts) st h b e =
    observe-successes t ut (y ∷ ts) (next_state true (pos t) ut x st) (omega arith) (omega arith)
      (omega arith)

-- A healthy upstream stays healthy through any results in which no run of failures, counted
-- with those just before, reaches the threshold, while the counter stays below 2 ^ 63.
pub observe-healthy_stays :
    (ht : ℤ) (t : ℕ) (rs : List (Bool × ℕ)) (st : UpstreamHealthState)
    → st.status ≡ healthy
    → st.consecutive_failures + length rs < half_mod
    → longest_failures st.consecutive_failures rs < t
    → (observe ht (pos t) rs st).status ≡ healthy
unfolding observe next_state
observe-healthy_stays ht t [] st h b e = h
observe-healthy_stays ht t ((true, x) ∷ rs) st h b e =
    observe-healthy_stays ht t rs (next_state true ht (pos t) x st) (ground arith) (omega arith)
      (ground arith)
observe-healthy_stays ht t ((false, x) ∷ rs) st h b e =
    observe-healthy_stays ht t rs (next_state false ht (pos t) x st)
      (ground (arith, longest_failures-le (st.consecutive_failures + 1) rs)) (omega arith)
      (ground arith)
