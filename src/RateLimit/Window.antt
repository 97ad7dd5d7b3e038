-- ===== src/RateLimit/Window.antt =====
-- rate_limit.go: how many requests a window lets in.
use Prim.Native.Nat.{min}
use sushi_gateway.Prelude.{
  ℕ, suc, String, ◌+◌, ◌-◌, ◌/◌, ◌≡◌, refl, ap, ap₂, subst, ◌∙◌, Bool, true, false, Option, none,
  some, List, [], ◌∷◌, arith, Memᴰ, if◌then◌else◌, leb, ◌==◌, Bool-cases, inl, inr, length,
}
use sushi_gateway.RateLimit.{Redis, answer, check_rate_limit_redis}

-- What INCR and EXPIRE do to the counters of a Redis that answers: INCR adds 1 to a counter and
-- gives the sum; setting a time to live leaves the counter as it is.
pub record Counts (R : Redis) : Type 0 where
  pub counter : R.State → String → ℕ
  pub incr-reply : (k : String) (st : R.State) → (R.incr k st).0 ≡ some (counter st k + 1)
  pub incr-counter : (k : String) (st : R.State) → counter (R.incr k st).1 k ≡ counter st k + 1
  pub expire-counter :
      (k : String) (w : ℕ) (st : R.State) → counter (R.expire k w st) k ≡ counter st k

unfoldable pub one_if_allowed : Option (Bool × ℕ) → ℕ
one_if_allowed none = 0
one_if_allowed (some (true, remaining)) = 1
one_if_allowed (some (false, remaining)) = 0

module _ (R : Redis) (sprint : String → ℕ → String) (C : Counts R) where
  -- how many of a sequence of requests, each at its time, are allowed
  unfoldable pub allowed : String → ℕ → ℕ → List ℕ → R.State → ℕ
  allowed key limit window [] st = 0
  allowed key limit window (now ∷ ts) st =
      let (r, st1) = check_rate_limit_redis R sprint key limit window now st in
      one_if_allowed r + allowed key limit window ts st1

  answer-counter :
      (k : String) (limit window : ℕ) (n : ℕ) (st : R.State)
      → C.counter (answer R sprint k limit window (some n, st)).1 k ≡ C.counter st k
  unfolding answer
  answer-counter k limit window n st = elim (Bool-cases (n == 1)) [
    | inl e ↦ simp e (C.expire-counter k window st)
    | inr e ↦ simp e
  ]

  check-answer :
      (key : String) (limit window now : ℕ) (st : R.State)
      → let k = sprint key (now / window) in
        check_rate_limit_redis R sprint key limit window now st
        ≡ answer R sprint k limit window (some (C.counter st k + 1), (R.incr k st).1)
  unfolding check_rate_limit_redis
  check-answer key limit window now st =
      let k = sprint key (now / window) in
      ap (λ (r : Option ℕ). answer R sprint k limit window (r, (R.incr k st).1)) (C.incr-reply k st)

  check-counter :
      (key : String) (limit window now w : ℕ) (st : R.State)
      → now / window ≡ w
      → C.counter (check_rate_limit_redis R sprint key limit window now st).1 (sprint key w)
        ≡ C.counter st (sprint key w) + 1
  check-counter key limit window now w st e =
      subst
        (λ (v : ℕ).
          C.counter (check_rate_limit_redis R sprint key limit window now st).1 (sprint key v)
          ≡ C.counter st (sprint key v) + 1)
        e
        (ap (λ (r : Option (Bool × ℕ) × R.State). C.counter r.1 (sprint key (now / window)))
            (check-answer key limit window now st)
          ∙ answer-counter (sprint key (now / window)) limit window _ _
          ∙ C.incr-counter (sprint key (now / window)) st)

  check-allowed :
      (key : String) (limit window now w : ℕ) (st : R.State)
      → now / window ≡ w
      → one_if_allowed (check_rate_limit_redis R sprint key limit window now st).0
        ≡ (if leb (C.counter st (sprint key w) + 1) limit then 1 else 0)
  unfolding answer one_if_allowed
  check-allowed key limit window now w st e =
      subst
        (λ (v : ℕ).
          one_if_allowed (check_rate_limit_redis R sprint key limit window now st).0
          ≡ (if leb (C.counter st (sprint key v) + 1) limit then 1 else 0))
        e
        (ap (λ (r : Option (Bool × ℕ) × R.State). one_if_allowed r.0)
            (check-answer key limit window now st)
          ∙ by_count (C.counter st (sprint key (now / window)) + 1))
    where
      by_count :
          (n : ℕ) → one_if_allowed (some (leb n limit, limit - n)) ≡ (if leb n limit then 1 else 0)
      by_count n = elim (Bool-cases (leb n limit)) [ inl e ↦ simp e | inr e ↦ simp e ]

  -- Of any requests within one window, as many are allowed as the limit leaves over what the window
  -- has counted before, and no more: with a Redis that answers and counts.
  pub allowed-min :
      (key : String) (limit window w : ℕ) (ts : List ℕ) (st : R.State)
      → ((t : ℕ) → Memᴰ t ts → t / window ≡ w)
      → allowed key limit window ts st ≡ min (length ts) (limit - C.counter st (sprint key w))
  unfolding allowed
  allowed-min key limit window w [] st same = omega arith
  allowed-min key limit window w (t ∷ ts) st same =
      let st1 = (check_rate_limit_redis R sprint key limit window t st).1 in
      let rest = allowed-min key limit window w ts st1 (λ u m. same u (Memᴰ.tail m)) in
      let e = same t (Memᴰ.head refl) in
      let a = check-allowed key limit window t w st e in
      let c = check-counter key limit window t w st e in
      ap₂ ◌+◌ a rest ∙ add_up (length ts) (C.counter st (sprint key w)) _ c
    where
      add_up :
          (n c d : ℕ)
          → d ≡ c + 1
          → (if leb (c + 1) limit then 1 else 0) + min n (limit - d) ≡ min (suc n) (limit - c)
      add_up n c d e = ground arith
