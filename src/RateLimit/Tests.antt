-- ===== src/RateLimit/Tests.antt =====
-- rate_limit.go: the theorem with a Redis that keeps its counters in a map.
use Prim.Native.Nat.{min}
use Prim.Native.String.{◌++◌ as str_append}
use sushi_gateway.Prelude.{
  ℕ, String, ◌+◌, ◌/◌, ◌≡◌, refl, some, [], ◌∷◌, Memᴰ-cases, inl, inr, length, str_eq_refl, ap, ◌-◌,
  if◌then◌else◌, ◌==◌,
}
use sushi_gateway.Prelude.Dict.{Dict, empty, put, or_default}
use sushi_gateway.RateLimit.{Redis}
use sushi_gateway.RateLimit.Window.{Counts, allowed, allowed-min}

abbrev kept : Redis
kept = record {
  State = Dict ℕ;
  incr = λ k st. (some (or_default (st k) 0 + 1), put k (or_default (st k) 0 + 1) st);
  expire = λ k w st. st;
}

abbrev counts : Counts kept
counts = record {
  counter = λ st k. or_default (st k) 0;
  incr-reply = λ k st. refl;
  incr-counter = λ k st. rw (str_eq_refl k);
  expire-counter = λ k w st. refl;
}

-- one key for every window but the first
abbrev name : String → ℕ → String
name key w = if w == 0 then key else str_append key ":later"

allowed-min_example :
    allowed kept name counts "Global:10.0.0.9:min" 2 60 (61 ∷ 70 ∷ 119 ∷ []) empty
    ≡ min
        (length {A = ℕ} (61 ∷ 70 ∷ 119 ∷ []))
        (2 - or_default (empty (name "Global:10.0.0.9:min" 1)) 0)
allowed-min_example =
    allowed-min kept name counts "Global:10.0.0.9:min" 2 60 1 (61 ∷ 70 ∷ 119 ∷ []) empty (λ t m.
      elim (Memᴰ-cases m) [
        | inl e ↦ ap (◌/ 60) e
        | inr m2 ↦ elim (Memᴰ-cases m2) [
          | inl e ↦ ap (◌/ 60) e
          | inr m3 ↦ elim (Memᴰ-cases m3) [ inl e ↦ ap (◌/ 60) e | inr m4 ↦ elim m4 [ ] ]
        ]
      ])
