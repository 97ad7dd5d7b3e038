-- ===== src/Plugins/Turns.antt =====
-- plugin_manager.go: the turns in which the plugins of a chain run, by their names.
use sushi_gateway.Prelude.{
  ℕ, zero, suc, String, ◌<◌, ◌≡◌, refl, Option, none, some, List, [], ◌∷◌, arith, if◌then◌else◌,
  get_elem?,
}
use sushi_gateway.Balancer.{contains}

-- The plugins by the turns in which a chain runs them.
unfoldable pub turns : List (List String)
turns =
    ("response-handler" ∷ "cors" ∷ [])
    ∷ ("request-termination" ∷ [])
    ∷ ("rate-limiting" ∷ "request-size-limiting" ∷ [])
    ∷ ("acl" ∷ "circuit-breaker" ∷ "cache" ∷ [])
    ∷ ("multi-auth" ∷ [])
    ∷ ("basic-auth" ∷ "key-auth" ∷ [])
    ∷ ("mtls" ∷ [])
    ∷ ("header-transformation" ∷ [])
    ∷ ("bot-protection" ∷ "rbac" ∷ "shadow-traffic" ∷ [])
    ∷ ("waf" ∷ "http-log" ∷ [])
    ∷ ("jwt" ∷ [])
    ∷ []

unfoldable pub place_of : String → ℕ → List (List String) → Option ℕ
unfolding contains
place_of n i [] = none
place_of n i (ns ∷ rest) =
    let later = place_of n (suc i) rest in if contains ns n then some i else later

-- the turn of a name, from 0
unfoldable pub turn_of : String → Option ℕ
unfolding place_of turns
turn_of n = place_of n 0 turns

-- the priorities of the turns
abbrev pub steps : List ℕ
steps = 0 ∷ 2 ∷ 50 ∷ 100 ∷ 199 ∷ 200 ∷ 250 ∷ 300 ∷ 900 ∷ 1000 ∷ 1450 ∷ []

abbrev Increasing : List ℕ → Type 0
Increasing [] = Unit
Increasing (a ∷ []) = Unit
Increasing (a ∷ b ∷ ns) = (a < b) × Increasing (b ∷ ns)

Increasing-tail : (a : ℕ) (ns : List ℕ) → Increasing (a ∷ ns) → Increasing ns
Increasing-tail a [] h = tt
Increasing-tail a (b ∷ ns) h = h.1

pub Increasing-lt :
    (ns : List ℕ) (i j a b : ℕ)
    → Increasing ns
    → get_elem? ns i ≡ some a
    → get_elem? ns j ≡ some b
    → i < j
    → a < b
Increasing-lt [] i j a b s e f h = cc
Increasing-lt (n ∷ ns) i zero a b s e f h = absurd (omega (arith, h))
Increasing-lt (n ∷ ns) (suc i) (suc j) a b s e f h =
    Increasing-lt ns i j a b (Increasing-tail n ns s) e f (omega (arith, h))
Increasing-lt (n ∷ []) zero (suc j) a b s e f h = cc
Increasing-lt (n ∷ m ∷ ns) zero (suc zero) a b s e f h = ground arith
Increasing-lt (n ∷ m ∷ ns) zero (suc (suc j)) a b s e f h =
    ground (arith, Increasing-lt (m ∷ ns) zero (suc j) m b s.1 refl f (omega arith))

pub steps-Increasing : Increasing steps
steps-Increasing = ground arith
