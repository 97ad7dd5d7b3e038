-- ===== src/Balancer/RoundRobin.antt =====
-- load_balancer.go: handleRoundRobin and handleRoundRobinExcluding, over the cursor of each service
-- in roundRobinCache. A call is one step: the map's Load and Store are not one atomic operation.
pub mod Rotation
pub mod Selection
use Prim.Native.String.{◌++◌ as str_append}
use sushi_gateway.Prelude.{
  ℕ, zero, suc, String, ◌+◌, ◌%◌, Bool, true, false, ◌&&◌, not, Option, none, some, List, [], ◌∷◌,
  if◌then◌else◌, keep, length, get_elem?, ◌==◌,
}
use sushi_gateway.Prelude.Dict.{Dict, put, or_default}
use sushi_gateway.Model.{Service, UpstreamTarget}
use sushi_gateway.Health.{get_healthy_upstreams}
use sushi_gateway.Balancer.{Env, is_upstream_available, tags_match, indices, eligible, contains}

-- roundRobinCache
abbrev pub Cursors : Type 0
Cursors = Dict ℕ

abbrev pub cursor : Cursors → String → ℕ
cursor rr key = or_default (rr key) 0

-- The next of a list of indices, which is not empty at the calls.
unfoldable pub rotate : Cursors → String → List ℕ → Option ℕ × Cursors
rotate rr key [] = (none, rr)
rotate rr key (i ∷ is) =
    let n = length (i ∷ is) in
    (get_elem? (i ∷ is) (cursor rr key % n), put key ((cursor rr key + 1) % n) rr)

-- the branch without health checks
unfoldable pub round_robin_unchecked :
    Cursors → Service → List UpstreamTarget → List String → Option ℕ × Cursors
round_robin_unchecked rr s (u ∷ []) tags = (if tags_match u.tags tags then some 0 else none, rr)
round_robin_unchecked rr s us tags = rotate rr s.name (indices (λ u. tags_match u.tags tags) 0 us)

-- the body of the loop: return the candidate, or go on with `rest`
unfoldable pub try_at : (UpstreamTarget → Bool) → ℕ → Option UpstreamTarget → Option ℕ → Option ℕ
try_at ok candidate none rest = rest
try_at ok candidate (some u) rest = if ok u then some candidate else rest

-- the `for i` of the branch with health checks: `k` rounds are left, starting at `i`
unfoldable pub scan : (UpstreamTarget → Bool) → List UpstreamTarget → ℕ → ℕ → ℕ → Option ℕ
unfolding try_at
scan ok us cur i zero = none
scan ok us cur i (suc k) =
    let candidate = (cur + i) % length us in
    try_at ok candidate (get_elem? us candidate) (scan ok us cur (suc i) k)

advance : Cursors → String → ℕ → Option ℕ → Option ℕ × Cursors
advance rr name n none = (none, put name (cursor rr name) rr)
advance rr name n (some i) = (some i, put name ((i + 1) % n) rr)

-- the branch with health checks, after the healthy upstreams are filtered by tags
round_robin_filtered :
    Env → Cursors → Service → List String → List UpstreamTarget → Option ℕ × Cursors
unfolding advance scan
round_robin_filtered env rr s tags [] = (none, rr)
round_robin_filtered env rr s tags (h ∷ hs) =
    if length s.upstreams == 1
    then (some 0, rr)
    else advance rr s.name (length s.upstreams)
        (scan (eligible env s tags) s.upstreams (cursor rr s.name) 0 (length s.upstreams))

unfoldable pub round_robin_checked : Env → Cursors → Service → List String → Option ℕ × Cursors
unfolding round_robin_filtered
round_robin_checked env rr s tags =
    round_robin_filtered env rr s tags
      (keep (λ u. tags_match u.tags tags) (get_healthy_upstreams env.health s))

unfoldable pub handle_round_robin : Env → Cursors → Service → List String → Option ℕ × Cursors
handle_round_robin env rr s tags =
    if s.health.enabled
    then round_robin_checked env rr s tags
    else round_robin_unchecked rr s s.upstreams tags

-- failedUpstreams is given by its keys: every value that is stored in it is `true`
unfoldable pub handle_round_robin_excluding :
    Env → Cursors → Service → List String → List String → Option ℕ × Cursors
handle_round_robin_excluding env rr s failed tags =
    rotate rr (str_append s.name "_retry")
      (indices (λ u. not (contains failed u.id) && eligible env s tags u) 0 s.upstreams)
