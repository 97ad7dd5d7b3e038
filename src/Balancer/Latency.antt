-- ===== src/Balancer/Latency.antt =====
-- latency_balancer.go, with handleLatencyExcluding of load_balancer.go: the moving average of an
-- upstream's response times, and the choice of the lowest. A float64 is a parameter. latencyCache
-- is the list of its entries in the order in which Range gives them. The clock's readings are
-- parameters: when a missing state is made, and when the average is taken.
use Prim.Native.String.{◌++◌ as str_append}
use sushi_gateway.Prelude.{
  ℕ, suc, String, Bool, true, false, ◌&&◌, not, Option, none, some, List, [], ◌∷◌, ◌++◌,
  if◌then◌else◌, length, ◌==◌, str_eq,
}
use sushi_gateway.Prelude.Int.{ℤ, pos, sub_ℕ}
use sushi_gateway.Prelude.Text.{codes, cut_prefix}
use sushi_gateway.Model.{Service, UpstreamTarget}
use sushi_gateway.Health.{HealthMap, get_upstream_health_state, state_is_healthy}
use sushi_gateway.Balancer.{Env, contains, tags_match, eligible}
use sushi_gateway.Balancer.LeastConnections.{Float64, weight_or_1}
use sushi_gateway.Balancer.Scan.{lowest}
use sushi_gateway.Balancer.Weighted.{numbered}

-- the further operations and constants: 0, 1, 0.001, DecayTime, MaxFloat64, x + y, x - y,
-- math.Exp(-x) and Duration.Seconds of a number of nanoseconds
pub record Decay (F : Float64) : Type 0 where
  pub zero : F.Number
  pub one : F.Number
  pub thousandth : F.Number
  pub decay_time : F.Number
  pub greatest : F.Number
  pub add : F.Number → F.Number → F.Number
  pub subtract : F.Number → F.Number → F.Number
  pub exp_minus : F.Number → F.Number
  pub seconds_of : ℤ → F.Number

pub record LatencyState (F : Float64) : Type 0 where
  pub ewma : F.Number
  pub last_touched_at : ℕ

abbrev pub LatencyCache : Float64 → Type 0
LatencyCache F = List (String × LatencyState F)

abbrev pub latency_key : String → String → String
latency_key service upstream = str_append service (str_append ":" upstream)

-- len(k) > len(prefix) and k starts with it
abbrev goes_on : Option (List ℕ) → Bool
goes_on none = false
goes_on (some []) = false
goes_on (some (b ∷ rest)) = true

module _ (F : Float64) (D : Decay F) where
  unfoldable pub decay_ewma : F.Number → ℕ → F.Number → ℕ → F.Number
  decay_ewma current last_touched rtt now =
      let elapsed = D.seconds_of (sub_ℕ now last_touched) in
      let td = if F.below elapsed D.zero then D.zero else elapsed in
      let weight = D.exp_minus (F.divide td D.decay_time) in
      D.add (F.multiply current weight) (F.multiply rtt (D.subtract D.one weight))

  -- the sum of the averages of a service's upstreams, and how many there are
  unfoldable pub sum_of : String → LatencyCache F → F.Number × ℕ → F.Number × ℕ
  sum_of service [] acc = acc
  sum_of service ((key, st) ∷ cache) (total, count) = sum_of service cache (
      if goes_on (cut_prefix (codes (str_append service ":")) (codes key))
      then (D.add total st.ewma, suc count)
      else (total, count))

  abbrev average : F.Number × ℕ → F.Number
  average (total, count) = if count == 0 then D.zero else F.divide total (F.of_int (pos count))

  unfoldable pub calculate_slow_start_ewma : String → LatencyCache F → F.Number
  unfolding sum_of
  calculate_slow_start_ewma service cache = average (sum_of service cache (D.zero, 0))

  unfoldable pub load : String → LatencyCache F → Option (LatencyState F)
  load key [] = none
  load key ((k, st) ∷ cache) = let rest = load key cache in if str_eq k key then some st else rest

  load_or_store :
      Option (LatencyState F)
      → String
      → String
      → ℕ
      → LatencyCache F
      → LatencyState F × LatencyCache F
  unfolding calculate_slow_start_ewma
  load_or_store (some st) service key now cache = (st, cache)
  load_or_store none service key now cache =
      let st : LatencyState F = record {
        ewma = calculate_slow_start_ewma service cache;
        last_touched_at = now;
      } in
      (st, cache ++ (key, st) ∷ [])

  unfoldable pub get_latency_state :
      String → String → ℕ → LatencyCache F → LatencyState F × LatencyCache F
  unfolding load load_or_store
  get_latency_state service upstream now cache =
      let key = latency_key service upstream in load_or_store (load key cache) service key now cache

  unfoldable pub get_ewma : String → String → ℕ → ℕ → LatencyCache F → F.Number × LatencyCache F
  unfolding get_latency_state decay_ewma
  get_ewma service upstream made now cache =
      let (st, cache') = get_latency_state service upstream made cache in
      (decay_ewma st.ewma st.last_touched_at D.zero now, cache')

  -- the state of a key, written through the pointer
  unfoldable pub store : String → LatencyState F → LatencyCache F → LatencyCache F
  store key st [] = []
  store key st ((k, old) ∷ cache) =
      let rest = store key st cache in if str_eq k key then (k, st) ∷ cache else (k, old) ∷ rest

  unfoldable pub record_latency : String → String → ℤ → ℕ → ℕ → LatencyCache F → LatencyCache F
  unfolding get_latency_state decay_ewma store
  record_latency service upstream duration made now cache =
      let (st, cache') = get_latency_state service upstream made cache in
      store (latency_key service upstream)
        (record {
          ewma = decay_ewma st.ewma st.last_touched_at (D.seconds_of duration) now;
          last_touched_at = now;
        })
        cache'

  -- (ewma + 0.001) / weight
  unfoldable pub latency_score : F.Number → UpstreamTarget → F.Number
  latency_score ewma u = F.divide (D.add ewma D.thousandth) (F.of_int (weight_or_1 u.weight))

  -- the scores of the candidates, each taken at the time that `clock` gives for its index
  unfoldable pub latency_scores :
      (ℕ → ℕ × ℕ)
      → String
      → List (ℕ × UpstreamTarget)
      → LatencyCache F
      → List (ℕ × F.Number) × LatencyCache F
  unfolding get_ewma latency_score
  latency_scores clock service [] cache = ([], cache)
  latency_scores clock service ((i, u) ∷ cs) cache =
      let (ewma, cache') = get_ewma service u.id (clock i).0 (clock i).1 cache in
      let (scores, cache'') = latency_scores clock service cs cache' in
      ((i, latency_score ewma u) ∷ scores, cache'')

  -- one candidate is taken as it is; bestIdx is 0 before the loop
  unfoldable pub fastest :
      (ℕ → ℕ × ℕ) → String → List (ℕ × UpstreamTarget) → LatencyCache F → ℕ × LatencyCache F
  unfolding latency_scores lowest
  fastest clock service ((i, u) ∷ []) cache = (i, cache)
  fastest clock service cs cache =
      let (scores, cache') = latency_scores clock service cs cache in
      ((lowest F.below scores (0, D.greatest)).0, cache')

  unfoldable pub fastest_or_none :
      (ℕ → ℕ × ℕ) → String → List (ℕ × UpstreamTarget) → LatencyCache F → Option ℕ × LatencyCache F
  unfolding fastest
  fastest_or_none clock service [] cache = (none, cache)
  fastest_or_none clock service (c ∷ cs) cache =
      let (i, cache') = fastest clock service (c ∷ cs) cache in (some i, cache')

  -- the branch without health checks does not test for no candidate
  unfoldable pub latency_among :
      HealthMap → (ℕ → ℕ × ℕ) → Service → List String → LatencyCache F → Option ℕ × LatencyCache F
  unfolding fastest_or_none fastest
  latency_among hm clock s tags cache =
      if s.health.enabled
      then fastest_or_none clock s.name
          (numbered
            (λ u.
              tags_match u.tags tags && state_is_healthy (get_upstream_health_state hm s.name u.id))
            0 s.upstreams)
          cache
      else (let (i, cache') =
            fastest clock s.name (numbered (λ u. tags_match u.tags tags) 0 s.upstreams) cache in
          (some i, cache'))

  unfoldable pub by_count :
      HealthMap
      → (ℕ → ℕ × ℕ)
      → Service
      → List UpstreamTarget
      → List String
      → LatencyCache F
      → Option ℕ × LatencyCache F
  unfolding latency_among
  by_count hm clock s [] tags cache = (none, cache)
  by_count hm clock s (u ∷ []) tags cache = (if tags_match u.tags tags then some 0 else none, cache)
  by_count hm clock s us tags cache = latency_among hm clock s tags cache

  unfoldable pub handle_latency :
      HealthMap → (ℕ → ℕ × ℕ) → Service → List String → LatencyCache F → Option ℕ × LatencyCache F
  unfolding by_count
  handle_latency hm clock s tags cache = by_count hm clock s s.upstreams tags cache

  unfoldable pub handle_latency_excluding :
      Env
      → (ℕ → ℕ × ℕ)
      → Service
      → List String
      → List String
      → LatencyCache F
      → Option ℕ × LatencyCache F
  unfolding fastest_or_none
  handle_latency_excluding env clock s failed tags cache =
      if length s.upstreams == 0
      then (none, cache)
      else fastest_or_none clock s.name
          (numbered (λ u. not (contains failed u.id) && eligible env s tags u) 0 s.upstreams) cache
