-- ===== src/Cache.antt =====
-- cache.go: the plugin that stores responses in Redis. Redis and encoding/json are parameters; a
-- client that is nil is a Redis that finds nothing and keeps nothing. What the next handler does is
-- the list of its calls on the writer that it is given. The goroutine that stores a response is a
-- job, which runs at some later time.
pub mod Replay
mod Tests
use Prim.Native.String.{◌++◌ as str_append}
use sushi_gateway.Prelude.{
  ℕ, String, Bool, true, false, not, ◌&&◌, ◌||◌, Option, none, some, List, [], ◌∷◌, ◌++◌,
  if◌then◌else◌, str_eq, ltb, leb, ◌>>=◌,
}
use sushi_gateway.Prelude.Int.{ℤ, pos, sub_ℕ, seconds}
use sushi_gateway.Prelude.Dict.{or_default}
use sushi_gateway.Prelude.Text.{codes, contains_text}
use sushi_gateway.Model.{Bytes}
use sushi_gateway.Http.{Request, first_or_empty}
use sushi_gateway.Http.Response.{
  Headers, set, Writer, write_header, write, Call, change, call_write_header, call_write,
  pass_calls,
}
use sushi_gateway.Balancer.LeastConnections.{Float64}

-- cacheResponseWriter
pub record Recorder : Type 0 where
  pub under : Writer
  pub status_code : ℕ
  pub body : Bytes
  pub headers : Headers

abbrev new_recorder : Writer → Recorder
new_recorder w = record { under = w; status_code = 200; body = []; headers = λ k. [] }

-- the loop that copies the header map
abbrev or_before : List String → List String → List String
or_before [] vs = vs
or_before (v ∷ vs) _ = v ∷ vs

unfoldable pub record_call : Call → Recorder → Recorder
unfolding write_header write
record_call (change f) r = record r { under = record r.under { header = f r.under.header } }
record_call (call_write_header n) r = record r {
  status_code = n;
  headers = λ k. or_before (r.under.header k) (r.headers k);
  under = write_header n r.under;
}
record_call (call_write b) r = record r { body = r.body ++ b; under = write b r.under }

unfoldable pub record_calls : List Call → Recorder → Recorder
unfolding record_call
record_calls [] r = r
record_calls (c ∷ cs) r = record_calls cs (record_call c r)

pub record CachedResponse : Type 0 where
  pub status_code : ℕ
  pub headers : String → Option String
  pub body : Bytes
  pub cached_at : ℕ

pub record Store : Type 1 where
  pub State : Type 0
  pub get : String → State → Option Bytes
  pub store : String → Bytes → ℤ → State → State

pub record Json : Type 0 where
  pub marshal : CachedResponse → Option Bytes
  pub unmarshal : Bytes → Option CachedResponse

-- the arguments of storeInCache
pub record Job : Type 0 where
  pub key : String
  pub response : CachedResponse
  pub ttl : ℤ

-- CacheKey
abbrev cache_key : String → String → String
cache_key method path = str_append (str_append (str_append "cache:" method) ":") path

-- buildCacheKey
unfoldable pub build_cache_key : Request → String
build_cache_key req = cache_key req.method (str_append req.host req.request_uri)

abbrev first_value : List String → Option String
first_value [] = none
first_value (v ∷ vs) = some v

-- Header.Set of a cached value
abbrev pub value_or : List String → Option String → List String
value_or vs none = vs
value_or vs (some v) = v ∷ []

module _ (F : Float64) where
  pub record CachePlugin : Type 0 where
    pub ttl : Option F.Number
    pub cache_control : Option Bool

  abbrev above_0 : Option F.Number → Bool
  above_0 none = false
  above_0 (some t) = F.below (F.of_int (pos 0)) t

  -- Validate
  unfoldable pub is_valid : CachePlugin → Bool
  is_valid p = above_0 p.ttl

  abbrev ttl_or_60 : Option F.Number → ℤ
  ttl_or_60 none = pos 60000000000
  ttl_or_60 (some t) = seconds (F.to_int t)

  -- getTTL, in nanoseconds
  unfoldable pub get_ttl : CachePlugin → ℤ
  get_ttl p = ttl_or_60 p.ttl

  -- isCacheable
  unfoldable pub is_cacheable : CachePlugin → ℕ → Headers → Bool
  is_cacheable p status hs =
      let control = codes (first_or_empty (hs "Cache-Control")) in
      if ltb status 200 || leb 300 status
      then false
      else if or_default p.cache_control true
      then not (
          contains_text (codes "no-store") control
          || contains_text (codes "no-cache") control
          || contains_text (codes "private") control)
      else true

  module _ (R : Store) (J : Json) (decimal : ℤ → String) where
    unfoldable pub get_from_cache : String → R.State → Option CachedResponse
    get_from_cache key st = R.get key st >>= J.unmarshal

    abbrev store_bytes : String → ℤ → R.State → Option Bytes → R.State
    store_bytes key ttl st none = st
    store_bytes key ttl st (some b) = R.store key b ttl st

    unfoldable pub store_in_cache : Job → R.State → R.State
    store_in_cache j st = store_bytes j.key j.ttl st (J.marshal j.response)

    abbrev restore : (String → Option String) → Headers → Headers
    restore cached hs k = value_or (hs k) (cached k)

    abbrev hit_headers : ℕ → CachedResponse → Headers → Headers
    hit_headers now c hs =
        restore c.headers
          (set "X-Cache-Age" (decimal (sub_ℕ now c.cached_at)) (set "X-Cache" "HIT" hs))

    unfoldable pub answer_hit : ℕ → CachedResponse → Writer → Writer
    unfolding write write_header
    answer_hit now c w =
        write c.body (write_header c.status_code (record w { header = hit_headers now c w.header }))

    unfoldable pub job_of : CachePlugin → String → ℕ → Recorder → Option Job
    job_of p key now r =
        if is_cacheable p r.status_code r.headers
        then some (record {
          key = key;
          ttl = get_ttl p;
          response = record {
            status_code = r.status_code;
            headers = λ k. first_value (r.headers k);
            body = r.body;
            cached_at = now;
          };
        })
        else none

    -- `now` is the time at which the response is complete
    unfoldable pub answer_miss :
        CachePlugin → (Request → List Call) → Request → ℕ → Writer → Writer × Option Job
    answer_miss p next req now w =
        let r =
          record_calls (next req)
            (new_recorder (record w { header = set "X-Cache" "MISS" w.header })) in
        (r.under, job_of p (build_cache_key req) now r)

    unfoldable pub answer_lookup :
        CachePlugin
        → (Request → List Call)
        → Request
        → ℕ
        → Writer
        → Option CachedResponse
        → Writer × Option Job
    unfolding answer_miss answer_hit
    answer_lookup p next req now w none = answer_miss p next req now w
    answer_lookup p next req now w (some c) = (answer_hit now c w, none)

    -- Execute, with the job that it starts
    unfoldable pub execute :
        CachePlugin → (Request → List Call) → Request → ℕ → R.State → Writer → Writer × Option Job
    unfolding answer_lookup
    execute p next req now st w =
        if str_eq req.method "GET"
        then answer_lookup p next req now w (get_from_cache (build_cache_key req) st)
        else (pass_calls (next req) w, none)
