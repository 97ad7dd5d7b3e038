-- ===== src/Cache/Tests.antt =====
-- cache.go: the replay of a small response, over a store that is a map.
use sushi_gateway.Prelude.{String, refl, none, some, List, [], ◌∷◌}
use sushi_gateway.Prelude.Int.{ℤ, pos}
use sushi_gateway.Prelude.Dict.{Dict, empty, put, get-put_self}
use sushi_gateway.Prelude.Text.{codes, contains_text, cut_prefix}
use sushi_gateway.Model.{Bytes}
use sushi_gateway.Http.{Request}
use sushi_gateway.Http.Response.{Headers, Writer, Call, set, write_header, write, answer_calls}
use sushi_gateway.Cache.{
  Store, Json, Job, CachedResponse, CachePlugin, execute, answer_lookup, answer_miss, job_of,
  get_ttl, is_cacheable, record_calls, record_call, build_cache_key, store_in_cache, get_from_cache,
  first_value, or_before,
}
use sushi_gateway.Cache.Replay.{Keeps, Replayed, execute-Replayed}
use sushi_gateway.Samples.{whole, request_with}

abbrev kept : Store
kept = record { State = Dict Bytes; get = λ k st. st k; store = λ k b ttl st. put k b st }

abbrev plugin : CachePlugin whole
plugin = record { ttl = some (pos 30); cache_control = none }

-- one header, the status 200 and a body in two parts
abbrev set_tag : Headers → Headers
set_tag hs = set "Etag" "v1" hs

abbrev parts : List Bytes
parts = codes "ab" ∷ codes "c" ∷ []

abbrev handler : Request → List Call
handler req = answer_calls set_tag 200 parts

abbrev item : Request
item = request_with "Accept" "text/html"

abbrev blank : Writer
blank = record { header = λ k. []; sent = none; body = [] }

abbrev stored : CachedResponse
stored = record {
  status_code = 200;
  headers = λ k. first_value (or_before (set_tag (set "X-Cache" "MISS" (λ j. [])) k) []);
  body = codes "abc";
  cached_at = 1000;
}

abbrev one : Json
one = record { marshal = λ c. some (codes "r"); unmarshal = λ b. some stored }

abbrev job : Job
job = record { key = build_cache_key item; response = stored; ttl = pos 30000000000 }

abbrev decimal : ℤ → String
decimal z = "7"

stored-Keeps : Keeps whole kept one decimal stored
stored-Keeps = record {
  get-store = λ k b ttl st. get-put_self k b st;
  encoded = codes "r";
  marshalled = refl;
  unmarshalled = refl;
}

execute-Replayed_example :
    Replayed
      (execute whole kept one decimal plugin handler item 1000 empty blank).0
      (execute whole kept one decimal plugin
        (λ r. [])
        item
        1007
        (store_in_cache whole kept one decimal job empty)
        blank).0
unfolding execute answer_lookup answer_miss job_of get_ttl is_cacheable contains_text cut_prefix
    record_calls record_call write_header write build_cache_key get_from_cache
execute-Replayed_example =
    execute-Replayed whole kept one decimal plugin handler item 1000 empty blank set_tag 200 parts
      job stored-Keeps refl refl refl (refl, refl) refl (λ r. []) item 1007 blank refl refl
      (refl, refl)
