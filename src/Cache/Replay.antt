-- ===== src/Cache/Replay.antt =====
-- cache.go: what a later request gets from a response that was stored.
use sushi_gateway.Prelude.{
  ℕ, String, ◌≡◌, refl, sym, ap, ◌∙◌, true, Bool-cases, inl, inr, Option, none, some, some_inj,
  List, [], ◌∷◌, ◌++◌, map, str_eq, str_eq_iff,
}
use mathlib.Core.Path.{subst₂}
use sushi_gateway.Prelude.Int.{ℤ}
use sushi_gateway.Model.{Bytes}
use sushi_gateway.Http.{Request}
use sushi_gateway.Http.Response.{
  Headers, Writer, Call, call_write, set, write_header, write, answer_calls,
}
use sushi_gateway.Balancer.LeastConnections.{Float64}
use sushi_gateway.Cache.{
  Recorder, or_before, new_recorder, first_value, value_or, record_call, record_calls,
  CachedResponse, Store, Json, Job, build_cache_key, CachePlugin, is_cacheable, get_ttl,
  get_from_cache, store_in_cache, hit_headers, answer_hit, job_of, answer_miss, answer_lookup,
  execute,
}

-- Two responses are complete, with one status and one body, and the second has the first value of
-- each header of the first.
pub record Replayed (first second : Writer) : Type 0 where
  pub status : ℕ
  pub first_headers : Headers
  pub second_headers : Headers
  pub first_sent : first.sent ≡ some (status, first_headers)
  pub second_sent : second.sent ≡ some (status, second_headers)
  pub same_body : second.body ≡ first.body
  pub same_headers :
      (k v : String) (vs : List String) → first_headers k ≡ v ∷ vs → second_headers k ≡ v ∷ []

-- a writer to which nothing was sent
abbrev pub Fresh : Writer → Type 0
Fresh w = (w.sent ≡ none) × (w.body ≡ [])

-- the recorder has what its writer has been sent
record Mirrors (n : ℕ) (hs : Headers) (r : Recorder) : Type 0 where
  pub status_is : r.status_code ≡ n
  pub headers_is : r.headers ≡ λ k. or_before (hs k) []
  pub sent_is : r.under.sent ≡ some (n, hs)
  pub body_is : r.under.body ≡ r.body

module _ (n : ℕ) (hs : Headers) where
  write-Mirrors :
      (b : Bytes) (r : Recorder) → Mirrors n hs r → Mirrors n hs (record_call (call_write b) r)
  unfolding record_call write
  write-Mirrors b r m = record {
    status_is = m.status_is;
    headers_is = m.headers_is;
    sent_is = rw m.sent_is refl;
    body_is = ap (λ (x : Bytes). x ++ b) m.body_is;
  }

  writes-Mirrors :
      (bs : List Bytes) (r : Recorder)
      → Mirrors n hs r
      → Mirrors n hs (record_calls (map call_write bs) r)
  unfolding record_calls
  writes-Mirrors [] r m = m
  writes-Mirrors (b ∷ bs) r m =
      writes-Mirrors bs (record_call (call_write b) r) (write-Mirrors b r m)

answer-Mirrors :
    (f : Headers → Headers) (n : ℕ) (bs : List Bytes) (w : Writer)
    → Fresh w
    → Mirrors n (f w.header) (record_calls (answer_calls f n bs) (new_recorder w))
unfolding record_calls record_call write_header
answer-Mirrors f n bs w fresh =
    writes-Mirrors n (f w.header) bs _
      (record { status_is = refl; headers_is = refl; sent_is = rw fresh.0; body_is = fresh.1 })

stored_value :
    (n : ℕ) (hs : Headers) (r : Recorder) (stored : String → Option String) (k v : String)
    (vs : List String)
    → Mirrors n hs r
    → stored ≡ (λ j. first_value (r.headers j))
    → hs k ≡ v ∷ vs
    → stored k ≡ some v
stored_value n hs r stored k v vs m e h =
    ap (λ (f : String → Option String). f k) e
    ∙ ap (λ (f : Headers). first_value (f k)) m.headers_is
    ∙ ap (λ (x : List String). first_value (or_before x [])) h

module _ (F : Float64) (R : Store) (J : Json) (decimal : ℤ → String) where
  -- what the plugin relies on: Redis has what was stored last under a key, until it expires, and
  -- the response is encoded and decoded as it was
  pub record Keeps (c : CachedResponse) : Type 0 where
    pub get-store :
        (k : String) (b : Bytes) (ttl : ℤ) (st : R.State) → R.get k (R.store k b ttl st) ≡ some b
    pub encoded : Bytes
    pub marshalled : J.marshal c ≡ some encoded
    pub unmarshalled : J.unmarshal encoded ≡ some c

  get-store_in_cache :
      (j : Job) (st : R.State)
      → Keeps j.response
      → get_from_cache F R J decimal j.key (store_in_cache F R J decimal j st) ≡ some j.response
  unfolding get_from_cache store_in_cache
  get-store_in_cache j st keeps = rw keeps.marshalled (simp (keeps.get-store, keeps.unmarshalled))

  execute-lookup :
      (p : CachePlugin F) (next : Request → List Call) (req : Request) (now : ℕ) (st : R.State)
      (w : Writer) (o : Option CachedResponse)
      → req.method ≡ "GET"
      → get_from_cache F R J decimal (build_cache_key req) st ≡ o
      → execute F R J decimal p next req now st w ≡ answer_lookup F R J decimal p next req now w o
  unfolding execute
  execute-lookup p next req now st w o get h =
      let t : str_eq req.method "GET" ≡ true = (str_eq_iff req.method "GET").1 get in
      rw t (ap (answer_lookup F R J decimal p next req now w) h)

  hit-Replayed :
      (n now : ℕ) (hs : Headers) (r : Recorder) (c : CachedResponse) (w : Writer)
      → Mirrors n hs r
      → c.status_code ≡ r.status_code
      → c.headers ≡ (λ k. first_value (r.headers k))
      → c.body ≡ r.body
      → Fresh w
      → Replayed r.under (answer_hit F R J decimal now c w)
  unfolding answer_hit write write_header
  hit-Replayed n now hs r c w m es eh eb fresh = record {
    status = n;
    first_headers = hs;
    second_headers = hit_headers F R J decimal now c w.header;
    first_sent = m.sent_is;
    second_sent =
        rw (fresh.0)
          (ap (λ (x : ℕ). some (x, hit_headers F R J decimal now c w.header)) (es ∙ m.status_is));
    same_body = ap (λ (x : Bytes). x ++ c.body) fresh.1 ∙ eb ∙ sym m.body_is;
    same_headers = λ k v vs h. ap (value_or _) (stored_value n hs r c.headers k v vs m eh h);
  }

  module _ (p : CachePlugin F) (next : Request → List Call) (req : Request) (now : ℕ) (st : R.State)
      (w : Writer) where
    -- the recorder after the next handler, on a miss
    abbrev recorder : Recorder
    recorder =
        record_calls (next req) (new_recorder (record w { header = set "X-Cache" "MISS" w.header }))

    job_of-some :
        (key : String) (r : Recorder) (j : Job)
        → job_of F R J decimal p key now r ≡ some j
        → j ≡ record {
          key = key;
          ttl = get_ttl F p;
          response = record {
            status_code = r.status_code;
            headers = λ k. first_value (r.headers k);
            body = r.body;
            cached_at = now;
          };
        }
    unfolding job_of
    job_of-some key r j e = elim (Bool-cases (is_cacheable F p r.status_code r.headers)) [
      | inl h ↦ sym (some_inj (rw h at e))
      | inr h ↦ absurd (none_some (rw h at e))
    ]
      where
        none_some : {A : Type 0} {a : A} → none ≡ some a → ⊥
        none_some e = cc

    -- A response that one GET request has stored is what a later GET request with the same method,
    -- host and URI gets, whatever the next handler would do then: the same status, the same body,
    -- and of every header that was sent the first value, also of X-Cache. The first handler sends
    -- one status, after its headers and before its body; Redis still has the entry.
    pub execute-Replayed :
        (f : Headers → Headers) (n : ℕ) (bs : List Bytes) (j : Job)
        → Keeps j.response
        → next req ≡ answer_calls f n bs
        → req.method ≡ "GET"
        → get_from_cache F R J decimal (build_cache_key req) st ≡ none
        → Fresh w
        → (execute F R J decimal p next req now st w).1 ≡ some j
        → (next2 : Request → List Call) (req2 : Request) (now2 : ℕ) (w2 : Writer)
        → req2.method ≡ "GET"
        → build_cache_key req2 ≡ build_cache_key req
        → Fresh w2
        → Replayed
            (execute F R J decimal p next req now st w).0
            (execute F R J decimal p next2 req2 now2 (store_in_cache F R J decimal j st) w2).0
    unfolding answer_lookup answer_miss
    execute-Replayed f n bs j keeps calls get miss fresh job next2 req2 now2 w2 get2 same fresh2 =
        let r = recorder in
        let first = execute-lookup p next req now st w none get miss in
        let made =
          job_of-some (build_cache_key req) r j
            (ap (λ (x : Writer × Option Job). x.1) (sym first) ∙ job) in
        let key : j.key ≡ build_cache_key req = ap (λ (x : Job). x.key) made in
        let stored : get_from_cache F R J decimal (build_cache_key req2)
              (store_in_cache F R J decimal j st)
            ≡ some j.response =
          ap (λ (k : String). get_from_cache F R J decimal k (store_in_cache F R J decimal j st))
            (same ∙ sym key)
          ∙ get-store_in_cache j st keeps in
        let second =
          execute-lookup p next2 req2 now2 (store_in_cache F R J decimal j st) w2 (some j.response)
            get2 stored in
        let mirrors : Mirrors n (f (set "X-Cache" "MISS" w.header)) r =
          rw calls
            (answer-Mirrors f n bs (record w { header = set "X-Cache" "MISS" w.header }) fresh) in
        subst₂ Replayed (sym (ap (λ (x : Writer × Option Job). x.0) first))
          (sym (ap (λ (x : Writer × Option Job). x.0) second))
          (hit-Replayed n now2 (f (set "X-Cache" "MISS" w.header)) r j.response w2 mirrors
            (ap (λ (x : Job). x.response.status_code) made)
            (ap (λ (x : Job). x.response.headers) made) (ap (λ (x : Job). x.response.body) made)
            fresh2)
