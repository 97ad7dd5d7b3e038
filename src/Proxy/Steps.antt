-- ===== src/Proxy/Steps.antt =====
-- sushi_proxy.go: the ways in which one attempt of HandleProxyPass can go.
use sushi_gateway.Prelude.{
  ℕ, String, ◌≡◌, refl, ◌≢◌, true, false, inl, inr, Option, none, some, List, [], ◌∷◌, Bool-cases,
  Option-cases,
}
use sushi_gateway.Model.{Bytes, Service, Route, UpstreamTarget, ProxyConfig}
use sushi_gateway.Http.{Request, HttpError, Cookie}
use sushi_gateway.Retry.{mark_failed, get_failed_upstreams}
use sushi_gateway.Balancer.Interface.{LoadBalancer}
use sushi_gateway.Proxy.Select.{Selected, refused, chosen, select_upstream_with_retry}
use sushi_gateway.Proxy.Path.{director_path}
use sushi_gateway.Proxy.Transport.{Url, Outgoing, Exchange, World, Outside, round_trip}
use sushi_gateway.Proxy.Pass.{
  Event, slept, cookie_set, sent, wrote, Outcome, returned_nil, panicked, failed, Pass, is_success,
  direct, upstream_error, Next, leave, go_on, note, note_cookie, with_balancer, back_off, starts,
  ends, passive, settle, judge, exchange, transported, forward, after_select, attempt,
}

-- the ids of the upstreams that the request was sent to, the latest first
unfoldable pub sent_ids : List Event → List String
sent_ids [] = []
sent_ids (sent a id out x ∷ es) = id ∷ sent_ids es
sent_ids (slept d ∷ es) = sent_ids es
sent_ids (cookie_set c ∷ es) = sent_ids es
sent_ids (wrote n body ∷ es) = sent_ids es

module _ {σ : Type 0} (lb : LoadBalancer σ) (env : Outside σ) (config : Option ProxyConfig)
    (s : Service) (route : Option Route) (req : Request) where
  -- what `select_upstream_with_retry` gives at the start of an attempt
  abbrev pub picks : Pass σ → Option Selected × σ
  picks st =
      select_upstream_with_retry lb env.lookups config s route req st.world.balancer st.world.shared
        (get_failed_upstreams st.handle)

  -- the state when an upstream and its URL are known
  abbrev pub prepared : ℕ → σ → Option Cookie → Pass σ → Pass σ
  prepared a b cookie st = note_cookie cookie (with_balancer b (back_off s a st))

  -- what the exchange of an attempt with an upstream comes to, and the world after it
  abbrev pub served : ℕ → UpstreamTarget → Outgoing → Pass σ → Option Exchange × World σ
  served a u out st = env.serve a (round_trip env s u a) out (starts s u st.world)

  -- the states in which an attempt ends, for the state `st` when the upstream is known
  abbrev pub unsent : UpstreamTarget → Pass σ → Pass σ
  unsent u st = record st { world = ends s u (starts s u st.world) }

  abbrev pub abort : ℕ → UpstreamTarget → Outgoing → Pass σ → Pass σ
  abort a u out st = note (sent a u.id out none) (record st { world = (served a u out st).1 })

  abbrev pub recorded : ℕ → UpstreamTarget → Outgoing → Exchange → Pass σ → Pass σ
  recorded a u out x st =
      note (sent a u.id out (some x))
        (record st { world = passive s u x (env.now a) (ends s u (served a u out st).1) })

  abbrev pub answer : ℕ → UpstreamTarget → Outgoing → Exchange → Pass σ → Pass σ
  answer a u out x st =
      let st' = recorded a u out x st in
      note (wrote x.status_code x.body)
        (with_balancer (lb.record_latency s.name u.id (env.duration a) st'.world.balancer) st')

  abbrev pub rejection : ℕ → UpstreamTarget → Outgoing → Exchange → Pass σ → Pass σ
  rejection a u out x st =
      let st' = recorded a u out x st in record st' { handle = mark_failed u.id st'.handle }

  pub data Went (a : ℕ) (st : Pass σ) : Next × Pass σ → Type 0 where
    -- the function returns or panics before it sends anything
    early :
        (b : σ) (cookie : Option Cookie) (o : Outcome)
        → o ≢ returned_nil
        → Went a st (leave o, prepared a b cookie st)
    no_transport :
        (b : σ) (cookie : Option Cookie) (u : UpstreamTarget) (e : HttpError)
        → Went a st (leave (failed e), unsent u (prepared a b cookie st))
    -- ServeHTTP panics
    aborted :
        (b : σ) (cookie : Option Cookie) (u : UpstreamTarget) (url : Bytes) (out : Outgoing)
        → out.url_path ≡ director_path s.base_path req.path
        → (picks (back_off s a st)).0 ≡ some (chosen (some u) url cookie)
        → Went a st (leave panicked, abort a u out (prepared a b cookie st))
    answered :
        (b : σ) (cookie : Option Cookie) (u : UpstreamTarget) (url : Bytes) (out : Outgoing)
        (x : Exchange)
        → out.url_path ≡ director_path s.base_path req.path
        → (picks (back_off s a st)).0 ≡ some (chosen (some u) url cookie)
        → is_success x ≡ true
        → Went a st (leave returned_nil, answer a u out x (prepared a b cookie st))
    rejected :
        (b : σ) (cookie : Option Cookie) (u : UpstreamTarget) (url : Bytes) (out : Outgoing)
        (x : Exchange)
        → out.url_path ≡ director_path s.base_path req.path
        → (picks (back_off s a st)).0 ≡ some (chosen (some u) url cookie)
        → is_success x ≡ false
        → Went a st (go_on upstream_error, rejection a u out x (prepared a b cookie st))

  forward-Went :
      (a : ℕ) (st : Pass σ) (b : σ) (cookie : Option Cookie) (url : Bytes)
      (u : Option UpstreamTarget)
      → (picks (back_off s a st)).0 ≡ some (chosen u url cookie)
      → (t : Option Url)
      → Went a st (forward lb env config s route req a u t (prepared a b cookie st))
  unfolding forward transported exchange judge settle direct
  forward-Went a st b cookie url u h none = Went.early b cookie _ (λ e. cc)
  forward-Went a st b cookie url none h (some t) = elim (Bool-cases (env.transport a)) [
    | inl t_ok ↦ rw t_ok (Went.early b cookie _ (λ e. cc))
    | inr t_no ↦ rw t_no (Went.early b cookie _ (λ e. cc))
  ]
  forward-Went a st b cookie url (some u) h (some t) = elim (Bool-cases (env.transport a)) [
    | inr t_no ↦ rw t_no (Went.no_transport b cookie u _)
    | inl t_ok ↦
        let out = direct s route req t in
        let st' = prepared a b cookie st in
        rw t_ok (elim (Option-cases (served a u out st').0) [
          | inl panics ↦ rw panics (Went.aborted b cookie u url out refl h)
          | inr (x, e) ↦ rw e (elim (Bool-cases (is_success x)) [
            | inl good ↦ rw good (Went.answered b cookie u url out x refl h good)
            | inr bad ↦ rw bad (Went.rejected b cookie u url out x refl h bad)
          ])
        ])
  ]

  pub attempt-Went : (a : ℕ) (st : Pass σ) → Went a st (attempt lb env config s route req a st)
  unfolding attempt after_select
  attempt-Went a st = elim (Option-cases (picks (back_off s a st)).0) [
    | inl e ↦ rw e (Went.early _ none _ (λ e. cc))
    | inr (refused err, e) ↦ rw e (Went.early _ none _ (λ e. cc))
    | inr (chosen u url cookie, e) ↦ rw e (forward-Went a st _ cookie url u e (env.parse_url url))
  ]
