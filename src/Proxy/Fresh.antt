-- ===== src/Proxy/Fresh.antt =====
-- sushi_proxy.go with retry_handle.go and the load balancer: which upstreams a request goes to.
use sushi_gateway.Prelude.{
  ℕ, zero, suc, String, ◌≡◌, ◌≢◌, refl, sym, subst, ◌∙◌, inl, inr, true, false, Option, none, some,
  List, [], ◌∷◌, str_eq, Memᴰ, Bool-cases,
}
use sushi_gateway.Model.{Bytes, Service, Route, UpstreamTarget, ProxyConfig}
use sushi_gateway.Http.{Request, HttpError, Cookie}
use sushi_gateway.Retry.{
  new_retry_handle, add_key, mark_failed, get_failed_upstreams, increment_retry,
}
use sushi_gateway.Retry.Failed.{contains-add_key}
use sushi_gateway.Balancer.{contains}
use sushi_gateway.Balancer.Candidates.{contains-Memᴰ, Memᴰ-contains}
use sushi_gateway.Balancer.Interface.{LoadBalancer, Excludes}
use sushi_gateway.Proxy.Select.{chosen}
use sushi_gateway.Proxy.Transport.{World, Outside}
use sushi_gateway.Proxy.Pass.{
  Pass, Next, leave, go_on, back_off, run, handle_proxy_pass, attempts_allowed, first_pass,
}
use sushi_gateway.Proxy.Steps.{sent_ids, Went, attempt-Went, prepared, picks}
use sushi_gateway.Proxy.Attempts.{proceed-cases, sent_ids-prepared}
use sushi_gateway.Proxy.Chosen.{ChosenAt-not_failed, select_upstream_with_retry-chosen}

-- Each time that the request was sent to an upstream again, it had been sent to all of them; the
-- ids are those of the upstreams that it was sent to, the latest first.
unfoldable pub Fresh : List UpstreamTarget → List String → Type 0
Fresh us [] = Unit
Fresh us (id ∷ ids) =
    (Memᴰ id ids → (u : UpstreamTarget) → Memᴰ u us → Memᴰ u.id ids) × Fresh us ids

-- the failed upstreams of the handle are those that the request was sent to
abbrev Remembers : {σ : Type 0} → Pass σ → Type 0
Remembers st =
    (id : String) → contains st.handle.failed_upstreams id ≡ contains (sent_ids st.log) id

contains-empty : (failed : List String) (id : String) → contains failed id ≡ true → failed ≢ []
unfolding contains
contains-empty [] id h e = cc
contains-empty (f ∷ failed) id h e = cc

module _ {σ : Type 0} (lb : LoadBalancer σ) (env : Outside σ) (config : Option ProxyConfig)
    (s : Service) (route : Option Route) (req : Request) (law : Excludes lb) where
  Remembers-prepared :
      (a : ℕ) (b : σ) (cookie : Option Cookie) (st : Pass σ)
      → Remembers st
      → Remembers (prepared lb env config s route req a b cookie st)
  unfolding back_off sent_ids increment_retry
  Remembers-prepared zero b none st h = h
  Remembers-prepared zero b (some c) st h = h
  Remembers-prepared (suc a) b none st h = h
  Remembers-prepared (suc a) b (some c) st h = h

  Remembers-rejected :
      (failed ids : List String) (id : String)
      → ((x : String) → contains failed x ≡ contains ids x)
      → (x : String) → contains (add_key failed id) x ≡ contains (id ∷ ids) x
  unfolding contains
  Remembers-rejected failed ids id h x =
      let same = h x in
      contains-add_key failed id x ∙ elim (Bool-cases (contains ids x)) [
        | inl c ↦
            let c' = same ∙ c in
            elim (Bool-cases (str_eq id x)) [ inl e ↦ simp (c', c, e) | inr e ↦ simp (c', c, e) ]
        | inr c ↦
            let c' = same ∙ c in
            elim (Bool-cases (str_eq id x)) [ inl e ↦ simp (c', c, e) | inr e ↦ simp (c', c, e) ]
      ]

  -- the upstream of the next exchange against those before it
  Fresh-next :
      (a : ℕ) (st : Pass σ) (u : UpstreamTarget) (url : Bytes) (cookie : Option Cookie)
      → (picks lb env config s route req (back_off s a st)).0 ≡ some (chosen (some u) url cookie)
      → Remembers (back_off s a st)
      → Memᴰ u.id (sent_ids (back_off s a st).log)
      → (v : UpstreamTarget) → Memᴰ v s.upstreams
      → Memᴰ v.id (sent_ids (back_off s a st).log)
  unfolding get_failed_upstreams
  Fresh-next a st u url cookie p h again v m =
      let st' = back_off s a st in
      let failed = st'.handle.failed_upstreams in
      let was : contains failed u.id ≡ true =
        h u.id ∙ Memᴰ-contains (sent_ids st'.log) u.id again in
      elim (Bool-cases (contains failed v.id)) [
        | inl c ↦ contains-Memᴰ (sent_ids st'.log) v.id (sym (h v.id) ∙ c)
        | inr c ↦
            let chosen_at =
              select_upstream_with_retry-chosen lb env.lookups config s route req st'.world.balancer
                st'.world.shared failed u url cookie p in
            let not_failed =
              ChosenAt-not_failed lb env.lookups config s route req st'.world.balancer
                st'.world.shared failed u law (contains-empty failed u.id was) (v, m, c)
                chosen_at in
            let clash : true ≡ false = sym was ∙ not_failed in cc
      ]

  abbrev pub FreshPass : Pass σ → Type 0
  FreshPass st = Fresh s.upstreams (sent_ids st.log)

  abbrev FreshNext : Next × Pass σ → Type 0
  FreshNext (leave o, st) = FreshPass st
  FreshNext (go_on e, st) = FreshPass st × Remembers st

  Fresh-prepared :
      (a : ℕ) (b : σ) (cookie : Option Cookie) (st : Pass σ)
      → FreshPass st
      → FreshPass (prepared lb env config s route req a b cookie st)
  Fresh-prepared a b cookie st =
      subst (Fresh s.upstreams) (sym (sent_ids-prepared lb env config s route req a b cookie st))

  -- the exchange of an attempt, added to what was sent before
  Fresh-sent :
      (a : ℕ) (st : Pass σ) (b : σ) (u : UpstreamTarget) (url : Bytes) (cookie : Option Cookie)
      → (picks lb env config s route req (back_off s a st)).0 ≡ some (chosen (some u) url cookie)
      → FreshPass st
      → Remembers st
      → Fresh s.upstreams (u.id ∷ sent_ids (prepared lb env config s route req a b cookie st).log)
  unfolding Fresh
  Fresh-sent a st b u url cookie p f r =
      let bare = sent_ids-prepared lb env config s route req a st.world.balancer none st in
      let full = sent_ids-prepared lb env config s route req a b cookie st in
      (
        subst
            (λ (ids : List String).
              Memᴰ u.id ids → (v : UpstreamTarget) → Memᴰ v s.upstreams → Memᴰ v.id ids)
            (bare ∙ sym full)
            (Fresh-next a st u url cookie p (Remembers-prepared a st.world.balancer none st r)),
        Fresh-prepared a b cookie st f,
      )

  Fresh-step :
      (a : ℕ) (st : Pass σ) (r : Next × Pass σ)
      → Went lb env config s route req a st r
      → FreshPass st
      → Remembers st
      → FreshNext r
  unfolding sent_ids mark_failed
  Fresh-step a st _ (Went.early b cookie o n) f r = Fresh-prepared a b cookie st f
  Fresh-step a st _ (Went.no_transport b cookie u e) f r = Fresh-prepared a b cookie st f
  Fresh-step a st _ (Went.aborted b cookie u url out q p) f r = Fresh-sent a st b u url cookie p f r
  Fresh-step a st _ (Went.answered b cookie u url out x q p good) f r =
      Fresh-sent a st b u url cookie p f r
  Fresh-step a st _ (Went.rejected b cookie u url out x q p bad) f r = (
    Fresh-sent a st b u url cookie p f r,
    Remembers-rejected _ _ u.id (Remembers-prepared a b cookie st r),
  )

  Fresh-run :
      (k a : ℕ) (last : Option HttpError) (st : Pass σ)
      → FreshPass st
      → Remembers st
      → FreshPass (run lb env config s route req k a last st).1
  unfolding run
  Fresh-run zero a last st f r = f
  Fresh-run (suc k) a last st f r =
      proceed-cases lb env config s route req FreshNext (λ r. FreshPass r.1) _ _
        (Fresh-step a st _ (attempt-Went lb env config s route req a st) f r) (λ o st' p. p)
        (λ e st' p. Fresh-run k (suc a) (some e) st' p.0 p.1)

  -- HandleProxyPass sends a request to an upstream for the second time only after it has sent it
  -- to every upstream of the service, if the load balancer's choice for a retry excludes the
  -- failed upstreams while another is left.
  pub handle_proxy_pass-Fresh :
      (w : World σ) → FreshPass (handle_proxy_pass lb env config s route req w).1
  unfolding handle_proxy_pass Fresh sent_ids new_retry_handle contains
  handle_proxy_pass-Fresh w =
      Fresh-run (attempts_allowed s.retry_options.max_retries) 0 none
        (first_pass lb env config s route req w) tt (λ id. refl)
