-- ===== src/Proxy/Attempts.antt =====
-- sushi_proxy.go: how often HandleProxyPass sends a request on, and when it answers the client.
use sushi_gateway.Prelude.{
  ℕ, zero, suc, String, ◌≡◌, refl, sym, ap, subst, ◌≢◌, ◌≤◌, ◌+◌, true, Option, none, some, List,
  [], ◌∷◌, arith, length,
}
use sushi_gateway.Prelude.Int.{pos, negsuc}
use sushi_gateway.Model.{Service, Route, ProxyConfig}
use sushi_gateway.Http.{Request, HttpError, Cookie}
use sushi_gateway.Balancer.Interface.{LoadBalancer}
use sushi_gateway.Proxy.Transport.{Outgoing, Exchange, World, Outside}
use sushi_gateway.Proxy.Pass.{
  Event, slept, cookie_set, sent, wrote, Outcome, returned_nil, panicked, failed, Pass, is_success,
  Next, leave, go_on, back_off, run, proceed, handle_proxy_pass, attempts_allowed, first_pass,
}
use sushi_gateway.Proxy.Steps.{sent_ids, Went, attempt-Went, prepared}

-- nothing was written to the client
unfoldable pub Silent : List Event → Type 0
Silent [] = Unit
Silent (wrote n body ∷ es) = ⊥
Silent (slept d ∷ es) = Silent es
Silent (cookie_set c ∷ es) = Silent es
Silent (sent a id out x ∷ es) = Silent es

-- The last event writes the response of the exchange just before it, which succeeded, and nothing
-- was written earlier.
unfoldable pub Answered : List Event → Type 0
Answered log =
    (a : ℕ) × (id : String) × (out : Outgoing) × (x : Exchange) × (es : List Event) × (log
      ≡ wrote x.status_code x.body ∷ sent a id out (some x) ∷ es)
    × (is_success x ≡ true)
    × Silent es

module _ {σ : Type 0} (lb : LoadBalancer σ) (env : Outside σ) (config : Option ProxyConfig)
    (s : Service) (route : Option Route) (req : Request) where
  pub sent_ids-prepared :
      (a : ℕ) (b : σ) (cookie : Option Cookie) (st : Pass σ)
      → sent_ids (prepared lb env config s route req a b cookie st).log ≡ sent_ids st.log
  unfolding sent_ids back_off
  sent_ids-prepared zero b none st = refl
  sent_ids-prepared zero b (some c) st = refl
  sent_ids-prepared (suc a) b none st = refl
  sent_ids-prepared (suc a) b (some c) st = refl

  Silent-prepared :
      (a : ℕ) (b : σ) (cookie : Option Cookie) (st : Pass σ)
      → Silent st.log
      → Silent (prepared lb env config s route req a b cookie st).log
  unfolding Silent back_off
  Silent-prepared zero b none st h = h
  Silent-prepared zero b (some c) st h = h
  Silent-prepared (suc a) b none st h = h
  Silent-prepared (suc a) b (some c) st h = h

  -- what an attempt and the rest of the loop come to
  pub proceed-cases :
      (S : Next × Pass σ → Type 0) (R : Outcome × Pass σ → Type 0)
      (rest : HttpError → Pass σ → Outcome × Pass σ) (r : Next × Pass σ)
      → S r
      → ((o : Outcome) (st : Pass σ) → S (leave o, st) → R (o, st))
      → ((e : HttpError) (st : Pass σ) → S (go_on e, st) → R (rest e st))
      → R (proceed lb env config s route req rest r)
  unfolding proceed
  proceed-cases S R rest (leave o, st) h f g = f o st h
  proceed-cases S R rest (go_on e, st) h f g = g e st h

  -- what holds of the state at the end, if every attempt keeps it
  pub run-Keeps :
      (P : Pass σ → Type 0)
      → ((a : ℕ) (st : Pass σ) (r : Next × Pass σ)
          → Went lb env config s route req a st r
          → P st
          → P r.1)
      → (k a : ℕ) (last : Option HttpError) (st : Pass σ) → P st
      → P (run lb env config s route req k a last st).1
  unfolding run
  run-Keeps P step zero a last st h = h
  run-Keeps P step (suc k) a last st h =
      proceed-cases (λ r. P r.1) (λ r. P r.1) _ _
        (step a st _ (attempt-Went lb env config s route req a st) h) (λ o st' p. p)
        (λ e st' p. run-Keeps P step k (suc a) (some e) st' p)

  sent_ids-step :
      (a : ℕ) (st : Pass σ) (r : Next × Pass σ)
      → Went lb env config s route req a st r
      → length (sent_ids r.1.log) ≤ suc (length (sent_ids st.log))
  unfolding sent_ids
  sent_ids-step a st _ (Went.early b cookie o h) =
      omega (arith, ap length (sent_ids-prepared a b cookie st))
  sent_ids-step a st _ (Went.no_transport b cookie u e) =
      omega (arith, ap length (sent_ids-prepared a b cookie st))
  sent_ids-step a st _ (Went.aborted b cookie u url out q p) =
      omega (arith, ap length (sent_ids-prepared a b cookie st))
  sent_ids-step a st _ (Went.answered b cookie u url out x q p h) =
      omega (arith, ap length (sent_ids-prepared a b cookie st))
  sent_ids-step a st _ (Went.rejected b cookie u url out x q p h) =
      omega (arith, ap length (sent_ids-prepared a b cookie st))

  sent_ids-run :
      (k a : ℕ) (last : Option HttpError) (st : Pass σ)
      → length (sent_ids (run lb env config s route req k a last st).1.log)
        ≤ k + length (sent_ids st.log)
  unfolding run
  sent_ids-run zero a last st = omega arith
  sent_ids-run (suc k) a last st =
      proceed-cases (λ r. length (sent_ids r.1.log) ≤ suc (length (sent_ids st.log)))
        (λ r. length (sent_ids r.1.log) ≤ suc k + length (sent_ids st.log))
        (λ e. run lb env config s route req k (suc a) (some e)) _
        (sent_ids-step a st _ (attempt-Went lb env config s route req a st))
        (λ o st' p. omega (arith, p))
        (λ e st' p. omega (arith, p, sent_ids-run k (suc a) (some e) st'))

  -- With MaxRetries at 0 or above, HandleProxyPass ends after it has sent the request on at most
  -- MaxRetries + 1 times.
  pub handle_proxy_pass-attempts :
      (w : World σ) (n : ℕ)
      → s.retry_options.max_retries ≡ pos n
      → length (sent_ids (handle_proxy_pass lb env config s route req w).1.log) ≤ suc n
  unfolding handle_proxy_pass sent_ids
  handle_proxy_pass-attempts w n e = omega (
    arith,
    ap attempts_allowed e,
    sent_ids-run (attempts_allowed s.retry_options.max_retries) 0 none
        (first_pass lb env config s route req w),
  )

  -- what the caller sees: nil with the response of an exchange that succeeded, or an error with
  -- nothing written
  abbrev pub OneResponse : Outcome × Pass σ → Type 0
  OneResponse (returned_nil, st) = Answered st.log
  OneResponse (panicked, st) = Silent st.log
  OneResponse (failed e, st) = Silent st.log

  abbrev Honest : Next × Pass σ → Type 0
  Honest (leave o, st) = OneResponse (o, st)
  Honest (go_on e, st) = Silent st.log

  Honest-early :
      (o : Outcome) (st : Pass σ) → o ≢ returned_nil → Silent st.log → OneResponse (o, st)
  Honest-early returned_nil st n h = absurd (n refl)
  Honest-early panicked st n h = h
  Honest-early (failed e) st n h = h

  Honest-step :
      (a : ℕ) (st : Pass σ) (r : Next × Pass σ)
      → Went lb env config s route req a st r
      → Silent st.log
      → Honest r
  unfolding Silent Answered
  Honest-step a st _ (Went.early b cookie o n) h =
      Honest-early o _ n (Silent-prepared a b cookie st h)
  Honest-step a st _ (Went.no_transport b cookie u e) h = Silent-prepared a b cookie st h
  Honest-step a st _ (Went.aborted b cookie u url out q p) h = Silent-prepared a b cookie st h
  Honest-step a st _ (Went.answered b cookie u url out x q p good) h =
      (a, u.id, out, x, _, refl, good, Silent-prepared a b cookie st h)
  Honest-step a st _ (Went.rejected b cookie u url out x q p bad) h =
      Silent-prepared a b cookie st h

  OneResponse-run :
      (k a : ℕ) (last : Option HttpError) (st : Pass σ)
      → Silent st.log
      → OneResponse (run lb env config s route req (suc k) a last st)
  unfolding run
  OneResponse-run zero a last st h =
      proceed-cases Honest OneResponse _ _
        (Honest-step a st _ (attempt-Went lb env config s route req a st) h) (λ o st' p. p)
        (λ e st' p. p)
  OneResponse-run (suc k) a last st h =
      proceed-cases Honest OneResponse _ _
        (Honest-step a st _ (attempt-Went lb env config s route req a st) h) (λ o st' p. p)
        (λ e st' p. OneResponse-run k (suc a) (some e) st' p)

  -- With MaxRetries at 0 or above, HandleProxyPass returns nil exactly when the last thing it did
  -- was to write to the client the response of an upstream that succeeded, and writes nothing
  -- before that nor in any other case.
  pub handle_proxy_pass-OneResponse :
      (w : World σ) (n : ℕ)
      → s.retry_options.max_retries ≡ pos n
      → OneResponse (handle_proxy_pass lb env config s route req w)
  unfolding handle_proxy_pass Silent
  handle_proxy_pass-OneResponse w n e =
      subst
        (λ (k : ℕ).
          OneResponse
            (run lb env config s route req k 0 none (first_pass lb env config s route req w)))
        (sym (ap attempts_allowed e))
        (OneResponse-run n 0 none (first_pass lb env config s route req w) tt)

  -- With MaxRetries below 0, HandleProxyPass returns nil and has done nothing.
  pub handle_proxy_pass-negative :
      (w : World σ) (n : ℕ)
      → s.retry_options.max_retries ≡ negsuc n
      → let (o, st) = handle_proxy_pass lb env config s route req w in
        (o ≡ returned_nil) × (st.log ≡ []) × (st.world ≡ w)
  unfolding handle_proxy_pass run
  handle_proxy_pass-negative w n e =
      subst
        (λ (k : ℕ).
          let (o, st) =
            run lb env config s route req k 0 none (first_pass lb env config s route req w) in
          (o ≡ returned_nil) × (st.log ≡ []) × (st.world ≡ w))
        (sym (ap attempts_allowed e)) (refl, refl, refl)
