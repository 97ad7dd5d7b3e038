-- ===== src/Proxy/Accounts.antt =====
-- sushi_proxy.go: what HandleProxyPass leaves in the counts of connections.
use sushi_gateway.Prelude.{
  ℕ, zero, suc, ◌≡◌, refl, ap, ◌∙◌, Option, none, some, List, [], ◌∷◌, arith,
}
use sushi_gateway.Model.{Service, Route, UpstreamTarget, ProxyConfig}
use sushi_gateway.Http.{Request, HttpError, Cookie}
use sushi_gateway.Balancer.Connections.{Connections, increment, get_active_connections}
use sushi_gateway.Balancer.Connections.Balance.{
  SameCounts, HasRoom, increment-SameCounts, starts-ends-SameCounts,
}
use sushi_gateway.Balancer.Interface.{LoadBalancer}
use sushi_gateway.Proxy.Transport.{Outgoing, World, Outside, round_trip}
use sushi_gateway.Proxy.Trips.{counts, KeepsCounts, round_trip-keeps}
use sushi_gateway.Proxy.Pass.{
  Event, slept, cookie_set, sent, wrote, Pass, Next, leave, go_on, back_off, starts, ends, passive,
  run, handle_proxy_pass, attempts_allowed, first_pass,
}
use sushi_gateway.Proxy.Steps.{Went, attempt-Went, prepared, served, unsent}
use sushi_gateway.Proxy.Attempts.{proceed-cases}

-- every exchange of the log came to its end
unfoldable pub Complete : List Event → Type 0
Complete [] = Unit
Complete (sent a id out none ∷ es) = ⊥
Complete (sent a id out (some x) ∷ es) = Complete es
Complete (slept d ∷ es) = Complete es
Complete (cookie_set c ∷ es) = Complete es
Complete (wrote n body ∷ es) = Complete es

-- The counts `after` are those `before`, with one more for the upstream of an exchange in which
-- ServeHTTP panicked, which is then the last event.
unfoldable pub Accounted : Service → List Event → Connections → Connections → Type 0
Accounted s [] after before = SameCounts after before
Accounted s (sent a id out none ∷ es) after before = SameCounts after (increment s.name id before)
Accounted s (sent a id out (some x) ∷ es) after before = SameCounts after before
Accounted s (slept d ∷ es) after before = SameCounts after before
Accounted s (cookie_set c ∷ es) after before = SameCounts after before
Accounted s (wrote n body ∷ es) after before = SameCounts after before

Accounted-Complete :
    (s : Service) (log : List Event) (after before : Connections)
    → Complete log
    → SameCounts after before
    → Accounted s log after before
unfolding Accounted Complete
Accounted-Complete s [] after before c h = h
Accounted-Complete s (sent a id out none ∷ es) after before c h = absurd c
Accounted-Complete s (sent a id out (some x) ∷ es) after before c h = h
Accounted-Complete s (slept d ∷ es) after before c h = h
Accounted-Complete s (cookie_set k ∷ es) after before c h = h
Accounted-Complete s (wrote n body ∷ es) after before c h = h

module _ {σ : Type 0} (lb : LoadBalancer σ) (env : Outside σ) (config : Option ProxyConfig)
    (s : Service) (route : Option Route) (req : Request) where
  shared-prepared :
      (a : ℕ) (b : σ) (cookie : Option Cookie) (st : Pass σ)
      → (prepared lb env config s route req a b cookie st).world.shared ≡ st.world.shared
  unfolding back_off
  shared-prepared zero b none st = refl
  shared-prepared zero b (some c) st = refl
  shared-prepared (suc a) b none st = refl
  shared-prepared (suc a) b (some c) st = refl

  counts-prepared :
      (a : ℕ) (b : σ) (cookie : Option Cookie) (st : Pass σ)
      → SameCounts
          (counts (prepared lb env config s route req a b cookie st).world)
          (counts st.world)
  counts-prepared a b cookie st x y =
      ap (λ sh. get_active_connections sh.connections x y) (shared-prepared a b cookie st)

  Complete-prepared :
      (a : ℕ) (b : σ) (cookie : Option Cookie) (st : Pass σ)
      → Complete st.log
      → Complete (prepared lb env config s route req a b cookie st).log
  unfolding back_off Complete
  Complete-prepared zero b none st h = h
  Complete-prepared zero b (some c) st h = h
  Complete-prepared (suc a) b none st h = h
  Complete-prepared (suc a) b (some c) st h = h

  module _ (before : Connections) (room : HasRoom before) (keeps : KeepsCounts env) where
    abbrev Even : Pass σ → Type 0
    Even st = SameCounts (counts st.world) before × Complete st.log

    abbrev pub AccountedPass : Pass σ → Type 0
    AccountedPass st = Accounted s st.log (counts st.world) before

    abbrev AccountedNext : Next × Pass σ → Type 0
    AccountedNext (leave o, st) = AccountedPass st
    AccountedNext (go_on e, st) = Even st

    Even-prepared :
        (a : ℕ) (b : σ) (cookie : Option Cookie) (st : Pass σ)
        → Even st
        → Even (prepared lb env config s route req a b cookie st)
    Even-prepared a b cookie st h =
        (λ x y. counts-prepared a b cookie st x y ∙ h.0 x y, Complete-prepared a b cookie st h.1)

    Even-Accounted : (st : Pass σ) → Even st → AccountedPass st
    Even-Accounted st h = Accounted-Complete s st.log (counts st.world) before h.1 h.0

    counts-through :
        (u : UpstreamTarget) (w w' : World σ)
        → SameCounts (counts w) before
        → SameCounts (counts w') (counts (starts s u w))
        → SameCounts (counts (ends s u w')) before
    unfolding starts ends
    counts-through u w w' same between x y =
        starts-ends-SameCounts s.name u.id (counts w) (counts w')
          (λ x' y'. omega (arith, same x' y', room x' y')) between x y
        ∙ same x y

    -- the counts when ServeHTTP returns or panics
    counts-served :
        (a : ℕ) (u : UpstreamTarget) (out : Outgoing) (st : Pass σ)
        → SameCounts
            (counts (served lb env config s route req a u out st).1)
            (counts (starts s u st.world))
    counts-served a u out st =
        keeps.serve a (round_trip env s u a) (round_trip-keeps env keeps s u a) out
          (starts s u st.world)

    counts-aborted :
        (a : ℕ) (u : UpstreamTarget) (out : Outgoing) (st : Pass σ)
        → SameCounts (counts st.world) before
        → SameCounts
            (counts (served lb env config s route req a u out st).1)
            (increment s.name u.id before)
    unfolding starts
    counts-aborted a u out st same x y =
        counts-served a u out st x y
        ∙ increment-SameCounts s.name u.id (counts st.world) before same x y

    counts-step :
        (a : ℕ) (st : Pass σ) (r : Next × Pass σ)
        → Went lb env config s route req a st r
        → Even st
        → AccountedNext r
    unfolding passive Accounted Complete
    counts-step a st _ (Went.early b cookie o n) h =
        Even-Accounted (prepared lb env config s route req a b cookie st)
          (Even-prepared a b cookie st h)
    counts-step a st _ (Went.no_transport b cookie u e) h =
        let st' = prepared lb env config s route req a b cookie st in
        let (same, complete) = Even-prepared a b cookie st h in
        Even-Accounted (unsent lb env config s route req u st')
          (counts-through u st'.world (starts s u st'.world) same (λ x y. refl), complete)
    counts-step a st _ (Went.aborted b cookie u url out q p) h =
        counts-aborted a u out (prepared lb env config s route req a b cookie st)
          (Even-prepared a b cookie st h).0
    counts-step a st _ (Went.answered b cookie u url out x q p good) h =
        let st' = prepared lb env config s route req a b cookie st in
        counts-through u st'.world (served lb env config s route req a u out st').1
          (Even-prepared a b cookie st h).0 (counts-served a u out st')
    counts-step a st _ (Went.rejected b cookie u url out x q p bad) h =
        let st' = prepared lb env config s route req a b cookie st in
        let (same, complete) = Even-prepared a b cookie st h in
        (
          counts-through u st'.world (served lb env config s route req a u out st').1 same
              (counts-served a u out st'),
          complete,
        )

    AccountedPass-run :
        (k a : ℕ) (last : Option HttpError) (st : Pass σ)
        → Even st
        → AccountedPass (run lb env config s route req k a last st).1
    unfolding run
    AccountedPass-run zero a last st h = Even-Accounted st h
    AccountedPass-run (suc k) a last st h =
        proceed-cases lb env config s route req AccountedNext (λ r. AccountedPass r.1) _ _
          (counts-step a st _ (attempt-Went lb env config s route req a st) h) (λ o st' p. p)
          (λ e st' p. AccountedPass-run k (suc a) (some e) st' p)

  -- When HandleProxyPass returns, GetActiveConnections gives for every upstream of every service
  -- what it gave before; when proxy.ServeHTTP panics, it gives one more for the upstream of that
  -- exchange, and for every other what it gave before. That is if the requests that start meanwhile
  -- also end, and no count is about to overflow.
  pub handle_proxy_pass-Accounted :
      (w : World σ)
      → HasRoom (counts w)
      → KeepsCounts env
      → let st = (handle_proxy_pass lb env config s route req w).1 in
        Accounted s st.log (counts st.world) (counts w)
  unfolding handle_proxy_pass Complete
  handle_proxy_pass-Accounted w room keeps =
      AccountedPass-run (counts w) room keeps (attempts_allowed s.retry_options.max_retries) 0 none
        (first_pass lb env config s route req w) (λ x y. refl, tt)
