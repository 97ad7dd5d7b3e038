-- ===== src/Drain/Race.antt =====
-- drain.go: what a return of Wait says of the requests.
use native.Mathlib.Decide.{dec_lt}
use sushi_gateway.Prelude.{
  ℕ, zero, suc, ◌+◌, ◌-◌, ◌<◌, ◌≡◌, refl, ◌∙◌, some, List, [], ◌∷◌, arith, get_elem?, set,
  get_elem?-set_self, length,
}
use sushi_gateway.Drain.{
  Stage, admitted, added, serving, leaving, waiting, drained, Tracker, new, advance, start_draining,
  Step, arrive, go, drain, wait, done, expire, ◌⟶*◌, here, next,
}
use sushi_gateway.Drain.Counting.{
  IsCounted, reachable-IsCounted, total, in_group, total-set, Step-IsCounted,
}

advance-waiter : (t u : Tracker) (s s' : Stage) → advance s t ≡ some (s', u) → u.waiter ≡ t.waiter
unfolding advance
advance-waiter t u s s' h = ground arith

-- Wait returns nil only at a moment when no request stands between wg.Add(1) and wg.Done().
pub drained-quiet :
    {t u : Tracker}
    → new ⟶* t
    → Step t u
    → t.waiter ≡ waiting
    → u.waiter ≡ drained
    → total in_group u.requests ≡ 0
unfolding start_draining
drained-quiet r arrive w d = cc
drained-quiet {t} r (go i s s' u e h) w d = let kept = advance-waiter t u s s' h in cc
drained-quiet r drain w d = cc
drained-quiet r (wait h) w d = cc
drained-quiet r (done h k) w d = let c = reachable-IsCounted r in omega (arith, c.group)
drained-quiet r (expire h) w d = cc

get_elem?-lt : (ss : List Stage) (i : ℕ) (s : Stage) → get_elem? ss i ≡ some s → i < length ss
get_elem?-lt [] i s e = cc
get_elem?-lt (x ∷ ss) zero s e = omega arith
get_elem?-lt (x ∷ ss) (suc i) s e = omega (arith, get_elem?-lt ss i s e)

get_elem?-set :
    (ss : List Stage) (i : ℕ) (s s' : Stage)
    → get_elem? ss i ≡ some s
    → get_elem? (set ss i s') i ≡ some s'
get_elem?-set ss i s s' e = get_elem?-set_self ss i s' (get_elem?-lt ss i s e)

-- A request that has passed the check of isDraining, and has not yet counted itself, is not waited
-- for: Wait can return nil and the request can be served after that.
pub admitted-slips_through :
    (t : Tracker) (i : ℕ)
    → get_elem? t.requests i ≡ some admitted
    → t.waiter ≡ waiting
    → t.wg ≡ 0
    → (u : Tracker) × (t ⟶* u) × (u.waiter ≡ drained) × (get_elem? u.requests i ≡ some serving)
unfolding advance
admitted-slips_through t i e w z =
    let t1 = record t { waiter = drained } in
    let u2 = record t1 { wg = t1.wg + 1 } in
    let t2 = record u2 { requests = set t1.requests i added } in
    let u3 = record t2 { active = t2.active + 1 } in
    let t3 = record u3 { requests = set t2.requests i serving } in
    let e2 = get_elem?-set t.requests i admitted added e in
    (
      t3,
      next (next (next here (done w z)) (go i admitted added u2 e refl))
          (go i added serving u3 e2 refl),
      refl,
      get_elem?-set t2.requests i added serving e2,
    )

-- the steps that the requests in the group still take before they leave it
abbrev left : Stage → ℕ
left added = 2
left serving = 1
left _ = 0

-- a request that is in the group, and its next stage
data Leaving : List Stage → Type 0 where
  add : {ss : List Stage} (i : ℕ) → get_elem? ss i ≡ some added → Leaving ss
  serve : {ss : List Stage} (i : ℕ) → get_elem? ss i ≡ some serving → Leaving ss

Leaving-cons : (s : Stage) {ss : List Stage} → Leaving ss → Leaving (s ∷ ss)
Leaving-cons s (add i e) = add (suc i) e
Leaving-cons s (serve i e) = serve (suc i) e

group-Leaving : (ss : List Stage) → 0 < total in_group ss → Leaving ss
group-Leaving [] h = absurd (omega arith)
group-Leaving (added ∷ ss) h = add 0 refl
group-Leaving (serving ∷ ss) h = serve 0 refl
group-Leaving (s ∷ ss) h = Leaving-cons s (group-Leaving ss (omega arith))

-- what a drain can still reach
abbrev pub Drains : Tracker → Type 0
Drains t = (u : Tracker) × (t ⟶* u) × (u.waiter ≡ drained)

prepend : {t u v : Tracker} → Step t u → u ⟶* v → t ⟶* v
prepend st here = next here st
prepend st (next r st') = next (prepend st r) st'

abbrev Progress : Tracker → Type 0
Progress t =
    (u : Tracker) × Step t u
    × IsCounted u
    × (u.waiter ≡ t.waiter)
    × (total left u.requests < total left t.requests)

leave_step : (t : Tracker) → IsCounted t → Leaving t.requests → Progress t
unfolding advance
leave_step t c (add i e) =
    let u = record t { active = t.active + 1 } in
    let st = go i added serving u e refl in
    let size = total-set left t.requests i added serving e in
    (
      record u { requests = set t.requests i serving },
      st,
      Step-IsCounted st c,
      refl,
      omega (arith, size),
    )
leave_step t c (serve i e) =
    let u = record t { wg = t.wg - 1 } in
    let st = go i serving leaving u e refl in
    let size = total-set left t.requests i serving leaving e in
    (
      record u { requests = set t.requests i leaving },
      st,
      Step-IsCounted st c,
      refl,
      omega (arith, size),
    )

Drains-within :
    (k : ℕ) (t : Tracker) → total left t.requests < k → IsCounted t → t.waiter ≡ waiting → Drains t
Drains-within zero t b c w = absurd (omega arith)
Drains-within (suc k) t b c w = elim (dec_lt 0 t.wg) [
  | no quiet ↦ (record t { waiter = drained }, next here (done w (omega arith)), refl)
  | yes busy ↦
      let (u, st, c', same, less) =
        leave_step t c (group-Leaving t.requests (omega (arith, c.group))) in
      let (v, r, d) = Drains-within k u (omega arith) c' (same ∙ w) in (v, prepend st r, d)
]

-- From every reachable state in which Wait is called, some order of the requests' own steps lets
-- Wait return nil: no request is counted for good.
pub wait-can_drain : (t : Tracker) → new ⟶* t → t.waiter ≡ waiting → Drains t
wait-can_drain t r w =
    Drains-within (suc (total left t.requests)) t (omega arith) (reachable-IsCounted r) w
