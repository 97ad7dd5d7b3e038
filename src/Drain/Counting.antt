-- ===== src/Drain/Counting.antt =====
-- drain.go: what the counters of a tracker count.
use sushi_gateway.Prelude.{
  ℕ, zero, suc, ◌+◌, ◌≤◌, ◌≡◌, refl, ap, true, some, List, [], ◌∷◌, ◌++◌, arith, get_elem?, set,
}
use sushi_gateway.Drain.{
  Stage, arrived, admitted, added, serving, leaving, Tracker, new, advance, start_draining, Step,
  arrive, go, drain, wait, done, expire, ◌⟶*◌, here, next,
}

-- between wg.Add(1) and wg.Done()
abbrev pub in_group : Stage → ℕ
in_group added = 1
in_group serving = 1
in_group _ = 0

-- between active.Add(1) and active.Add(-1)
abbrev pub in_flight : Stage → ℕ
in_flight serving = 1
in_flight leaving = 1
in_flight _ = 0

-- let in before the drain, and not yet returned
abbrev pub inside : Stage → ℕ
inside admitted = 1
inside added = 1
inside serving = 1
inside leaving = 1
inside _ = 0

abbrev pub total : (Stage → ℕ) → List Stage → ℕ
total f [] = 0
total f (s ∷ ss) = f s + total f ss

total-append :
    (f : Stage → ℕ) (ss : List Stage) (s : Stage) → total f (ss ++ s ∷ []) ≡ total f ss + f s
total-append f [] s = omega arith
total-append f (x ∷ ss) s = omega (arith, total-append f ss s)

pub total-set :
    (f : Stage → ℕ) (ss : List Stage) (i : ℕ) (s s' : Stage)
    → get_elem? ss i ≡ some s
    → total f (set ss i s') + f s ≡ total f ss + f s'
total-set f [] i s s' e = cc
total-set f (x ∷ ss) zero s s' e = let same : f x ≡ f s = ap f (ground arith) in omega arith
total-set f (x ∷ ss) (suc i) s s' e = omega (arith, total-set f ss i s s' e)

pub record IsCounted (t : Tracker) : Type 0 where
  pub group : t.wg ≡ total in_group t.requests
  pub flight : t.active ≡ total in_flight t.requests

pub new-IsCounted : IsCounted new
unfolding new
new-IsCounted = record { group = refl; flight = refl }

advance-IsCounted :
    (t u : Tracker) (i : ℕ) (s s' : Stage)
    → IsCounted t
    → get_elem? t.requests i ≡ some s
    → advance s t ≡ some (s', u)
    → IsCounted (record u { requests = set t.requests i s' })
unfolding advance
advance-IsCounted t u i s s' c e h =
    ground (arith, total-set in_group t.requests i s s' e, total-set in_flight t.requests i s s' e)

pub Step-IsCounted : {t u : Tracker} → Step t u → IsCounted t → IsCounted u
unfolding start_draining
Step-IsCounted {t} arrive c = record {
  group = omega (arith, c.group, total-append in_group t.requests arrived);
  flight = omega (arith, c.flight, total-append in_flight t.requests arrived);
}
Step-IsCounted {t} (go i s s' u e h) c = advance-IsCounted t u i s s' c e h
Step-IsCounted drain c = record { group = c.group; flight = c.flight }
Step-IsCounted (wait h) c = record { group = c.group; flight = c.flight }
Step-IsCounted (done h k) c = record { group = c.group; flight = c.flight }
Step-IsCounted (expire h) c = record { group = c.group; flight = c.flight }

-- Whatever requests arrive and in whatever order their operations run, the wait group and the
-- active count are exactly the requests between their increment and their decrement.
pub reachable-IsCounted : {t : Tracker} → new ⟶* t → IsCounted t
reachable-IsCounted here = new-IsCounted
reachable-IsCounted (next r st) = Step-IsCounted st (reachable-IsCounted r)

advance-inside :
    (t u : Tracker) (i : ℕ) (s s' : Stage)
    → t.is_draining ≡ true
    → get_elem? t.requests i ≡ some s
    → advance s t ≡ some (s', u)
    → (u.is_draining ≡ true) × (total inside (set t.requests i s') ≤ total inside t.requests)
unfolding advance
advance-inside t u i s s' d e h = ground (arith, total-set inside t.requests i s s' e)

-- Once the tracker drains it stays so, and no step lets another request in.
pub Step-drains :
    {t u : Tracker}
    → Step t u
    → t.is_draining ≡ true
    → (u.is_draining ≡ true) × (total inside u.requests ≤ total inside t.requests)
unfolding start_draining
Step-drains {t} arrive d = (d, omega (arith, total-append inside t.requests arrived))
Step-drains {t} (go i s s' u e h) d = advance-inside t u i s s' d e h
Step-drains drain d = (refl, omega arith)
Step-drains (wait h) d = (d, omega arith)
Step-drains (done h k) d = (d, omega arith)
Step-drains (expire h) d = (d, omega arith)

-- From a draining tracker on, the requests that are inside only become fewer.
pub draining-admits_none :
    {t u : Tracker}
    → t ⟶* u
    → t.is_draining ≡ true
    → (u.is_draining ≡ true) × (total inside u.requests ≤ total inside t.requests)
draining-admits_none here d = (d, omega arith)
draining-admits_none (next r st) d =
    let (d', le) = draining-admits_none r d in
    let (d'', le') = Step-drains st d' in (d'', omega arith)
