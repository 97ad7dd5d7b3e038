-- ===== src/Drain/Tests.antt =====
-- drain.go: the theorems at concrete schedules.
use sushi_gateway.Prelude.{◌≡◌, ◌≤◌, refl, true, [], ◌∷◌, some, get_elem?}
use sushi_gateway.Drain.{
  arrived, admitted, serving, waiting, drained, Tracker, new, advance, start_draining, arrive, go,
  drain, wait, done, ◌⟶*◌, here, next,
}
use sushi_gateway.Drain.Counting.{
  IsCounted, reachable-IsCounted, inside, total, draining-admits_none,
}
use sushi_gateway.Drain.Race.{Drains, admitted-slips_through, wait-can_drain}

-- a request is let in, the drain starts, and the shutdown waits
abbrev let_in : Tracker
let_in = record {
  wg = 0;
  is_draining = true;
  active = 0;
  requests = admitted ∷ [];
  waiter = waiting;
}

let_in_reached : new ⟶* let_in
unfolding new advance start_draining
let_in_reached =
    next
      (next
        (next (next here arrive)
          (go 0 arrived admitted (record new { requests = arrived ∷ [] }) refl refl))
        drain)
      (wait refl)

abbrev quiet : Tracker
quiet = record let_in { waiter = drained }

reachable-IsCounted_example : IsCounted let_in
reachable-IsCounted_example = reachable-IsCounted let_in_reached

draining-admits_none_example :
    (quiet.is_draining ≡ true) × (total inside quiet.requests ≤ total inside let_in.requests)
draining-admits_none_example =
    draining-admits_none {t = let_in} {u = quiet} (next here (done refl refl)) refl

wait-can_drain_example : Drains let_in
wait-can_drain_example = wait-can_drain let_in let_in_reached refl

admitted-slips_through_example :
    (u : Tracker) × (let_in ⟶* u) × (u.waiter ≡ drained) × (get_elem? u.requests 0 ≡ some serving)
admitted-slips_through_example = admitted-slips_through let_in 0 refl refl refl
