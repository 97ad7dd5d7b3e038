-- ===== src/Health/Lookup.antt =====
-- health.go: what a read of the health map returns after each of the writes.
use sushi_gateway.Prelude.{
  ℕ, String, ◌≡◌, Bool, ◌&&◌, Option, some, arith, str_eq, str_eq_iff, str_eq_refl, if◌then◌else◌,
  Bool-cases, ap, sym, subst, ◌∙◌, inl, inr, List, [], ◌∷◌,
}
use mathlib.Core.List.{Memᴰ}
use sushi_gateway.Prelude.Int.{ℤ}
use sushi_gateway.Prelude.Dict.{Dict, or_default, put}
use sushi_gateway.Model.{Service, UpstreamTarget}
use sushi_gateway.Health.{
  HealthMap, HealthStatus, UpstreamHealthState, not_available, next_state, process_health_result,
  get_upstream_health_state, get_health_status, fresh, service_map, put_state, initialize,
  initialize_upstreams, update_health_status, forced,
}

pub service_map-get :
    (hm : HealthMap) (name id : String)
    → service_map hm name id ≡ get_upstream_health_state hm name id
unfolding get_upstream_health_state
service_map-get hm name id = ground arith

-- A write is read back at its own service and upstream, and nowhere else.
pub get-put_state :
    (name id n i : String) (st : UpstreamHealthState) (hm : HealthMap)
    → get_upstream_health_state (put_state name id st hm) n i
      ≡ (if str_eq n name && str_eq i id then some st else get_upstream_health_state hm n i)
unfolding get_upstream_health_state
get-put_state name id n i st hm = elim (Bool-cases (str_eq n name)) [
  | inl e ↦ rw e (
      ap {B = Option UpstreamHealthState} (λ x. if str_eq i id then some st else x)
        (service_map-get hm name i
          ∙ ap (λ m. get_upstream_health_state hm m i) (sym ((str_eq_iff n name).0 e))))
  | inr e ↦ rw e
]

pub get-process_health_result :
    (name id n i : String) (ok : Bool) (ht ut : ℤ) (now : ℕ) (hm : HealthMap)
    → get_upstream_health_state (process_health_result name id ok ht ut now hm) n i ≡ (
        if str_eq n name && str_eq i id
        then some (
            next_state ok ht ut now
              (or_default (get_upstream_health_state hm name id) (fresh not_available)))
        else get_upstream_health_state hm n i)
unfolding process_health_result
get-process_health_result name id n i ok ht ut now hm = ground (
  arith,
  get-put_state name id n i
      (next_state ok ht ut now (or_default (service_map hm name id) (fresh not_available))) hm,
  service_map-get hm name id,
)

pub status-process_health_result :
    (name id : String) (ok : Bool) (ht ut : ℤ) (now : ℕ) (hm : HealthMap)
    → get_health_status (process_health_result name id ok ht ut now hm) name id
      ≡ (next_state ok ht ut now
          (or_default (get_upstream_health_state hm name id) (fresh not_available))).status
unfolding get_health_status
status-process_health_result name id ok ht ut now hm = ground (
  arith,
  get-process_health_result name id name id ok ht ut now hm,
  str_eq_refl name,
  str_eq_refl id,
)

-- a listed upstream is `not_available`, and another entry stays as it is
abbrev IsFreshAt : Dict UpstreamHealthState → String → Type 0
IsFreshAt m id = m id ≡ some (fresh not_available)

put-IsFreshAt :
    (m : Dict UpstreamHealthState) (i j : String)
    → IsFreshAt m i
    → IsFreshAt (put j (fresh not_available) m) i
put-IsFreshAt m i j h = ground (arith, str_eq_iff i j)

initialize_upstreams-keeps :
    (us : List UpstreamTarget) (m : Dict UpstreamHealthState) (i : String)
    → IsFreshAt m i
    → IsFreshAt (initialize_upstreams us m) i
unfolding initialize_upstreams
initialize_upstreams-keeps [] m i h = h
initialize_upstreams-keeps (u ∷ us) m i h =
    initialize_upstreams-keeps us (put u.id (fresh not_available) m) i (put-IsFreshAt m i u.id h)

initialize_upstreams-fresh :
    (us : List UpstreamTarget) (m : Dict UpstreamHealthState) (u : UpstreamTarget)
    → Memᴰ u us
    → IsFreshAt (initialize_upstreams us m) u.id
unfolding initialize_upstreams
initialize_upstreams-fresh [] m u h = elim h [ ]
initialize_upstreams-fresh (v ∷ us) m u (Memᴰ.head e) =
    initialize_upstreams-keeps us (put v.id (fresh not_available) m) u.id
      (ground (arith, str_eq_refl v.id))
initialize_upstreams-fresh (v ∷ us) m u (Memᴰ.tail h) =
    initialize_upstreams-fresh us (put v.id (fresh not_available) m) u h

initialize_upstreams-get :
    (us : List UpstreamTarget) (name n i : String) (hm : HealthMap)
    → get_upstream_health_state hm n i ≡ some (fresh not_available)
    → get_upstream_health_state (put name (initialize_upstreams us (service_map hm name)) hm) n i
      ≡ some (fresh not_available)
unfolding get_upstream_health_state
initialize_upstreams-get us name n i hm h = elim (Bool-cases (str_eq n name)) [
  | inl e ↦
      let same : n ≡ name = (str_eq_iff n name).0 e in
      rw e (
        initialize_upstreams-keeps us (service_map hm name) i
          (service_map-get hm name i ∙ ap (λ m. get_upstream_health_state hm m i) (sym same) ∙ h))
  | inr e ↦ rw e h
]

initialize-keeps :
    (ss : List Service) (n i : String) (hm : HealthMap)
    → get_upstream_health_state hm n i ≡ some (fresh not_available)
    → get_upstream_health_state (initialize ss hm) n i ≡ some (fresh not_available)
unfolding initialize
initialize-keeps [] n i hm h = h
initialize-keeps (s ∷ ss) n i hm h =
    initialize-keeps ss n i
      (put s.name (initialize_upstreams s.upstreams (service_map hm s.name)) hm)
      (initialize_upstreams-get s.upstreams s.name n i hm h)

initialize-fresh :
    (ss : List Service) (s : Service) (u : UpstreamTarget) (hm : HealthMap)
    → Memᴰ s ss
    → Memᴰ u s.upstreams
    → get_upstream_health_state (initialize ss hm) s.name u.id ≡ some (fresh not_available)
unfolding initialize get_upstream_health_state
initialize-fresh [] s u hm h k = elim h [ ]
initialize-fresh (t ∷ ss) s u hm (Memᴰ.head e) k = rw e (
    initialize-keeps ss t.name u.id
      (put t.name (initialize_upstreams t.upstreams (service_map hm t.name)) hm)
      (rw (str_eq_refl t.name) (
        initialize_upstreams-fresh t.upstreams (service_map hm t.name) u
          (subst (λ (x : Service). Memᴰ u x.upstreams) e k))))
initialize-fresh (t ∷ ss) s u hm (Memᴰ.tail h) k =
    initialize-fresh ss s u
      (put t.name (initialize_upstreams t.upstreams (service_map hm t.name)) hm) h k

-- After Initialize every upstream of every configured service reads as not yet checked, whatever
-- the map held before.
pub initialize-not_available :
    (ss : List Service) (s : Service) (u : UpstreamTarget) (hm : HealthMap)
    → Memᴰ s ss
    → Memᴰ u s.upstreams
    → get_health_status (initialize ss hm) s.name u.id ≡ not_available
unfolding get_health_status
initialize-not_available ss s u hm h k = rw (initialize-fresh ss s u hm h k, get_health_status)

-- UpdateHealthStatus sets the status of its own upstream and of no other, restarts the counters
-- if the status changes, and leaves the whole state alone if it does not.
pub update_health_status_lem :
    (name id n i : String) (s : HealthStatus) (hm : HealthMap)
    → get_upstream_health_state (update_health_status name id s hm) n i ≡ (
        if str_eq n name && str_eq i id
        then some (forced s (get_upstream_health_state hm name id))
        else get_upstream_health_state hm n i)
unfolding update_health_status
update_health_status_lem name id n i s hm =
    rw (← service_map-get hm name id)
      (get-put_state name id n i (forced s (service_map hm name id)) hm)
