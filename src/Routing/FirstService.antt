-- ===== src/Routing/FirstService.antt =====
-- request.go, GetServiceAndRouteFromRequest: what each of its three outcomes means.
use mathlib.Core.List.{append-nil}
use sushi_gateway.Prelude.{
  ℕ, ◌≡◌, ◌≢◌, refl, sym, ap, ◌∙◌, ◌↔◌, inl, inr, true, false, Option, none, some, List, [], ◌∷◌,
  ◌++◌, Memᴰ, Memᴰ-cases, arith, Bool-cases, Option-cases, some_inj, ◌==◌, ==_iff, subst,
}
use sushi_gateway.Prelude.Text.{cut_prefix, cut_prefix-some, cut_prefix-append}
use sushi_gateway.Model.{Bytes, Service, Route}
use sushi_gateway.Routing.{
  Request, slash, Outcome, found, route_not_found, service_not_found, accepts, find_route, within,
  route_path_in, in_service, dispatch, get_service_and_route_from_request,
}

-- The request's path lies under the base path of the service, and the routes see `route_path`.
pub data Under (s : Service) (path : Bytes) : Bytes → Type 0 where
  base : path ≡ s.base_path → Under s path (slash ∷ [])
  below : {rest : Bytes} → path ≡ s.base_path ++ slash ∷ rest → Under s path (slash ∷ rest)

within-Under :
    (s : Service) (path rp : Bytes) (o : Option Bytes)
    → cut_prefix s.base_path path ≡ o
    → within o ≡ some rp
    → Under s path rp
unfolding within
within-Under s path rp none e h = cc
within-Under s path rp (some []) e h =
    subst (Under s path) (some_inj h)
      (base (cut_prefix-some s.base_path path [] e ∙ append-nil s.base_path))
within-Under s path rp (some (c ∷ rest)) e h = elim (Bool-cases (c == slash)) [
  | inl q ↦
      let at : c ≡ slash = (==_iff c slash).0 q in
      let same : c ∷ rest ≡ rp = some_inj (rw q at h) in
      subst (Under s path) (ap (λ (x : ℕ). x ∷ rest) (sym at) ∙ same) (
        below (
          cut_prefix-some s.base_path path (c ∷ rest) e
          ∙ ap (λ (x : ℕ). s.base_path ++ x ∷ rest) at))
  | inr q ↦ let wrong = rw q at h in cc
]

route_path_in-Under :
    (s : Service) (path rp : Bytes) → route_path_in s path ≡ some rp → Under s path rp
unfolding route_path_in
route_path_in-Under s path rp h = within-Under s path rp (cut_prefix s.base_path path) refl h

Under-route_path_in :
    (s : Service) (path rp : Bytes) → Under s path rp → route_path_in s path ≡ some rp
unfolding route_path_in within
Under-route_path_in s path rp (base e) =
    rw (e ∙ sym (append-nil s.base_path)) (rw (cut_prefix-append s.base_path []))
Under-route_path_in s path rp (below {rest = rest} e) =
    rw e (rw (cut_prefix-append s.base_path (slash ∷ rest)))

-- The lookup's result with the reason for it.
pub data Reason (req : Request) : List Service → Outcome → Type 0 where
  none_left : Reason req [] service_not_found
  passed_over :
      {s : Service} {ss : List Service} {r : Outcome}
      → ((rp : Bytes) → ¬ (Under s req.path rp))
      → Reason req ss r
      → Reason req (s ∷ ss) r
  first_route :
      {s : Service} {ss : List Service} {rp : Bytes} {r : Route} (before after : List Route)
      → Under s req.path rp
      → s.routes ≡ before ++ r ∷ after
      → ((q : Route) → Memᴰ q before → accepts req rp q ≡ false)
      → accepts req rp r ≡ true
      → Reason req (s ∷ ss) (found s r)
  no_route :
      {s : Service} {ss : List Service} {rp : Bytes}
      → Under s req.path rp
      → ((q : Route) → Memᴰ q s.routes → accepts req rp q ≡ false)
      → Reason req (s ∷ ss) (route_not_found rp)

-- the routes before the first that accepts
record FirstAccepted (req : Request) (rp : Bytes) (rs : List Route) (r : Route) : Type 0 where
  before : List Route
  after : List Route
  listed : rs ≡ before ++ r ∷ after
  refused : (q : Route) → Memᴰ q before → accepts req rp q ≡ false
  accepted : accepts req rp r ≡ true

find_route-some :
    (req : Request) (rp : Bytes) (rs : List Route) (r : Route)
    → find_route req rp rs ≡ some r
    → FirstAccepted req rp rs r
unfolding find_route
find_route-some req rp [] r h = cc
find_route-some req rp (x ∷ rs) r h = elim (Bool-cases (accepts req rp x)) [
  | inl e ↦
      let same : x ≡ r = some_inj (rw e at h) in
      record {
        before = [];
        after = rs;
        listed = ap (λ y. y ∷ rs) same;
        refused = λ q m. elim m [ ];
        accepted = ap (accepts req rp) (sym same) ∙ e;
      }
  | inr e ↦ later e (find_route-some req rp rs r (rw e at h))
]
  where
    later : accepts req rp x ≡ false → FirstAccepted req rp rs r → FirstAccepted req rp (x ∷ rs) r
    later e f = record {
      before = x ∷ f.before;
      after = f.after;
      listed = ap (◌∷◌ x) f.listed;
      refused = λ q m. elim (Memᴰ-cases m) [
        | inl same ↦ ap (accepts req rp) same ∙ e
        | inr n ↦ f.refused q n
      ];
      accepted = f.accepted;
    }

find_route-none :
    (req : Request) (rp : Bytes) (rs : List Route)
    → find_route req rp rs ≡ none
    → (q : Route) → Memᴰ q rs
    → accepts req rp q ≡ false
unfolding find_route
find_route-none req rp [] h q m = elim m [ ]
find_route-none req rp (x ∷ rs) h q m = elim (Bool-cases (accepts req rp x)) [
  | inl e ↦ let wrong = rw e at h in cc
  | inr e ↦ elim (Memᴰ-cases m) [
    | inl same ↦ ap (accepts req rp) same ∙ e
    | inr n ↦ find_route-none req rp rs (rw e at h) q n
  ]
]

find_route-first :
    (req : Request) (rp : Bytes) (before after : List Route) (r : Route)
    → ((q : Route) → Memᴰ q before → accepts req rp q ≡ false)
    → accepts req rp r ≡ true
    → find_route req rp (before ++ r ∷ after) ≡ some r
unfolding find_route
find_route-first req rp [] after r h a = rw a
find_route-first req rp (x ∷ before) after r h a =
    rw (h x (Memᴰ.head refl)) (find_route-first req rp before after r (λ q m. h q (Memᴰ.tail m)) a)

find_route-refused :
    (req : Request) (rp : Bytes) (rs : List Route)
    → ((q : Route) → Memᴰ q rs → accepts req rp q ≡ false)
    → find_route req rp rs ≡ none
unfolding find_route
find_route-refused req rp [] h = refl
find_route-refused req rp (x ∷ rs) h =
    rw (h x (Memᴰ.head refl)) (find_route-refused req rp rs (λ q m. h q (Memᴰ.tail m)))

dispatch-Reason :
    (req : Request) (s : Service) (ss : List Service) (o : Option Bytes) (rest : Outcome)
    → route_path_in s req.path ≡ o
    → Reason req ss rest
    → Reason req (s ∷ ss) (dispatch req s o rest)
unfolding dispatch
dispatch-Reason req s ss none rest e h =
    passed_over (λ rp u. let wrong = sym e ∙ Under-route_path_in s req.path rp u in cc) h
dispatch-Reason req s ss (some rp) rest e h = go (find_route req rp s.routes) refl
  where
    under : Under s req.path rp
    under = route_path_in-Under s req.path rp e

    go :
        (o : Option Route)
        → find_route req rp s.routes ≡ o
        → Reason req (s ∷ ss) (in_service s rp o)
    go none q = no_route under (find_route-none req rp s.routes q)
    go (some r) q =
        let f = find_route-some req rp s.routes r q in
        first_route f.before f.after under f.listed f.refused f.accepted

lookup-Reason :
    (ss : List Service) (req : Request) → Reason req ss (get_service_and_route_from_request ss req)
unfolding get_service_and_route_from_request
lookup-Reason [] req = none_left
lookup-Reason (s ∷ ss) req =
    dispatch-Reason req s ss (route_path_in s req.path) (get_service_and_route_from_request ss req)
      refl (lookup-Reason ss req)

not-Under :
    (s : Service) (path : Bytes)
    → ((rp : Bytes) → ¬ (Under s path rp))
    → route_path_in s path ≡ none
not-Under s path h = elim (Option-cases (route_path_in s path)) [
  | inl e ↦ e
  | inr (rp, e) ↦ absurd (h rp (route_path_in-Under s path rp e))
]

Reason-lookup :
    {req : Request} {ss : List Service} {r : Outcome}
    → Reason req ss r
    → get_service_and_route_from_request ss req ≡ r
unfolding get_service_and_route_from_request dispatch
Reason-lookup none_left = refl
Reason-lookup {req} (passed_over {s = s} h k) = rw (not-Under s req.path h) (Reason-lookup k)
Reason-lookup {req} (first_route {s = s} {rp = rp} {r = r} before after u e h a) =
    rw (Under-route_path_in s req.path rp u)
      (ap (in_service s rp) (ap (find_route req rp) e ∙ find_route-first req rp before after r h a))
Reason-lookup {req} (no_route {s = s} {rp = rp} u h) =
    rw (Under-route_path_in s req.path rp u)
      (ap (in_service s rp) (find_route-refused req rp s.routes h))

-- The lookup decides by the first service under whose base path the request lies: the first of its
-- routes that accepts the request is found, or no route is; later services are not tried. If there
-- is no such service, none is found.
pub get_service_and_route_from_request_iff :
    (ss : List Service) (req : Request) (r : Outcome)
    → (get_service_and_route_from_request ss req ≡ r) ↔ Reason req ss r
get_service_and_route_from_request_iff ss req r =
    (λ e. subst (Reason req ss) e (lookup-Reason ss req), Reason-lookup)

root-not-Under :
    (s : Service) (path : Bytes) (c : ℕ) (rest : Bytes) {rp : Bytes}
    → s.base_path ≡ slash ∷ []
    → path ≡ slash ∷ c ∷ rest
    → c ≢ slash
    → ¬ (Under s path rp)
root-not-Under s path c rest b p h (base e) = let wrong = sym p ∙ e ∙ b in cc
root-not-Under s path c rest b p h (below {rest = r} e) =
    let at : slash ∷ c ∷ rest ≡ slash ∷ slash ∷ r =
      sym p ∙ e ∙ ap (λ (x : Bytes). x ++ slash ∷ r) b in
    h (ground arith)

-- A service whose base path is "/" is passed over by every request for a path that goes on after
-- the slash with anything but another slash.
pub root_base_path-passed_over :
    (s : Service) (ss : List Service) (req : Request) (c : ℕ) (rest : Bytes)
    → s.base_path ≡ slash ∷ []
    → req.path ≡ slash ∷ c ∷ rest
    → c ≢ slash
    → get_service_and_route_from_request (s ∷ ss) req ≡ get_service_and_route_from_request ss req
root_base_path-passed_over s ss req c rest b p h =
    Reason-lookup
      (passed_over (λ rp. root-not-Under s req.path c rest b p h) (lookup-Reason ss req))
