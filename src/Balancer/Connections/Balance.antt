-- ===== src/Balancer/Connections/Balance.antt =====
-- load_balancer.go: what the counter of active connections shows after any sequence of calls.
use native.Mathlib.Nat.{mod-eq_of_lt}
use sushi_gateway.Prelude.{
  ℕ, suc, String, ◌≡◌, inl, inr, refl, subst, sym, ap, ◌∙◌, ◌+◌, ◌-◌, ◌<◌, ◌&&◌, Bool, true, Option,
  none, some, List, [], ◌∷◌, arith, str_eq, str_eq_iff, if◌then◌else◌, Bool-cases, Option-cases,
}
use sushi_gateway.Prelude.Int.{half_mod, inc, dec}
use sushi_gateway.Prelude.Dict.{Dict, or_default, empty, put}
use sushi_gateway.Balancer.Connections.{
  Connections, increment, decrement, decrement_in, get_active_connections, count_in, is_above_0,
}

-- IncrementActiveConnections or DecrementActiveConnections, for a service and an upstream
pub data Call : Type 0 where
  starts ends : String → String → Call

unfoldable pub apply : Call → Connections → Connections
apply (starts s u) conns = increment s u conns
apply (ends s u) conns = decrement s u conns

unfoldable pub apply_all : List Call → Connections → Connections
apply_all [] conns = conns
apply_all (c ∷ cs) conns = apply_all cs (apply c conns)

-- what a number does at a call of the given service and upstream; 0 has no predecessor
abbrev pub tally : String → String → Call → ℕ → ℕ
tally s u (starts s' u') n = if str_eq s s' && str_eq u u' then suc n else n
tally s u (ends s' u') n = if str_eq s s' && str_eq u u' then n - 1 else n

abbrev pub tally_all : String → String → List Call → ℕ → ℕ
tally_all s u [] n = n
tally_all s u (c ∷ cs) n = tally_all s u cs (tally s u c n)

-- the number stays below `b` at each call
abbrev pub StaysBelow : ℕ → String → String → List Call → ℕ → Type 0
StaysBelow b s u [] n = n < b
StaysBelow b s u (c ∷ cs) n = (n < b) × StaysBelow b s u cs (tally s u c n)

count_in-default :
    (o : Option (Dict ℕ)) (u : String) → count_in o u ≡ or_default (or_default o empty u) 0
unfolding count_in
count_in-default none u = refl
count_in-default (some counts) u = refl

count_in-put :
    (counts : Dict ℕ) (u u' : String) (n : ℕ)
    → count_in (some (put u' n counts)) u ≡ (if str_eq u u' then n else count_in (some counts) u)
unfolding count_in
count_in-put counts u u' n = elim (Bool-cases (str_eq u u')) [ inl e ↦ simp e | inr e ↦ simp e ]

abbrev is_for : String → String → String → String → Bool
is_for s u s' u' = str_eq s s' && str_eq u u'

inc_below : (n : ℕ) → n + 1 < half_mod → inc n ≡ suc n
inc_below n h = mod-eq_of_lt (omega arith) ∙ omega arith

dec_below : (n : ℕ) → n < half_mod → (if is_above_0 n then dec n else n) ≡ n - 1
dec_below n h = ground arith

increment_lem :
    (s u s' u' : String) (conns : Connections)
    → get_active_connections (increment s' u' conns) s u ≡ (
        if is_for s u s' u'
        then inc (get_active_connections conns s u)
        else get_active_connections conns s u)
unfolding increment get_active_connections
increment_lem s u s' u' conns = elim (Bool-cases (str_eq s s')) [
  | inr e ↦ simp e
  | inl e ↦
      let same : s ≡ s' = (str_eq_iff s s').0 e in
      let at : (x : String)
          → or_default (or_default (conns s') empty x) 0 ≡ get_active_connections conns s x =
        λ x.
          sym (count_in-default (conns s') x)
          ∙ ap (λ (k : String). count_in (conns k) x) (sym same) in
      simp (e, count_in-put)
        (elim (Bool-cases (str_eq u u')) [
          | inl f ↦ simp f (
              ap (λ (n : ℕ). inc n)
                (at u' ∙ ap (get_active_connections conns s) (sym ((str_eq_iff u u').0 f))))
          | inr f ↦ simp f (at u)
        ])
]

decrement_lem :
    (s u s' u' : String) (conns : Connections)
    → get_active_connections (decrement s' u' conns) s u ≡ (
        if is_for s u s' u'
        then if is_above_0 (get_active_connections conns s u)
          then dec (get_active_connections conns s u)
          else get_active_connections conns s u
        else get_active_connections conns s u)
unfolding decrement decrement_in count_in get_active_connections
decrement_lem s u s' u' conns = elim (Bool-cases (str_eq s s')) [
  | inl e ↦ from_some s u s' u' conns ((str_eq_iff s s').0 e) (conns s') refl
  | inr e ↦ elim (Option-cases (conns s')) [
    | inl none_there ↦ simp (e, none_there)
    | inr (counts, there) ↦
        simp (e, there)
          (elim (Bool-cases (is_above_0 (or_default (counts u') 0))) [
            | inl a ↦ simp (a, e)
            | inr a ↦ simp a
          ])
  ]
]
  where
    from_some :
        (s u s' u' : String) (conns : Connections)
        → s ≡ s'
        → (o : Option (Dict ℕ)) → conns s' ≡ o
        → count_in (decrement_in o s' u' conns s) u ≡ (
            if is_for s u s' u'
            then if is_above_0 (count_in (conns s) u)
              then dec (count_in (conns s) u)
              else count_in (conns s) u
            else count_in (conns s) u)
    from_some s u s' u' conns same none e =
        let c : conns s ≡ none = ap conns same ∙ e in
        simp c (elim (Bool-cases (is_for s u s' u')) [ inl f ↦ simp f | inr f ↦ simp f ])
    from_some s u s' u' conns same (some counts) e =
        let c : conns s ≡ some counts = ap conns same ∙ e in
        let k : str_eq s s' ≡ true = (str_eq_iff s s').1 same in
        elim (Bool-cases (str_eq u u')) [
          | inr f ↦ elim (Bool-cases (is_above_0 (or_default (counts u') 0))) [
            | inl a ↦ simp (c, k, f, a)
            | inr a ↦ simp (c, k, f, a)
          ]
          | inl f ↦
              let n : count_in (some counts) u ≡ or_default (counts u') 0 =
                ap (count_in (some counts)) ((str_eq_iff u u').0 f) in
              elim (Bool-cases (is_above_0 (or_default (counts u') 0))) [
                | inl a ↦ simp (c, k, f, a, n)
                | inr a ↦ simp (c, k, f, a, n)
              ]
        ]

tally-step :
    (s u : String) (c : Call) (conns : Connections)
    → get_active_connections conns s u + 1 < half_mod
    → get_active_connections (apply c conns) s u ≡ tally s u c (get_active_connections conns s u)
unfolding apply
tally-step s u (starts s' u') conns h =
    increment_lem s u s' u' conns
    ∙ ap (λ (n : ℕ). if is_for s u s' u' then n else get_active_connections conns s u)
        (inc_below _ h)
tally-step s u (ends s' u') conns h =
    decrement_lem s u s' u' conns
    ∙ ap (λ (n : ℕ). if is_for s u s' u' then n else get_active_connections conns s u)
        (dec_below _ (omega arith))

-- After any sequence of starts and ends of requests, GetActiveConnections gives the tally of the
-- starts and ends of that upstream of that service, in which an end at 0 is ignored, provided
-- that the tally stays below the largest int64.
pub get_active_connections-tally :
    (s u : String) (cs : List Call) (conns : Connections)
    → StaysBelow (half_mod - 1) s u cs (get_active_connections conns s u)
    → get_active_connections (apply_all cs conns) s u
      ≡ tally_all s u cs (get_active_connections conns s u)
unfolding apply_all
get_active_connections-tally s u [] conns h = refl
get_active_connections-tally s u (c ∷ cs) conns h =
    let step = tally-step s u c conns (omega (arith, h.0)) in
    get_active_connections-tally s u cs (apply c conns)
      (subst (StaysBelow (half_mod - 1) s u cs) (sym step) h.1)
    ∙ ap (tally_all s u cs) step

-- the counts that two maps show are the same
abbrev pub SameCounts : Connections → Connections → Type 0
SameCounts c d = (s u : String) → get_active_connections c s u ≡ get_active_connections d s u

-- every count of the map can still go up
abbrev pub HasRoom : Connections → Type 0
HasRoom c = (s u : String) → get_active_connections c s u + 2 < half_mod

-- A start shows on two maps with the same counts alike.
pub increment-SameCounts :
    (s' u' : String) (c d : Connections)
    → SameCounts c d
    → SameCounts (increment s' u' c) (increment s' u' d)
increment-SameCounts s' u' c d same s u =
    increment_lem s u s' u' c
    ∙ ap (λ (n : ℕ). if is_for s u s' u' then inc n else n) (same s u)
    ∙ sym (increment_lem s u s' u' d)

tally-ends-starts :
    (s u s' u' : String) (n : ℕ) → tally s u (ends s' u') (tally s u (starts s' u') n) ≡ n
tally-ends-starts s u s' u' n = elim (Bool-cases (is_for s u s' u')) [
  | inl f ↦ simp f (omega arith)
  | inr f ↦ simp f
]

tally-starts-below :
    (s u s' u' : String) (n : ℕ) → n + 2 < half_mod → tally s u (starts s' u') n + 1 < half_mod
tally-starts-below s u s' u' n h = elim (Bool-cases (is_for s u s' u')) [
  | inl f ↦ rw f (omega (arith, h))
  | inr f ↦ rw f (omega (arith, h))
]

-- A request that starts and ends leaves the counts as they were, whatever others did in between,
-- if they left them as they found them.
pub starts-ends-SameCounts :
    (s' u' : String) (c d : Connections)
    → HasRoom c
    → SameCounts d (increment s' u' c)
    → SameCounts (decrement s' u' d) c
unfolding apply
starts-ends-SameCounts s' u' c d room same s u =
    let n = get_active_connections c s u in
    let up : get_active_connections d s u ≡ tally s u (starts s' u') n =
      same s u ∙ tally-step s u (starts s' u') c (omega (arith, room s u)) in
    let below : get_active_connections d s u + 1 < half_mod =
      rw up (tally-starts-below s u s' u' n (room s u)) in
    tally-step s u (ends s' u') d below
    ∙ ap (tally s u (ends s' u')) up
    ∙ tally-ends-starts s u s' u' n
