-- ===== src/Balancer/RoundRobin/Selection.antt =====
-- load_balancer.go: which upstream a round-robin call returns, on every branch.
use mathlib.Core.List.{Memᴰ}
use native.Mathlib.Nat.{mod-lt, mod-eq_of_lt, mod-add-mod, add-mod-mod, add-mod_right}
use sushi_gateway.Prelude.{
  ℕ, zero, suc, String, ◌+◌, ◌-◌, ◌%◌, ◌≤◌, ◌<◌, ◌≡◌, ◌≢◌, refl, sym, ap, subst, ◌∙◌, ◌↔◌, ◌⊎◌, inl,
  inr, Bool, true, false, ◌&&◌, not, Option, none, some, List, [], ◌∷◌, arith, ==_iff, keep,
  keep_iff, Bool-cases, length, get_elem?, ◌==◌,
}
use sushi_gateway.Model.{Service, UpstreamTarget}
use sushi_gateway.Health.{get_healthy_upstreams}
use sushi_gateway.Health.Healthy.{ReadsHealthy, get_healthy_upstreams_iff}
use sushi_gateway.Balancer.{Env, tags_match, indices, eligible, contains}
use sushi_gateway.Balancer.Candidates.{Passes, indices_iff}
use sushi_gateway.Balancer.RoundRobin.{
  Cursors, cursor, rotate, try_at, scan, round_robin_unchecked, round_robin_filtered, advance,
  round_robin_checked, handle_round_robin, handle_round_robin_excluding,
}

-- what a selection promises of its result: an index of an upstream that passes, or `none`, and
-- then no upstream passes
abbrev pub Selects : (UpstreamTarget → Bool) → List UpstreamTarget → Option ℕ → Type 0
Selects p us none = (i : ℕ) → ¬ (Passes p us i)
Selects p us (some i) = Passes p us i

pub get_elem?-Memᴰ :
    (xs : List ℕ) (i : ℕ) → i < length xs → (x : ℕ) × (get_elem? xs i ≡ some x) × Memᴰ x xs
get_elem?-Memᴰ [] i h = absurd (omega arith)
get_elem?-Memᴰ (x ∷ xs) zero h = (x, refl, Memᴰ.head refl)
get_elem?-Memᴰ (x ∷ xs) (suc i) h =
    let (y, e, m) = get_elem?-Memᴰ xs i (omega arith) in (y, e, Memᴰ.tail m)

rotate-Selects :
    (p : UpstreamTarget → Bool) (us : List UpstreamTarget) (rr : Cursors) (key : String)
    (valid : List ℕ)
    → valid ≡ indices p 0 us
    → Selects p us (rotate rr key valid).0
unfolding rotate
rotate-Selects p us rr key [] e =
    λ i h. elim (subst (Memᴰ i) (sym e) ((indices_iff p us i).1 h)) [ ]
rotate-Selects p us rr key (j ∷ js) e =
    let (x, q, m) =
      get_elem?-Memᴰ (j ∷ js) (cursor rr key % length (j ∷ js))
        (mod-lt (cursor rr key) (omega arith)) in
    rw q ((indices_iff p us x).0 (subst (Memᴰ x) e m))

-- handleRoundRobinExcluding picks an upstream that has not failed, whose tags match and which is
-- available; if it picks none, there is no such upstream.
pub handle_round_robin_excluding-Selects :
    (env : Env) (rr : Cursors) (s : Service) (failed tags : List String)
    → Selects
        (λ u. not (contains failed u.id) && eligible env s tags u)
        s.upstreams
        (handle_round_robin_excluding env rr s failed tags).0
unfolding handle_round_robin_excluding
handle_round_robin_excluding-Selects env rr s failed tags = rotate-Selects _ s.upstreams rr _ _ refl

not-Passes-one :
    (p : UpstreamTarget → Bool) (u : UpstreamTarget) (i : ℕ) → p u ≡ false → ¬ (Passes p (u ∷ []) i)
not-Passes-one p u zero e (v, q, h) = let same : p u ≡ true = ap p (ground arith) ∙ h in cc
not-Passes-one p u (suc i) e (v, q, h) = cc

-- Without health checks the pick is an upstream whose tags match; if there is none, no tags match.
round_robin_unchecked-Selects :
    (rr : Cursors) (s : Service) (us : List UpstreamTarget) (tags : List String)
    → Selects (λ u. tags_match u.tags tags) us (round_robin_unchecked rr s us tags).0
unfolding round_robin_unchecked
round_robin_unchecked-Selects rr s [] tags = rotate-Selects _ [] rr s.name _ refl
round_robin_unchecked-Selects rr s (u ∷ v ∷ us) tags =
    rotate-Selects _ (u ∷ v ∷ us) rr s.name _ refl
round_robin_unchecked-Selects rr s (u ∷ []) tags = elim (Bool-cases (tags_match u.tags tags)) [
  | inl e ↦ rw e (u, refl, e)
  | inr e ↦ rw e (λ i h. not-Passes-one _ u i e h)
]

try_at-some :
    (ok : UpstreamTarget → Bool) (c r : ℕ) (o : Option UpstreamTarget) (rest : Option ℕ)
    → try_at ok c o rest ≡ some r
    → ((u : UpstreamTarget) × (o ≡ some u) × (ok u ≡ true) × (c ≡ r)) ⊎ (rest ≡ some r)
unfolding try_at
try_at-some ok c r none rest e = inr e
try_at-some ok c r (some u) rest e = elim (Bool-cases (ok u)) [
  | inl h ↦ inl (u, refl, h, ground arith)
  | inr h ↦ inr (rw h at e)
]

try_at-none :
    (ok : UpstreamTarget → Bool) (c : ℕ) (o : Option UpstreamTarget) (rest : Option ℕ)
    → try_at ok c o rest ≡ none
    → (rest ≡ none) × ((u : UpstreamTarget) → o ≡ some u → ok u ≢ true)
unfolding try_at
try_at-none ok c none rest e = (e, λ u q. cc)
try_at-none ok c (some v) rest e = elim (Bool-cases (ok v)) [
  | inl h ↦ let wrong = rw h at e in cc
  | inr h ↦ (rw h at e, λ u q h'. let same : v ≡ u = ground arith in cc (ap ok same))
]

module _ (ok : UpstreamTarget → Bool) (us : List UpstreamTarget) (cur : ℕ) where
  scan_sound : (k i c : ℕ) → scan ok us cur i k ≡ some c → Passes ok us c
  unfolding scan
  scan_sound zero i c e = cc
  scan_sound (suc k) i c e = elim (try_at-some ok _ c (get_elem? us ((cur + i) % length us)) _ e) [
    | inl (u, q, h, same) ↦ subst (Passes ok us) same (u, q, h)
    | inr rest ↦ scan_sound k (suc i) c rest
  ]

  scan_complete :
      (k i o : ℕ)
      → scan ok us cur i k ≡ none
      → i ≤ o
      → o < i + k
      → ¬ (Passes ok us ((cur + o) % length us))
  unfolding scan
  scan_complete zero i o e h b = absurd (omega arith)
  scan_complete (suc k) i o e h b =
      let (rest, here) = try_at-none ok _ (get_elem? us ((cur + i) % length us)) _ e in
      elim (Bool-cases (i == o)) [
        | inl same ↦ λ (u, q, p). here u (rw ((==_iff i o).0 same) q) p
        | inr other ↦ scan_complete k (suc i) o rest (ground arith) (omega arith)
      ]

-- every index is met in a round of the loop
offset : (cur j n : ℕ) → j < n → (cur + (j + n - cur % n) % n) % n ≡ j
offset cur j n h =
    let below : cur % n < n = mod-lt cur (omega arith) in
    add-mod-mod cur (j + n - cur % n) n
    ∙ sym (mod-add-mod cur n (j + n - cur % n))
    ∙ ap (λ (x : ℕ). x % n) (omega arith)
    ∙ add-mod_right j n
    ∙ mod-eq_of_lt h

get_elem?-lt :
    (us : List UpstreamTarget) (j : ℕ) (u : UpstreamTarget)
    → get_elem? us j ≡ some u
    → j < length us
get_elem?-lt [] j u e = cc
get_elem?-lt (v ∷ us) zero u e = omega arith
get_elem?-lt (v ∷ us) (suc j) u e = omega (arith, get_elem?-lt us j u e)

scan-Selects :
    (ok : UpstreamTarget → Bool) (us : List UpstreamTarget) (cur : ℕ)
    → Selects ok us (scan ok us cur 0 (length us))
scan-Selects ok us cur = go (scan ok us cur 0 (length us)) refl
  where
    go : (r : Option ℕ) → scan ok us cur 0 (length us) ≡ r → Selects ok us r
    go (some c) e = scan_sound ok us cur (length us) 0 c e
    go none e = λ j (u, q, p).
        let n = length us in
        let inside : j < n = get_elem?-lt us j u q in
        let o = (j + n - cur % n) % n in
        scan_complete ok us cur n 0 o e (omega arith)
          (omega (arith, mod-lt (j + n - cur % n) {m = n} (omega arith)))
          (subst (Passes ok us) (sym (offset cur j n inside)) (u, q, p))

-- some upstream reads as healthy and has the tags
abbrev pub SomeHealthy : Env → Service → List String → Type 0
SomeHealthy env s tags =
    (u : UpstreamTarget) × (Memᴰ u s.upstreams
      × ReadsHealthy env.health s.name u
      × (tags_match u.tags tags ≡ true))

healthy_with_tags : Env → Service → List String → List UpstreamTarget
healthy_with_tags env s tags =
    keep (λ u. tags_match u.tags tags) (get_healthy_upstreams env.health s)

healthy_with_tags_iff :
    (env : Env) (s : Service) (tags : List String) (u : UpstreamTarget)
    → s.health.enabled ≡ true
    → Memᴰ u (healthy_with_tags env s tags)
      ↔ (Memᴰ u s.upstreams × ReadsHealthy env.health s.name u × (tags_match u.tags tags ≡ true))
unfolding healthy_with_tags
healthy_with_tags_iff env s tags u h =
    let kept = keep_iff (λ v. tags_match v.tags tags) (get_healthy_upstreams env.health s) u in
    let listed = get_healthy_upstreams_iff env.health s u h in
    (
      λ m. ((listed.0 (kept.0 m).0).0, (listed.0 (kept.0 m).0).1, (kept.0 m).1),
      λ m. kept.1 (listed.1 (m.0, m.1), m.2),
    )

advance-first : (rr : Cursors) (name : String) (n : ℕ) (r : Option ℕ) → (advance rr name n r).0 ≡ r
unfolding advance
advance-first rr name n none = refl
advance-first rr name n (some i) = refl

-- With health checks on and more than one upstream, if some upstream reads as healthy and has the
-- tags, then the pick is an upstream that has the tags and is available, and no pick is made only
-- if there is none.
pub handle_round_robin-Selects :
    (env : Env) (rr : Cursors) (s : Service) (tags : List String)
    → s.health.enabled ≡ true
    → length s.upstreams ≢ 1
    → SomeHealthy env s tags
    → Selects (eligible env s tags) s.upstreams (handle_round_robin env rr s tags).0
unfolding handle_round_robin round_robin_checked healthy_with_tags
handle_round_robin-Selects env rr s tags h more (u, m) =
    simp h (go (healthy_with_tags env s tags) refl)
  where
    go :
        (hs : List UpstreamTarget)
        → healthy_with_tags env s tags ≡ hs
        → Selects (eligible env s tags) s.upstreams (round_robin_filtered env rr s tags hs).0
    go [] e = elim (subst (Memᴰ u) e ((healthy_with_tags_iff env s tags u h).1 m)) [ ]
    go (x ∷ hs) e = elim (Bool-cases (length s.upstreams == 1)) [
      | inl one ↦ absurd (more ((==_iff (length s.upstreams) 1).0 one))
      | inr many ↦ rw many (
          rw
            (advance-first rr s.name (length s.upstreams)
              (scan (eligible env s tags) s.upstreams (cursor rr s.name) 0 (length s.upstreams)))
            (scan-Selects (eligible env s tags) s.upstreams (cursor rr s.name)))
    ]

-- With health checks on, if no upstream with the tags reads as healthy, then no pick is made and
-- nothing is stored, also where a breaker that is half open would let a probe through.
pub handle_round_robin-no_probe :
    (env : Env) (rr : Cursors) (s : Service) (tags : List String)
    → s.health.enabled ≡ true
    → ¬ (SomeHealthy env s tags)
    → handle_round_robin env rr s tags ≡ (none, rr)
unfolding handle_round_robin round_robin_checked healthy_with_tags
handle_round_robin-no_probe env rr s tags h none_healthy =
    simp h (go (healthy_with_tags env s tags) refl)
  where
    go :
        (hs : List UpstreamTarget)
        → healthy_with_tags env s tags ≡ hs
        → round_robin_filtered env rr s tags hs ≡ (none, rr)
    go [] e = refl
    go (x ∷ hs) e = absurd (
        none_healthy
          (x, (healthy_with_tags_iff env s tags x h).0 (subst (Memᴰ x) (sym e) (Memᴰ.head refl))))
