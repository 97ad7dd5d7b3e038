-- ===== src/Plugins/Order.antt =====
-- plugin_manager.go: the order in which the plugins of a chain run.
use mathlib.Core.List.{Permᴰ, foldr}
use native.Mathlib.Decide.{dec_lt}
use sushi_gateway.Prelude.{
  ℕ, zero, suc, String, ◌≤◌, ◌<◌, ◌≡◌, refl, sym, ap, ◌∙◌, subst, inl, inr, Option, none, some,
  List, [], ◌∷◌, Memᴰ, Memᴰ-cases, some_inj, arith, str_eq, Bool-cases, length, get_elem?, ◌>>=◌,
}
use sushi_gateway.Model.{PluginConfig, Service, Route}
use sushi_gateway.Balancer.{contains}
use sushi_gateway.Plugins.Turns.{turns, place_of, turn_of, steps, Increasing-lt, steps-Increasing}
use sushi_gateway.Plugins.{
  Plugin, Sorter, InOrder, IsWeakOrder, by_priority, registry, plugin_of, construct, lookup_in,
  is_enabled, upsert, register_plugin, register_if, load_config, load_all, load_chain,
  response_handler, plugins_for_route, execute_plugins, wrap, wrap_at,
}

module _ {ℓ} {H : Type ℓ} (execute : Plugin → H → H) where
  wrap-cons :
      (p : Plugin) (ps : List Plugin) (i : ℕ) (h : H)
      → wrap execute (p ∷ ps) (suc i) h ≡ execute p (wrap execute ps i h)
  unfolding wrap
  wrap-cons p ps zero h = refl
  wrap-cons p ps (suc i) h = wrap-cons p ps i (wrap_at execute (get_elem? ps i) h)

  -- The loop from the back nests the handlers so that the first plugin of the slice is outermost.
  pub execute_plugins_lem :
      (ps : List Plugin) (final : H) → execute_plugins execute ps final ≡ foldr execute final ps
  unfolding execute_plugins
  execute_plugins_lem [] final = refl
  execute_plugins_lem (p ∷ ps) final =
      wrap-cons p ps (length ps) final ∙ ap (execute p) (execute_plugins_lem ps final)

abbrev IsSorted : List Plugin → Type 0
IsSorted [] = Unit
IsSorted (p ∷ []) = Unit
IsSorted (p ∷ q ∷ ps) = (p.priority ≤ q.priority) × IsSorted (q ∷ ps)

IsSorted-tail : (p : Plugin) (ps : List Plugin) → IsSorted (p ∷ ps) → IsSorted ps
IsSorted-tail p [] h = tt
IsSorted-tail p (q ∷ ps) h = h.1

IsSorted-le :
    (ps : List Plugin) (i j : ℕ) (p q : Plugin)
    → IsSorted ps
    → get_elem? ps i ≡ some p
    → get_elem? ps j ≡ some q
    → i ≤ j
    → p.priority ≤ q.priority
IsSorted-le [] i j p q s e f h = cc
IsSorted-le (x ∷ ps) zero zero p q s e f h = ground arith
IsSorted-le (x ∷ ps) (suc i) zero p q s e f h = absurd (omega arith)
IsSorted-le (x ∷ ps) (suc i) (suc j) p q s e f h =
    IsSorted-le ps i j p q (IsSorted-tail x ps s) e f (omega arith)
IsSorted-le (x ∷ []) zero (suc j) p q s e f h = cc
IsSorted-le (x ∷ y ∷ ps) zero (suc j) p q s e f h =
    ground (arith, IsSorted-le (y ∷ ps) zero j y q s.1 refl f (omega arith))

unfoldable priority_of : String → Option ℕ
unfolding turn_of
priority_of n = turn_of n >>= λ t. get_elem? steps t

abbrev Registered : Plugin → Type 0
Registered p = priority_of p.name ≡ some p.priority

abbrev AllRegistered : List Plugin → Type 0
AllRegistered ps = (p : Plugin) → Memᴰ p ps → Registered p

-- the rows of a table agree with `priority_of`
abbrev Rows : List (String × String × ℕ) → Type 0
Rows [] = Unit
Rows ((k, name, prio) ∷ r) = (priority_of name ≡ some prio) × Rows r

construct-Registered :
    (r : List (String × String × ℕ)) (pc : PluginConfig) (p : Plugin)
    → Rows r
    → construct (lookup_in r pc.name) pc ≡ some p
    → Registered p
unfolding construct lookup_in
construct-Registered [] pc p h e = cc
construct-Registered ((k, name, prio) ∷ r) pc p h e = elim (Bool-cases (str_eq k pc.name)) [
  | inl q ↦ subst Registered (some_inj (rw q at e)) h.0
  | inr q ↦ construct-Registered r pc p h.1 (rw q at e)
]

registry-Rows : Rows registry
unfolding priority_of turn_of turns place_of contains
registry-Rows = ground arith

plugin_of-Registered : (pc : PluginConfig) (p : Plugin) → plugin_of pc ≡ some p → Registered p
unfolding plugin_of
plugin_of-Registered pc p e = construct-Registered registry pc p registry-Rows e

upsert-AllRegistered :
    (p : Plugin) (ps : List Plugin) → Registered p → AllRegistered ps → AllRegistered (upsert p ps)
unfolding upsert
upsert-AllRegistered p [] r h q (Memᴰ.head e) = subst Registered (sym e) r
upsert-AllRegistered p [] r h q (Memᴰ.tail m) = elim m [ ]
upsert-AllRegistered p (x ∷ ps) r h q m = elim (Bool-cases (str_eq x.name p.name)) [
  | inl e ↦ elim (Memᴰ-cases (rw e at m)) [
    | inl same ↦ subst Registered (sym same) r
    | inr k ↦ h q (Memᴰ.tail k)
  ]
  | inr e ↦ elim (Memᴰ-cases (rw e at m)) [
    | inl same ↦ h q (Memᴰ.head same)
    | inr k ↦ upsert-AllRegistered p ps r (λ y n. h y (Memᴰ.tail n)) q k
  ]
]

perm-Memᴰ : {ps qs : List Plugin} (q : Plugin) → Permᴰ ps qs → Memᴰ q qs → Memᴰ q ps
perm-Memᴰ q Permᴰ.nil m = m
perm-Memᴰ q (Permᴰ.cons e h) (Memᴰ.head k) = Memᴰ.head (k ∙ sym e)
perm-Memᴰ q (Permᴰ.cons e h) (Memᴰ.tail m) = Memᴰ.tail (perm-Memᴰ q h m)
perm-Memᴰ q (Permᴰ.swap x y) (Memᴰ.head k) = Memᴰ.tail (Memᴰ.head (k ∙ sym y))
perm-Memᴰ q (Permᴰ.swap x y) (Memᴰ.tail (Memᴰ.head k)) = Memᴰ.head (k ∙ sym x)
perm-Memᴰ q (Permᴰ.swap x y) (Memᴰ.tail (Memᴰ.tail m)) = Memᴰ.tail (Memᴰ.tail m)
perm-Memᴰ q (Permᴰ.trans h k) m = perm-Memᴰ q h (perm-Memᴰ q k m)

get_elem?-Memᴰ : (ps : List Plugin) (i : ℕ) (p : Plugin) → get_elem? ps i ≡ some p → Memᴰ p ps
get_elem?-Memᴰ [] i p e = cc
get_elem?-Memᴰ (x ∷ ps) zero p e = Memᴰ.head (sym (some_inj e))
get_elem?-Memᴰ (x ∷ ps) (suc i) p e = Memᴰ.tail (get_elem?-Memᴰ ps i p e)

by_priority-IsWeakOrder : IsWeakOrder by_priority
unfolding by_priority
by_priority-IsWeakOrder = record {
  irreflexive = λ p. ground arith;
  transitive = λ p q r h k. ground arith;
  not_less = λ p q r h k. ground arith;
}

InOrder-IsSorted : (ps : List Plugin) → InOrder by_priority ps → IsSorted ps
unfolding by_priority
InOrder-IsSorted [] h = tt
InOrder-IsSorted (p ∷ []) h = tt
InOrder-IsSorted (p ∷ q ∷ ps) h = (ground arith, InOrder-IsSorted (q ∷ ps) h.1)

module _ (s : Sorter) where
  -- a chain is sorted, and each of its plugins has the priority of its name
  abbrev Ordered : List Plugin → Type 0
  Ordered ps = IsSorted ps × AllRegistered ps

  register_plugin-Ordered :
      (p : Plugin) (pm : List Plugin) → Registered p → Ordered pm → Ordered (register_plugin s p pm)
  unfolding register_plugin
  register_plugin-Ordered p pm r (_, h) = (
    InOrder-IsSorted (s.sort by_priority (upsert p pm))
        (s.sort-InOrder by_priority by_priority-IsWeakOrder (upsert p pm)),
    λ q m. upsert-AllRegistered p pm r h q (perm-Memᴰ q (s.sort-perm by_priority (upsert p pm)) m),
  )

  load_config-Ordered :
      (pc : PluginConfig) (pm : List Plugin) → Ordered pm → Ordered (load_config s pc pm)
  unfolding load_config register_if
  load_config-Ordered pc pm h = elim (Bool-cases (is_enabled pc)) [
    | inl e ↦ rw e (go (plugin_of pc) refl)
    | inr e ↦ rw e h
  ]
    where
      go : (o : Option Plugin) → plugin_of pc ≡ o → Ordered (register_if s o pm)
      go none e = h
      go (some p) e = register_plugin-Ordered p pm (plugin_of-Registered pc p e) h

  load_all-Ordered :
      (pcs : List PluginConfig) (pm : List Plugin) → Ordered pm → Ordered (load_all s pcs pm)
  unfolding load_all
  load_all-Ordered [] pm h = h
  load_all-Ordered (pc ∷ pcs) pm h =
      load_all-Ordered pcs (load_config s pc pm) (load_config-Ordered pc pm h)

  plugins_for_route-Ordered :
      (global : List PluginConfig) (route : Route) (service : Service)
      → Ordered (plugins_for_route s global route service)
  unfolding plugins_for_route load_chain priority_of turn_of turns place_of contains
  plugins_for_route-Ordered global route service =
      register_plugin-Ordered response_handler (load_chain s global route service)
        response_handler-Registered
        (load_all-Ordered service.plugins _
          (load_all-Ordered route.plugins _ (load_all-Ordered global [] (tt, λ p m. elim m [ ]))))
    where
      response_handler-Registered : Registered response_handler
      response_handler-Registered = refl

  -- In the chain of a route, whatever is configured, a plugin of an earlier turn stands before one
  -- of a later turn; the turns are those of the list `turns`.
  pub plugins_for_route-order :
      (global : List PluginConfig) (route : Route) (service : Service) (i j a b : ℕ) (p q : Plugin)
      → get_elem? (plugins_for_route s global route service) i ≡ some p
      → get_elem? (plugins_for_route s global route service) j ≡ some q
      → turn_of p.name ≡ some a
      → turn_of q.name ≡ some b
      → a < b
      → i < j
  unfolding priority_of
  plugins_for_route-order global route service i j a b p q e f ta tb h =
      let (sorted, known) = plugins_for_route-Ordered global route service in
      let pa = subst (at_turn p.priority) ta (known p (get_elem?-Memᴰ _ i p e)) in
      let qb = subst (at_turn q.priority) tb (known q (get_elem?-Memᴰ _ j q f)) in
      let lower = Increasing-lt steps a b p.priority q.priority steps-Increasing pa qb h in
      elim (dec_lt i j) [
        | yes lt ↦ lt
        | no ge ↦ absurd (omega (arith, lower, IsSorted-le _ j i q p sorted f e (omega arith)))
      ]
    where
      at_turn : ℕ → Option ℕ → Type 0
      at_turn n o = (o >>= λ t. get_elem? steps t) ≡ some n
