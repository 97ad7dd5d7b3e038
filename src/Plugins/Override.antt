-- ===== src/Plugins/Override.antt =====
-- plugin_manager.go: which config of a plugin is in force after several lists are loaded.
use mathlib.Core.List.{Permᴰ}
use mathlib.Core.Path.{subst₂}
use sushi_gateway.Prelude.{
  String, ◌≡◌, refl, sym, ap, subst, ◌∙◌, ◌⊎◌, Option, none, some, List, [], ◌∷◌, arith,
  if◌then◌else◌, str_eq, str_eq_iff, Bool-cases, inl, inr,
}
use sushi_gateway.Model.{PluginConfig, Service, Route}
use sushi_gateway.Plugins.{
  Plugin, Sorter, by_priority, plugin_of, is_enabled, upsert, register_plugin, register_if,
  load_config, load_all, load_chain,
}

-- the plugin of a name
unfoldable pub find : String → List Plugin → Option Plugin
find n [] = none
find n (p ∷ ps) = if str_eq p.name n then some p else find n ps

-- no two plugins have one name
abbrev pub Unique : List Plugin → Type 0
Unique [] = Unit
Unique (p ∷ ps) = (find p.name ps ≡ none) × Unique ps

find-upsert :
    (n : String) (p : Plugin) (ps : List Plugin)
    → find n (upsert p ps) ≡ (if str_eq p.name n then some p else find n ps)
unfolding find upsert
find-upsert n p [] = refl
find-upsert n p (q ∷ ps) =
    ground (
      arith,
      find-upsert n p ps,
      str_eq_iff q.name p.name,
      str_eq_iff q.name n,
      str_eq_iff p.name n,
    )

upsert-Unique : (p : Plugin) (ps : List Plugin) → Unique ps → Unique (upsert p ps)
unfolding find upsert
upsert-Unique p [] u = (refl, tt)
upsert-Unique p (q ∷ ps) u = elim (Bool-cases (str_eq q.name p.name)) [
  | inl e ↦ rw e (rw (← (str_eq_iff q.name p.name).0 e) u.0, u.1)
  | inr e ↦ rw e (
    ground (arith, find-upsert q.name p ps, str_eq_iff p.name q.name, str_eq_iff q.name p.name),
    upsert-Unique p ps u.1,
  )
]

-- a permutation of plugins with distinct names finds the same plugins
abbrev SameFinds : List Plugin → List Plugin → Type 0
SameFinds ps qs = Unique qs × ((n : String) → find n qs ≡ find n ps)

cons-SameFinds :
    (p : Plugin) (ps qs : List Plugin)
    → find p.name ps ≡ none
    → SameFinds ps qs
    → SameFinds (p ∷ ps) (p ∷ qs)
unfolding find
cons-SameFinds p ps qs u (v, f) =
    ((f p.name ∙ u, v), λ n. ap (λ o. if str_eq p.name n then some p else o) (f n))

swap-SameFinds :
    (p q : Plugin) (l : List Plugin) → Unique (p ∷ q ∷ l) → SameFinds (p ∷ q ∷ l) (q ∷ p ∷ l)
unfolding find
swap-SameFinds p q l (u, (v, w)) = (
  (ground (arith, str_eq_iff p.name q.name, str_eq_iff q.name p.name), (ground arith, w)),
  λ n. ground (arith, str_eq_iff p.name n, str_eq_iff q.name n, str_eq_iff q.name p.name),
)

perm-SameFinds : {ps qs : List Plugin} → Permᴰ ps qs → Unique ps → SameFinds ps qs
perm-SameFinds Permᴰ.nil u = (tt, λ n. refl)
perm-SameFinds (Permᴰ.cons {a = p} {l₁ = ps} {l₂ = qs} x h) u =
    subst (λ (q : Plugin). SameFinds (p ∷ ps) (q ∷ qs)) x
      (cons-SameFinds p ps qs u.0 (perm-SameFinds h u.1))
perm-SameFinds (Permᴰ.swap {a = p} {b = q} {l = l} x y) u =
    subst₂ (λ (r t : Plugin). SameFinds (p ∷ q ∷ l) (r ∷ t ∷ l)) y x (swap-SameFinds p q l u)
perm-SameFinds (Permᴰ.trans h k) u =
    let (v, f) = perm-SameFinds h u in let (w, g) = perm-SameFinds k v in (w, λ n. g n ∙ f n)

-- the last enabled config of a list that registers a plugin of the name, or else `old`
overlay : String → Option Plugin → Option Plugin → Option Plugin
overlay n none old = old
overlay n (some p) old = if str_eq p.name n then some p else old

unfoldable pub in_force : String → List PluginConfig → Option Plugin → Option Plugin
unfolding overlay
in_force n [] old = old
in_force n (pc ∷ pcs) old =
    in_force n pcs (if is_enabled pc then overlay n (plugin_of pc) old else old)

module _ (s : Sorter) where
  register_plugin-find :
      (p : Plugin) (pm : List Plugin)
      → Unique pm
      → Unique (register_plugin s p pm)
        × ((n : String)
            → find n (register_plugin s p pm) ≡ (if str_eq p.name n then some p else find n pm))
  unfolding register_plugin
  register_plugin-find p pm u =
      let (v, f) = perm-SameFinds (s.sort-perm by_priority (upsert p pm)) (upsert-Unique p pm u) in
      (v, λ n. f n ∙ find-upsert n p pm)

  register_if-find :
      (o : Option Plugin) (pm : List Plugin)
      → Unique pm
      → Unique (register_if s o pm)
        × ((n : String) → find n (register_if s o pm) ≡ overlay n o (find n pm))
  unfolding register_if overlay
  register_if-find none pm u = (u, λ n. refl)
  register_if-find (some p) pm u = register_plugin-find p pm u

  load_config-find :
      (pc : PluginConfig) (pm : List Plugin)
      → Unique pm
      → Unique (load_config s pc pm)
        × ((n : String)
            → find n (load_config s pc pm)
              ≡ (if is_enabled pc then overlay n (plugin_of pc) (find n pm) else find n pm))
  unfolding load_config
  load_config-find pc pm u = elim (Bool-cases (is_enabled pc)) [
    | inl e ↦ rw e (register_if-find (plugin_of pc) pm u)
    | inr e ↦ rw e (u, λ n. refl)
  ]

  -- After a list of configs is loaded no two plugins have one name, and the plugin of each name is
  -- that of the last enabled config that registers it, or the one from before.
  pub load_all-find :
      (pcs : List PluginConfig) (pm : List Plugin)
      → Unique pm
      → Unique (load_all s pcs pm)
        × ((n : String) → find n (load_all s pcs pm) ≡ in_force n pcs (find n pm))
  unfolding load_all in_force
  load_all-find [] pm u = (u, λ n. refl)
  load_all-find (pc ∷ pcs) pm u =
      let (v, f) = load_config-find pc pm u in
      let (w, g) = load_all-find pcs (load_config s pc pm) v in
      (w, λ n. g n ∙ ap (in_force n pcs) (f n))

step : String → PluginConfig → Option Plugin → Option Plugin
unfolding overlay
step n pc old = if is_enabled pc then overlay n (plugin_of pc) old else old

-- a config either decides the plugin of a name or leaves the old one
step-cases :
    (n : String) (pc : PluginConfig) (old : Option Plugin)
    → (step n pc old ≡ step n pc none) ⊎ ((step n pc none ≡ none) × (step n pc old ≡ old))
unfolding step
step-cases n pc old = ground arith

in_force-some :
    (n : String) (pcs : List PluginConfig) (old : Option Plugin) (p : Plugin)
    → in_force n pcs none ≡ some p
    → in_force n pcs old ≡ some p
unfolding in_force step
in_force-some n [] old p e = cc
in_force-some n (pc ∷ pcs) old p e = elim (step-cases n pc old) [
  | inl same ↦ ap (in_force n pcs) same ∙ e
  | inr (nothing, kept) ↦
      ap (in_force n pcs) kept ∙ in_force-some n pcs old p (sym (ap (in_force n pcs) nothing) ∙ e)
]

module _ (s : Sorter) (global : List PluginConfig) (route : Route) (service : Service) where
  -- In the chain of a route the plugin of a name is that of the service's last enabled config of
  -- it; where the service has none, the route's; and where neither has one, the global one.
  pub load_chain-find :
      (n : String)
      → find n (load_chain s global route service)
        ≡ in_force n service.plugins (in_force n route.plugins (in_force n global none))
  unfolding load_chain find
  load_chain-find n =
      let (u, f) = load_all-find s global [] tt in
      let (v, g) = load_all-find s route.plugins (load_all s global []) u in
      let (w, h) =
        load_all-find s service.plugins (load_all s route.plugins (load_all s global [])) v in
      h n ∙ ap (in_force n service.plugins) (g n ∙ ap (in_force n route.plugins) (f n))

  -- A plugin that the service configures is in force with the service's config, whatever the route
  -- configures for it.
  pub service-over-route :
      (n : String) (p : Plugin)
      → in_force n service.plugins none ≡ some p
      → find n (load_chain s global route service) ≡ some p
  service-over-route n p e =
      load_chain-find n
      ∙ in_force-some n service.plugins (in_force n route.plugins (in_force n global none)) p e
