-- ===== src/Plugins/Tests.antt =====
-- plugin_manager.go: the theorems at concrete configurations, with insertion sort as the sort.
use mathlib.Core.List.{Permᴰ}
use sushi_gateway.Prelude.{
  String, ◌≡◌, ◌<◌, refl, false, none, List, [], ◌∷◌, arith, if◌then◌else◌, Bool, true, ◌∙◌, sym,
  Bool-cases, inl, inr,
}
use sushi_gateway.Model.{PluginConfig, Route, Service, round_robin}
use sushi_gateway.Prelude.Int.{pos}
use sushi_gateway.Balancer.{contains}
use sushi_gateway.Plugins.{
  Plugin, Sorter, InOrder, IsWeakOrder, by_priority, plugin_of, upsert, register_plugin,
  load_config, load_all, load_chain, plugins_for_route,
}
use sushi_gateway.Plugins.Override.{find, in_force, load_chain-find}
use sushi_gateway.Plugins.Turns.{turns, turn_of, place_of}
use sushi_gateway.Plugins.Order.{plugins_for_route-order}

module _ (less : Plugin → Plugin → Bool) where
  insert : Plugin → List Plugin → List Plugin
  insert p [] = p ∷ []
  insert p (q ∷ qs) = let rest = insert p qs in if less q p then q ∷ rest else p ∷ q ∷ qs

  insertion_sort : List Plugin → List Plugin
  unfolding insert
  insertion_sort [] = []
  insertion_sort (p ∷ ps) = insert p (insertion_sort ps)

  same-perm : (ps : List Plugin) → Permᴰ ps ps
  same-perm [] = Permᴰ.nil
  same-perm (p ∷ ps) = Permᴰ.cons refl (same-perm ps)

  insert-perm : (p : Plugin) (ps : List Plugin) → Permᴰ (p ∷ ps) (insert p ps)
  unfolding insert
  insert-perm p [] = same-perm (p ∷ [])
  insert-perm p (q ∷ qs) = elim (Bool-cases (less q p)) [
    | inl e ↦ rw e (Permᴰ.trans (Permᴰ.swap refl refl) (Permᴰ.cons refl (insert-perm p qs)))
    | inr e ↦ rw e (same-perm (p ∷ q ∷ qs))
  ]

  insertion_sort-perm : (ps : List Plugin) → Permᴰ ps (insertion_sort ps)
  unfolding insertion_sort
  insertion_sort-perm [] = Permᴰ.nil
  insertion_sort-perm (p ∷ ps) =
      Permᴰ.trans (Permᴰ.cons refl (insertion_sort-perm ps)) (insert-perm p (insertion_sort ps))

  module _ (order : IsWeakOrder less) where
    asymmetric : (p q : Plugin) → less q p ≡ true → less p q ≡ false
    asymmetric p q h = elim (Bool-cases (less p q)) [
      | inl e ↦
          let clash : true ≡ false = sym (order.transitive p q p e h) ∙ order.irreflexive p in cc
      | inr e ↦ e
    ]

    insert-InOrder : (p : Plugin) (ps : List Plugin) → InOrder less ps → InOrder less (insert p ps)
    unfolding insert
    insert-InOrder p [] h = tt
    insert-InOrder p (q ∷ []) h = elim (Bool-cases (less q p)) [
      | inl e ↦ rw e (asymmetric p q e, tt)
      | inr e ↦ rw e (e, tt)
    ]
    insert-InOrder p (q ∷ r ∷ ps) h = elim (Bool-cases (less q p)) [
      | inr e ↦ rw e (e, h)
      | inl e ↦ elim (Bool-cases (less r p)) [
        | inl f ↦
            let rest : InOrder less (r ∷ insert p ps) = rw f at (insert-InOrder p (r ∷ ps) h.1) in
            rw e (rw f (h.0, rest))
        | inr f ↦ rw e (rw f (asymmetric p q e, (f, h.1)))
      ]
    ]

    insertion_sort-InOrder : (ps : List Plugin) → InOrder less (insertion_sort ps)
    unfolding insertion_sort
    insertion_sort-InOrder [] = tt
    insertion_sort-InOrder (p ∷ ps) =
        insert-InOrder p (insertion_sort ps) (insertion_sort-InOrder ps)

abbrev by_insertion : Sorter
by_insertion = record {
  sort = insertion_sort;
  sort-perm = insertion_sort-perm;
  sort-InOrder = insertion_sort-InOrder;
}

abbrev limit : String → PluginConfig
limit per_minute = record {
  id = "";
  name = "rate-limiting";
  config = ("minute", per_minute) ∷ [];
  enabled = none;
}

abbrev plain : String → PluginConfig
plain name = record { id = ""; name = name; config = []; enabled = none }

abbrev orders_route : Route
orders_route = record {
  name = "orders";
  path = [];
  paths = [];
  methods = [];
  headers = [];
  upstream_tags = [];
  plugins = limit "10" ∷ [];
  strip_path = none;
  preserve_host = none;
  backends = [];
}

abbrev orders : Service
orders = record {
  name = "orders";
  url = "";
  protocol = "http";
  base_path = [];
  load_balancing_strategy = round_robin;
  upstreams = [];
  plugins = limit "1000" ∷ plain "cache" ∷ plain "basic-auth" ∷ [];
  routes = orders_route ∷ [];
  health = record { enabled = false; path = [] };
  retry_options = record { max_retries = pos 0; retry_interval_ms = pos 0 };
  host = "";
  service_name = "";
  upstream_health_checks = none;
}

load_chain-find_example :
    find "rate-limiting" (load_chain by_insertion [] orders_route orders)
    ≡ in_force "rate-limiting" orders.plugins
        (in_force "rate-limiting" orders_route.plugins (in_force "rate-limiting" [] none))
load_chain-find_example = load_chain-find by_insertion [] orders_route orders "rate-limiting"

abbrev cache : Plugin
cache = record { name = "cache"; priority = 100; config = [] }

abbrev basic_auth : Plugin
basic_auth = record { name = "basic-auth"; priority = 200; config = [] }

-- response-handler, rate-limiting, cache, basic-auth
plugins_for_route-order_example : ◌<◌ 2 3
unfolding plugins_for_route load_chain load_all load_config register_plugin plugin_of upsert
    insertion_sort insert by_priority turn_of turns place_of contains
plugins_for_route-order_example =
    plugins_for_route-order by_insertion [] orders_route orders 2 3 3 5 cache basic_auth refl refl
      refl refl (omega arith)
