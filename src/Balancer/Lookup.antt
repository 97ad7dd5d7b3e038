-- ===== src/Balancer/Lookup.antt =====
-- consistent_hash.go and load_balancer.go: what a lookup in a Maglev table returns.
use Prim.Native.String.{String}
use sushi_gateway.Prelude.{
  ℕ, zero, suc, ◌≡◌, refl, ap, ap₂, ◌∙◌, ◌≤◌, ◌<◌, ◌+◌, ◌-◌, ◌%◌, inl, inr, Bool, true, false,
  Option, none, some, List, [], ◌∷◌, arith, if◌then◌else◌, length, ◌==◌, Bool-cases, get_elem?,
  some_inj, ◌>>=◌,
}
use sushi_gateway.Model.{UpstreamTarget}
use sushi_gateway.Balancer.Maglev.{
  Ring, maglev_m, target_at, accept, probe, or_primary, get_upstream_with_filter,
}

target_at-not_empty :
    (sum64 : String → ℕ) (us : List UpstreamTarget) (table : List (Option ℕ)) (slot : ℕ)
    (u : UpstreamTarget)
    → target_at sum64 (record { upstreams = us; lookup_table = table }) slot ≡ some (some u)
    → ((length table == 0) ≡ false) × ((length us == 0) ≡ false)
unfolding target_at
target_at-not_empty sum64 us [] slot u e = cc
target_at-not_empty sum64 [] (t ∷ table) slot u e =
    (ground arith, absurd (none_there (get_elem? (t ∷ table) slot) e))
  where
    none_there :
        (o : Option (Option ℕ))
        → (o >>= λ entry. some (entry >>= λ i. get_elem? {A = UpstreamTarget} [] i)) ≡ some (some u)
        → ⊥
    none_there none h = cc
    none_there (some none) h = cc
    none_there (some (some i)) h = cc
target_at-not_empty sum64 (v ∷ us) (t ∷ table) slot u e = (ground arith, ground arith)

-- a slot below the table's length is read
target_at-some :
    (sum64 : String → ℕ) (us : List UpstreamTarget) (table : List (Option ℕ)) (slot : ℕ)
    → slot < length table
    → (o : Option UpstreamTarget) × (target_at sum64
          (record { upstreams = us; lookup_table = table })
          slot
        ≡ some o)
unfolding target_at
target_at-some sum64 us [] slot h = absurd (omega (arith, h))
target_at-some sum64 us (t ∷ table) zero h = (_, refl)
target_at-some sum64 us (t ∷ table) (suc slot) h =
    target_at-some sum64 us table slot (omega (arith, h))

slot_distance :
    (start slot : ℕ)
    → slot < maglev_m
    → ((start % maglev_m + (slot + maglev_m - start % maglev_m) % maglev_m) % maglev_m ≡ slot)
      × ((slot + maglev_m - start % maglev_m) % maglev_m < maglev_m)
slot_distance start slot h = (omega arith, omega arith)

module _ (sum64 : String → ℕ) (ok : UpstreamTarget → Bool) (ring : Ring) where
  -- the result passes the filter
  abbrev Accepted : Option (Option UpstreamTarget) → Type 0
  Accepted r = (u : UpstreamTarget) × (r ≡ some (some u)) × (ok u ≡ true)

  accept-Accepted :
      (o : Option UpstreamTarget) (rest : Option (Option UpstreamTarget))
      → Accepted rest
      → Accepted (accept sum64 ok (some o) rest)
  unfolding accept
  accept-Accepted none rest h = h
  accept-Accepted (some u) rest h = elim (Bool-cases (ok u)) [
    | inl e ↦ rw e (u, refl, e)
    | inr e ↦ rw e h
  ]

  accept-here :
      (o : Option (Option UpstreamTarget)) (rest : Option (Option UpstreamTarget))
      (u : UpstreamTarget)
      → o ≡ some (some u)
      → ok u ≡ true
      → Accepted (accept sum64 ok o rest)
  unfolding accept
  accept-here none rest u e h = cc
  accept-here (some none) rest u e h = cc
  accept-here (some (some v)) rest u e h =
      let same : ok v ≡ true = ap ok (some_inj (some_inj e)) ∙ h in rw same (v, refl, same)

  module _ (size : length ring.lookup_table ≡ maglev_m) where
    slot_read :
        (slot : ℕ) → (o : Option UpstreamTarget) × (target_at sum64 ring (slot % maglev_m) ≡ some o)
    slot_read slot =
        target_at-some sum64 ring.upstreams ring.lookup_table (slot % maglev_m)
          (omega (arith, size))

    probe-Accepted :
        (start i n d : ℕ) (u : UpstreamTarget)
        → i ≤ d
        → d < i + n
        → target_at sum64 ring ((start + d) % maglev_m) ≡ some (some u)
        → ok u ≡ true
        → Accepted (probe sum64 ok ring start i n)
    unfolding probe
    probe-Accepted start i zero d u l h e p = absurd (omega (arith, l, h))
    probe-Accepted start i (suc n) d u l h e p = elim (Bool-cases (i == d)) [
      | inl same ↦
          let here : i ≡ d = ground arith in
          accept-here _ _ u (ap (λ (k : ℕ). target_at sum64 ring ((start + k) % maglev_m)) here ∙ e)
            p
      | inr other ↦
          let (o, r) = slot_read (start + i) in
          let rest = probe-Accepted start (suc i) n d u (ground arith) (omega (arith, h)) e p in
          rw r (accept-Accepted o _ rest)
    ]

    -- In a table of 65537 slots of which any holds an upstream that the filter accepts, the lookup
    -- of any key returns an upstream that the filter accepts, without an index out of range.
    pub get_upstream_with_filter-accepted :
        (key : String) (slot : ℕ) (u : UpstreamTarget)
        → slot < maglev_m
        → target_at sum64 ring slot ≡ some (some u)
        → ok u ≡ true
        → (v : UpstreamTarget) × (get_upstream_with_filter sum64 ring key ok ≡ some (some v))
          × (ok v ≡ true)
    unfolding get_upstream_with_filter or_primary
    get_upstream_with_filter-accepted key slot u lt e p =
        let start = sum64 key % maglev_m in
        let d = (slot + maglev_m - start) % maglev_m in
        let (at, near) = slot_distance (sum64 key) slot lt in
        let (has_table, has_upstreams) =
          target_at-not_empty sum64 ring.upstreams ring.lookup_table slot u e in
        let (v, r, q) =
          probe-Accepted start 0 maglev_m d u (omega arith) (omega (arith, near))
            (ap (target_at sum64 ring) at ∙ e) p in
        (
          v,
          ap₂
                (λ (a b : Bool).
                  if a
                  then some none
                  else if b
                  then some none
                  else or_primary sum64 (probe sum64 ok ring start 0 maglev_m)
                      (target_at sum64 ring start))
                has_table has_upstreams
              ∙ ap
                  (λ (o : Option (Option UpstreamTarget)).
                    or_primary sum64 o (target_at sum64 ring start))
                  r,
          q,
        )
