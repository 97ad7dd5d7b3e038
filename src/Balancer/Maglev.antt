-- ===== src/Balancer/Maglev.antt =====
-- consistent_hash.go: the Maglev table of a service. xxhash.Sum64 is a parameter. The table's -1 is
-- `none`. A write lock is held while the table is built, so building it is one step.
pub mod Slots
pub mod Turn
pub mod Rounds
pub mod Permutation
pub mod Generated
use Prim.Native.String.{String}
use sushi_gateway.Prelude.{
  ℕ, zero, suc, Bool, true, false, Option, none, some, List, [], ◌∷◌, ◌++◌, ◌+◌, ◌-◌, ◌*◌, ◌/◌, ◌%◌,
  if◌then◌else◌, length, get_elem?, set, drop, replicate, map, ◌==◌, str_eq, ◌>>=◌,
}
use sushi_gateway.Model.{Service, UpstreamTarget}

-- MaglevM
abbrev pub maglev_m : ℕ
maglev_m = 65537

pub record Ring : Type 0 where
  pub upstreams : List UpstreamTarget
  pub lookup_table : List (Option ℕ)

-- the table while it is filled, and the number of populated entries
pub record Filling : Type 0 where
  pub table : List (Option ℕ)
  pub populated : ℕ

-- f 0, f 1, ..., f (n - 1)
unfoldable pub tabulate : (ℕ → ℕ) → ℕ → ℕ → List ℕ
tabulate f j zero = []
tabulate f j (suc n) = f j ∷ tabulate f (suc j) n

unfoldable pub is_taken : List (Option ℕ) → ℕ → Bool
is_taken table c = elim (get_elem? table c) [ some (some i) ↦ true | _ ↦ false ]

-- the inner loop from the entry `j` of a permutation on: the free slot and where it stands;
-- `none` where the code would index past the permutation's end
unfoldable pub next_free : List (Option ℕ) → List ℕ → ℕ → Option (ℕ × ℕ)
unfolding is_taken
next_free table [] j = none
next_free table (c ∷ cs) j =
    let rest = next_free table cs (suc j) in if is_taken table c then rest else some (c, j)

-- upstream `i` takes the next free slot of its permutation, which it has read up to `j`
unfoldable pub take_slot : ℕ → List ℕ → ℕ → Filling → Option (ℕ × Filling)
unfolding next_free
take_slot i perm j fl = do
  (c, k) ← next_free fl.table (drop j perm) j
  some (suc k, record { table = set fl.table c (some i); populated = suc fl.populated })

-- one turn of `for i`, over the permutations with the place that each is read up to; the bound `m`
-- on the populated entries is where the function returns
unfoldable pub fill_round :
    ℕ → ℕ → List (List ℕ × ℕ) → Filling → Option (List (List ℕ × ℕ) × Filling)
unfolding take_slot
fill_round m i [] fl = some ([], fl)
fill_round m i ((perm, j) ∷ ps) fl = do
  (k, fl') ← take_slot i perm j fl
  if fl'.populated == m
      then some ((perm, k) ∷ ps, fl')
      else do (ps', fl'') ← fill_round m (suc i) ps fl'; some ((perm, k) ∷ ps', fl'')

-- the outer loop; a round fills a slot at least, so `m` rounds are enough
unfoldable pub fill : ℕ → ℕ → List (List ℕ × ℕ) → Filling → Option (List (Option ℕ))
unfolding fill_round
fill m zero ps fl = none
fill m (suc rounds) ps fl = do
  (ps', fl') ← fill_round m 0 ps fl
  if fl'.populated == m then some fl'.table else fill m rounds ps' fl'

module _ (sum64 : String → ℕ) where
  unfoldable pub generate_offset_and_skip : String → ℕ → ℕ × ℕ
  generate_offset_and_skip key m = let h = sum64 key in (h % m, h / 4294967296 % (m - 1) + 1)

  unfoldable pub generate_permutation : String → ℕ → List ℕ
  unfolding generate_offset_and_skip tabulate
  generate_permutation key m =
      let (offset, skip) = generate_offset_and_skip key m in
      tabulate (λ j. (offset + j * skip) % m) 0 m

  -- `none` for a panic
  unfoldable pub generate_table : ℕ → List UpstreamTarget → Option (List (Option ℕ))
  unfolding generate_permutation fill
  generate_table m [] = some []
  generate_table m (u ∷ us) =
      fill m m (map (λ v. (generate_permutation v.id m, 0)) (u ∷ us))
        (record { table = replicate m none; populated = 0 })

  unfoldable pub generate_ring : List UpstreamTarget → Option Ring
  generate_ring us = do
    table ← generate_table maglev_m us
    some (record { upstreams = us; lookup_table = table })

  -- NewConsistentHashRing
  unfoldable pub new_consistent_hash_ring : Service → Option Ring
  unfolding generate_ring
  new_consistent_hash_ring s = generate_ring s.upstreams

  unfoldable pub add_new_upstream : UpstreamTarget → Ring → Option Ring
  unfolding generate_ring
  add_new_upstream u ring = generate_ring (ring.upstreams ++ u ∷ [])

  unfoldable pub remove_first : String → List UpstreamTarget → List UpstreamTarget
  remove_first id [] = []
  remove_first id (u ∷ us) =
      let rest = remove_first id us in if str_eq u.id id then us else u ∷ rest

  unfoldable pub remove_upstream : String → Ring → Option Ring
  unfolding generate_ring remove_first
  remove_upstream id ring = generate_ring (remove_first id ring.upstreams)

  -- the upstream of a slot, and none for an invalid entry; the outer `none` is the panic of an index
  -- past the table's end, here and below
  unfoldable pub target_at : Ring → ℕ → Option (Option UpstreamTarget)
  target_at ring slot = do
    entry ← get_elem? ring.lookup_table slot
    some (entry >>= λ i. get_elem? ring.upstreams i)

  unfoldable pub accept :
      (UpstreamTarget → Bool)
      → Option (Option UpstreamTarget)
      → Option (Option UpstreamTarget)
      → Option (Option UpstreamTarget)
  accept ok none rest = none
  accept ok (some none) rest = rest
  accept ok (some (some u)) rest = if ok u then some (some u) else rest

  -- the probing loop with `n` slots left, from the slot `start + i` on
  unfoldable pub probe : (UpstreamTarget → Bool) → Ring → ℕ → ℕ → ℕ → Option (Option UpstreamTarget)
  unfolding target_at accept
  probe ok ring start i zero = some none
  probe ok ring start i (suc n) =
      accept ok (target_at ring ((start + i) % maglev_m)) (probe ok ring start (suc i) n)

  -- the primary mapping, where the probing finds none
  unfoldable pub or_primary :
      Option (Option UpstreamTarget)
      → Option (Option UpstreamTarget)
      → Option (Option UpstreamTarget)
  or_primary none primary = none
  or_primary (some none) primary = primary
  or_primary (some (some u)) primary = some (some u)

  -- the inner `none` is the empty UpstreamTarget
  unfoldable pub get_upstream_with_filter :
      Ring → String → (UpstreamTarget → Bool) → Option (Option UpstreamTarget)
  unfolding probe or_primary
  get_upstream_with_filter ring key ok =
      let start = sum64 key % maglev_m in
      if length ring.lookup_table == 0
      then some none
      else if length ring.upstreams == 0
      then some none
      else or_primary (probe ok ring start 0 maglev_m) (target_at ring start)

  -- GetUpstream, with a nil filter
  unfoldable pub get_upstream : Ring → String → Option (Option UpstreamTarget)
  unfolding get_upstream_with_filter
  get_upstream ring key = get_upstream_with_filter ring key (λ u. true)
