-- ===== src/Balancer/Maglev/Rounds.antt =====
-- consistent_hash.go: the rounds of GenerateRing fill the table.
use sushi_gateway.Prelude.{
  ℕ, zero, suc, ◌≡◌, refl, sym, ap, subst, ◌∙◌, ◌⊎◌, ◌≤◌, ◌<◌, ◌+◌, inl, inr, false, Option, some,
  List, [], ◌∷◌, arith, length, get_elem?, ◌==◌, ==_iff, Bool-cases,
}
use sushi_gateway.Balancer.Maglev.{Filling, fill_round, fill}
use sushi_gateway.Balancer.Maglev.Slots.{full_slot, ReadUpTo}
use sushi_gateway.Balancer.Maglev.Turn.{IsPermutation, Counted, Grows, Turned, take_slot-Turned}

-- each upstream has a permutation, of which it has read up to a place
abbrev pub AllReady : ℕ → List (Option ℕ) → List (List ℕ × ℕ) → Type 0
AllReady m table [] = Unit
AllReady m table ((perm, j) ∷ ps) =
    IsPermutation m perm × ReadUpTo table perm j × AllReady m table ps

ReadUpTo-later :
    (fl after : Filling) (perm : List ℕ) (j : ℕ)
    → Grows fl after
    → ReadUpTo fl.table perm j
    → ReadUpTo after.table perm j
ReadUpTo-later fl after perm j grows read k c lt e = grows c (read k c lt e)

AllReady-later :
    (m : ℕ) (fl after : Filling) (ps : List (List ℕ × ℕ))
    → Grows fl after
    → AllReady m fl.table ps
    → AllReady m after.table ps
AllReady-later m fl after [] grows h = tt
AllReady-later m fl after ((perm, j) ∷ ps) grows (p, read, rest) =
    (p, ReadUpTo-later fl after perm j grows read, AllReady-later m fl after ps grows rest)

-- a round that has not filled the table
record Unfinished (m : ℕ) (ps : List (List ℕ × ℕ)) (fl : Filling) (qs : List (List ℕ × ℕ))
    (after : Filling) : Type 0 where
  pub room : after.populated < m
  pub filled : after.populated ≡ fl.populated + length ps
  pub ready : AllReady m after.table qs
  pub same : length qs ≡ length ps

record Rounded (m n i : ℕ) (ps : List (List ℕ × ℕ)) (fl : Filling) : Type 0 where
  pub places : List (List ℕ × ℕ)
  pub after : Filling
  pub runs : fill_round m i ps fl ≡ some (places, after)
  pub counted : Counted m n after
  pub grows : Grows fl after
  pub state : (after.populated ≡ m) ⊎ Unfinished m ps fl places after

-- A round ends, with the table full or with one slot more for each upstream.
fill_round-Rounded :
    (m n i : ℕ) (ps : List (List ℕ × ℕ)) (fl : Filling)
    → i + length ps ≤ n
    → Counted m n fl
    → fl.populated < m
    → AllReady m fl.table ps
    → Rounded m n i ps fl
unfolding fill_round
fill_round-Rounded m n i [] fl within counted room ready = record {
  places = [];
  after = fl;
  runs = refl;
  counted = counted;
  grows = λ c t. t;
  state = inr (record { room = room; filled = omega arith; ready = tt; same = refl });
}
fill_round-Rounded m n i ((perm, j) ∷ ps) fl within counted room (p, read, rest) =
    let t = take_slot-Turned m n i perm j fl (below within) counted room p read in
    elim (Bool-cases (t.after.populated == m)) [
      | inl full ↦ record {
        places = (perm, t.next) ∷ ps;
        after = t.after;
        runs = rw t.runs (rw full refl);
        counted = t.counted;
        grows = t.grows;
        state = inl ((==_iff t.after.populated m).0 full);
      }
      | inr open_still ↦
          let r =
            fill_round-Rounded m n (suc i) ps t.after (shifted within) t.counted
              (left t.one_more room open_still) (AllReady-later m fl t.after ps t.grows rest) in
          record {
            places = (perm, t.next) ∷ r.places;
            after = r.after;
            runs = rw t.runs (rw open_still (rw r.runs refl));
            counted = r.counted;
            grows = λ c h. r.grows c (t.grows c h);
            state = state t r;
          }
    ]
  where
    below : i + suc (length ps) ≤ n → i < n
    below h = omega arith

    shifted : i + suc (length ps) ≤ n → suc i + length ps ≤ n
    shifted h = omega arith

    left : {a : ℕ} → a ≡ suc fl.populated → fl.populated < m → (a == m) ≡ false → a < m
    left e h f = ground arith

    state :
        (t : Turned m n i perm j fl)
        → (r : Rounded m n (suc i) ps t.after)
        → (r.after.populated ≡ m)
          ⊎ Unfinished m ((perm, j) ∷ ps) fl ((perm, t.next) ∷ r.places) r.after
    state t r = elim r.state [
      | inl e ↦ inl e
      | inr u ↦ inr (record {
        room = u.room;
        filled = omega (arith, u.filled, t.one_more);
        ready = (p, ReadUpTo-later t.after r.after perm t.next r.grows t.read_on, u.ready);
        same = ap suc u.same;
      })
    ]

-- A table with an upstream in each of its slots.
pub record Full (m n : ℕ) (table : List (Option ℕ)) : Type 0 where
  pub size : length table ≡ m
  pub slot : (c : ℕ) → c < m → (i : ℕ) × (get_elem? table c ≡ some (some i)) × (i < n)

Counted-Full : (m n : ℕ) (fl : Filling) → Counted m n fl → fl.populated ≡ m → Full m n fl.table
Counted-Full m n fl counted full = record {
  size = counted.size;
  slot = λ c lt.
      let (i, e) =
        full_slot fl.table c (sym counted.count ∙ full ∙ sym counted.size)
          (subst (λ (x : ℕ). c < x) (sym counted.size) lt) in
      (i, e, counted.valued c i e);
}

-- With as many rounds as slots are free, the loop ends with a full table.
pub fill-Full :
    (m n rounds : ℕ) (ps : List (List ℕ × ℕ)) (fl : Filling)
    → length ps ≤ n
    → 0 < length ps
    → Counted m n fl
    → fl.populated < m
    → m ≤ fl.populated + rounds
    → AllReady m fl.table ps
    → (table : List (Option ℕ)) × (fill m rounds ps fl ≡ some table) × Full m n table
unfolding fill
fill-Full m n zero ps fl within some_one counted room enough ready = absurd (omega arith)
fill-Full m n (suc rounds) ps fl within some_one counted room enough ready =
    let r = fill_round-Rounded m n 0 ps fl (omega (arith, within)) counted room ready in
    elim r.state [
      | inl full ↦ (
        r.after.table,
        rw r.runs (rw ((==_iff r.after.populated m).1 full) refl),
        Counted-Full m n r.after r.counted full,
      )
      | inr u ↦
          let (table, runs, full) =
            fill-Full m n rounds r.places r.after (omega (arith, u.same, within))
              (omega (arith, u.same, some_one)) r.counted u.room
              (omega (arith, u.filled, enough, some_one)) u.ready in
          (table, rw r.runs (rw (not_full u.room) runs), full)
    ]
  where
    not_full : {a : ℕ} → a < m → (a == m) ≡ false
    not_full h = ground arith
