-- ===== src/Prelude/Text/Split.antt =====
-- strings.Split at a byte: the parts hold no such byte, and two texts that hold none come back from
-- their joint.
use sushi_gateway.Prelude.Tests.{◌==◌, Bool-cases}
use Prim.Native.Nat.{ℕ}
use mathlib.Core.Path.{◌≡◌, refl, sym, ap, subst, ◌∙◌}
use mathlib.Core.Logic.{inl, inr}
use mathlib.Core.Bool.{false}
use mathlib.Core.List.{List, [], ◌∷◌, ◌++◌}
use native.Mathlib.Omega.{arith}
use sushi_gateway.Prelude.Text.{contains_byte, split, onto_first, join, join-split}

abbrev pub Plain : ℕ → List ℕ → Type 0
Plain c s = contains_byte c s ≡ false

abbrev AllPlain : ℕ → List (List ℕ) → Type 0
AllPlain c [] = Unit
AllPlain c (p ∷ ps) = Plain c p × AllPlain c ps

pub split-Plain : (c : ℕ) (s : List ℕ) → Plain c s → split c s ≡ s ∷ []
unfolding split contains_byte
split-Plain c [] h = refl
split-Plain c (b ∷ s) h = ground (arith, split-Plain c s)

pub split-append : (c : ℕ) (s t : List ℕ) → Plain c s → split c (s ++ c ∷ t) ≡ s ∷ split c t
unfolding split contains_byte
split-append c [] t h = ground arith
split-append c (b ∷ s) t h = ground (arith, split-append c s t)

onto_first-AllPlain :
    (c b : ℕ) (ps : List (List ℕ)) → (b == c) ≡ false → AllPlain c ps → AllPlain c (onto_first b ps)
unfolding contains_byte
onto_first-AllPlain c b [] h a = (rw h, tt)
onto_first-AllPlain c b (p ∷ ps) h a = (rw h a.0, a.1)

pub split-AllPlain : (c : ℕ) (s : List ℕ) → AllPlain c (split c s)
unfolding split contains_byte
split-AllPlain c [] = (refl, tt)
split-AllPlain c (b ∷ s) = elim (Bool-cases (b == c)) [
  | inl e ↦ rw e (refl, split-AllPlain c s)
  | inr e ↦ rw e (onto_first-AllPlain c b (split c s) e (split-AllPlain c s))
]

pub split_two :
    (c : ℕ) (s a b : List ℕ) → split c s ≡ a ∷ b ∷ [] → (s ≡ a ++ c ∷ b) × Plain c a × Plain c b
unfolding join
split_two c s a b e =
    let plain : AllPlain c (a ∷ b ∷ []) = subst (AllPlain c) e (split-AllPlain c s) in
    (sym (join-split c s) ∙ ap (join c) e, plain.0, plain.1.0)
