-- ===== src/Prelude/Keep.antt =====
-- The loop that appends the elements that pass a test, and membership as data.
use mathlib.Core.Path.{◌≡◌, sym, ap, ◌∙◌}
use mathlib.Core.Logic.{◌↔◌, ◌⊎◌, inl, inr}
use mathlib.Core.Bool.{Bool, true}
use mathlib.Core.List.{List, [], ◌∷◌, Memᴰ}
use sushi_gateway.Prelude.Tests.{if◌then◌else◌, Bool-cases}

module _ {ℓ} {A : Type ℓ} where
  unfoldable pub keep : (A → Bool) → List A → List A
  keep p [] = []
  keep p (x ∷ xs) = let rest = keep p xs in if p x then x ∷ rest else rest

  pub Memᴰ-cases : {a x : A} {xs : List A} → Memᴰ a (x ∷ xs) → (a ≡ x) ⊎ Memᴰ a xs
  Memᴰ-cases (Memᴰ.head e) = inl e
  Memᴰ-cases (Memᴰ.tail m) = inr m

  keep_sound : (p : A → Bool) (xs : List A) (a : A) → Memᴰ a (keep p xs) → Memᴰ a xs × (p a ≡ true)
  unfolding keep
  keep_sound p [] a m = elim m [ ]
  keep_sound p (x ∷ xs) a m = elim (Bool-cases (p x)) [
    | inl e ↦ elim (Memᴰ-cases (rw e at m)) [
      | inl same ↦ (Memᴰ.head same, ap p same ∙ e)
      | inr m' ↦ let (k, h) = keep_sound p xs a m' in (Memᴰ.tail k, h)
    ]
    | inr e ↦ let (k, h) = keep_sound p xs a (rw e at m) in (Memᴰ.tail k, h)
  ]

  keep_complete : (p : A → Bool) (xs : List A) (a : A) → Memᴰ a xs → p a ≡ true → Memᴰ a (keep p xs)
  unfolding keep
  keep_complete p [] a m h = elim m [ ]
  keep_complete p (x ∷ xs) a (Memᴰ.head e) h =
      let e' : p x ≡ true = ap p (sym e) ∙ h in rw e' (Memᴰ.head e)
  keep_complete p (x ∷ xs) a (Memᴰ.tail m) h =
      let rest = keep_complete p xs a m h in
      elim (Bool-cases (p x)) [ inl e ↦ rw e (Memᴰ.tail rest) | inr e ↦ rw e rest ]

  pub keep_iff :
      (p : A → Bool) (xs : List A) (a : A) → Memᴰ a (keep p xs) ↔ (Memᴰ a xs × (p a ≡ true))
  keep_iff p xs a = (keep_sound p xs a, λ m. keep_complete p xs a m.0 m.1)
