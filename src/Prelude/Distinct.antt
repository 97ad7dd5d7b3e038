-- ===== src/Prelude/Distinct.antt =====
-- Lists of different texts, and how long they can be.
use Prim.Native.Nat.{suc, ◌≤◌}
use Prim.Native.String.{String}
use mathlib.Core.Path.{◌≡◌, refl, sym, ap, subst, ◌∙◌}
use mathlib.Core.Logic.{◌≢◌, inl, inr}
use mathlib.Core.Bool.{true}
use mathlib.Core.List.{List, [], ◌∷◌, Memᴰ}
use native.Mathlib.Omega.{arith}
use text.Mathlib.Text.{◌==◌ as str_eq}
use text.Mathlib.TextEquality.{eq_iff as str_eq_iff}
use sushi_gateway.Prelude.Tests.{if◌then◌else◌, Bool-cases}
use sushi_gateway.Prelude.Lists.{length}

-- the texts differ from each other
abbrev pub AllDistinct : List String → Type 0
AllDistinct [] = Unit
AllDistinct (x ∷ xs) = ¬ (Memᴰ x xs) × AllDistinct xs

unfoldable remove : String → List String → List String
remove x [] = []
remove x (y ∷ ys) = let rest = remove x ys in if str_eq y x then ys else y ∷ rest

length-remove : (x : String) (ys : List String) → Memᴰ x ys → suc (length (remove x ys)) ≡ length ys
unfolding remove
length-remove x [] m = elim m [ ]
length-remove x (y ∷ ys) (Memᴰ.head e) =
    let t : str_eq y x ≡ true = (str_eq_iff y x).1 (sym e) in simp t
length-remove x (y ∷ ys) (Memᴰ.tail m) =
    let rest = length-remove x ys m in
    elim (Bool-cases (str_eq y x)) [ inl e ↦ simp e | inr e ↦ simp e (ap suc rest) ]

mem-remove : (x y : String) (ys : List String) → y ≢ x → Memᴰ y ys → Memᴰ y (remove x ys)
unfolding remove
mem-remove x y [] n m = elim m [ ]
mem-remove x y (z ∷ ys) n (Memᴰ.head e) = elim (Bool-cases (str_eq z x)) [
  | inl t ↦ absurd (n (e ∙ (str_eq_iff z x).0 t))
  | inr t ↦ simp t (Memᴰ.head e)
]
mem-remove x y (z ∷ ys) n (Memᴰ.tail m) =
    let rest = mem-remove x y ys n m in
    elim (Bool-cases (str_eq z x)) [ inl t ↦ simp t m | inr t ↦ simp t (Memᴰ.tail rest) ]

-- Different texts that all stand in a list are no more than the list has.
pub distinct-length :
    (xs ys : List String)
    → AllDistinct xs
    → ((x : String) → Memᴰ x xs → Memᴰ x ys)
    → length xs ≤ length ys
distinct-length [] ys d s = omega arith
distinct-length (x ∷ xs) ys (n, d) s =
    let here = s x (Memᴰ.head refl) in
    let rest = distinct-length xs (remove x ys) d (λ y m.
      mem-remove x y ys (λ (e : y ≡ x). n (subst (λ (k : String). Memᴰ k xs) e m))
        (s y (Memᴰ.tail m))) in
    omega (arith, rest, length-remove x ys here)
