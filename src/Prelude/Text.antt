-- ===== src/Prelude/Text.antt =====
-- The functions of Go's `strings` that the code calls, over the bytes of a text.
pub mod Split
use Prim.Native.Nat.{ℕ}
use Prim.Native.Char.{code}
use Prim.Native.String.{String}
use mathlib.Core.Path.{◌≡◌, refl, sym, ap, ap₂, ◌∙◌}
use mathlib.Core.Logic.{◌↔◌, ◌≢◌, inl, inr}
use mathlib.Core.Bool.{Bool, true, false, ◌&&◌, ◌||◌}
use mathlib.Core.List.{List, [], ◌∷◌, ◌++◌}
use mathlib.Core.Option.{Option, none, some}
use native.Mathlib.Omega.{arith}
use sushi_gateway.Prelude.Tests.{◌==◌, ==_iff, if◌then◌else◌, Bool-cases}

-- The code points of a text: its bytes, if it is ASCII.
abbrev pub codes : String → List ℕ
codes String.[] = []
codes (String.◌∷◌ c s) = code c ∷ codes s

unfoldable pub bytes_eq : List ℕ → List ℕ → Bool
bytes_eq [] [] = true
bytes_eq (a ∷ s) (b ∷ t) = a == b && bytes_eq s t
bytes_eq _ _ = false

pub bytes_eq_refl : (s : List ℕ) → bytes_eq s s ≡ true
unfolding bytes_eq
bytes_eq_refl [] = refl
bytes_eq_refl (a ∷ s) = ground (arith, bytes_eq_refl s)

bytes_eq_sound : (s t : List ℕ) → bytes_eq s t ≡ true → s ≡ t
unfolding bytes_eq
bytes_eq_sound [] [] h = refl
bytes_eq_sound (a ∷ s) (b ∷ t) h = ground (arith, bytes_eq_sound s t)
bytes_eq_sound [] (b ∷ t) h = cc
bytes_eq_sound (a ∷ s) [] h = cc

pub bytes_eq_iff : (s t : List ℕ) → (bytes_eq s t ≡ true) ↔ (s ≡ t)
bytes_eq_iff s t = (bytes_eq_sound s t, λ e. rw e (bytes_eq_refl t))

-- strings.HasPrefix(s, p) with strings.TrimPrefix(s, p): what follows the prefix
unfoldable pub cut_prefix : List ℕ → List ℕ → Option (List ℕ)
cut_prefix [] s = some s
cut_prefix (b ∷ p) [] = none
cut_prefix (b ∷ p) (c ∷ s) = let rest = cut_prefix p s in if b == c then rest else none

pub cut_prefix-some : (p s r : List ℕ) → cut_prefix p s ≡ some r → s ≡ p ++ r
unfolding cut_prefix
cut_prefix-some [] s r h = ground arith
cut_prefix-some (b ∷ p) [] r h = cc
cut_prefix-some (b ∷ p) (c ∷ s) r h = ground (arith, cut_prefix-some p s r)

pub cut_prefix-append : (p r : List ℕ) → cut_prefix p (p ++ r) ≡ some r
unfolding cut_prefix
cut_prefix-append [] r = refl
cut_prefix-append (b ∷ p) r = ground (arith, cut_prefix-append p r)

abbrev pub has_prefix : List ℕ → List ℕ → Bool
has_prefix p s = elim (cut_prefix p s) [ none ↦ false | some _ ↦ true ]

-- strings.Contains(s, p)
unfoldable pub contains_text : List ℕ → List ℕ → Bool
contains_text p [] = has_prefix p []
contains_text p (b ∷ s) = has_prefix p (b ∷ s) || contains_text p s

-- strings.HasPrefix(s, c) for one byte
abbrev pub starts_with_byte : ℕ → List ℕ → Bool
starts_with_byte c [] = false
starts_with_byte c (b ∷ s) = b == c

-- strings.HasSuffix(s, c) for one byte
unfoldable pub ends_with_byte : ℕ → List ℕ → Bool
ends_with_byte c [] = false
ends_with_byte c (b ∷ []) = b == c
ends_with_byte c (b ∷ d ∷ s) = ends_with_byte c (d ∷ s)

-- strings.Contains(s, c) for one byte
unfoldable pub contains_byte : ℕ → List ℕ → Bool
contains_byte c [] = false
contains_byte c (b ∷ s) = b == c || contains_byte c s

-- strings.Split(s, c) for one byte
abbrev pub onto_first : ℕ → List (List ℕ) → List (List ℕ)
onto_first b [] = (b ∷ []) ∷ []
onto_first b (p ∷ ps) = (b ∷ p) ∷ ps

unfoldable pub split : ℕ → List ℕ → List (List ℕ)
split c [] = [] ∷ []
split c (b ∷ s) = let rest = split c s in if b == c then [] ∷ rest else onto_first b rest

-- strings.Join(ps, c)
unfoldable pub join : ℕ → List (List ℕ) → List ℕ
join c [] = []
join c (p ∷ []) = p
join c (p ∷ q ∷ ps) = p ++ c ∷ join c (q ∷ ps)

split-cons : (c : ℕ) (s : List ℕ) → split c s ≢ []
unfolding split
split-cons c [] h = cc
split-cons c (b ∷ s) h = ground (arith, split-cons c s)

join-onto_first :
    (c b : ℕ) (ps : List (List ℕ)) → ps ≢ [] → join c (onto_first b ps) ≡ b ∷ join c ps
unfolding join
join-onto_first c b [] h = absurd (h refl)
join-onto_first c b (p ∷ []) h = refl
join-onto_first c b (p ∷ q ∷ ps) h = refl

join-nil : (c : ℕ) (ps : List (List ℕ)) → ps ≢ [] → join c ([] ∷ ps) ≡ c ∷ join c ps
unfolding join
join-nil c [] h = absurd (h refl)
join-nil c (p ∷ ps) h = refl

-- Joining the parts of a text gives it back.
pub join-split : (c : ℕ) (s : List ℕ) → join c (split c s) ≡ s
unfolding split join
join-split c [] = refl
join-split c (b ∷ s) = elim (Bool-cases (b == c)) [
  | inl e ↦
      rw e (
        join-nil c (split c s) (split-cons c s) ∙ ap₂ ◌∷◌ (sym ((==_iff b c).0 e)) (join-split c s))
  | inr e ↦ rw e (join-onto_first c b (split c s) (split-cons c s) ∙ ap (◌∷◌ b) (join-split c s))
]
