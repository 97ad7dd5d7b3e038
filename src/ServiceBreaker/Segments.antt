-- ===== src/ServiceBreaker/Segments.antt =====
-- circuit_breaker.go: splitPath.
use sushi_gateway.Prelude.{
  ◌≡◌, refl, sym, ap, ◌∙◌, Bool, true, false, Bool-cases, inl, inr, List, [], ◌∷◌, ◌++◌, arith,
  ◌==◌, ==_iff, keep,
}
use mathlib.Core.List.{append_assoc, append-nil}
use sushi_gateway.Prelude.Text.{split, contains_byte}
use sushi_gateway.Prelude.Text.Split.{Plain, split-Plain, split-append}
use sushi_gateway.Model.{Bytes}
use sushi_gateway.ServiceBreaker.{split_from, split_path, add_part, after_slash}

abbrev pub not_empty : Bytes → Bool
not_empty [] = false
not_empty (b ∷ s) = true

add_part-keep :
    (part : Bytes) (parts : List Bytes)
    → add_part part (keep not_empty parts) ≡ keep not_empty (part ∷ parts)
unfolding keep
add_part-keep [] parts = refl
add_part-keep (b ∷ part) parts = refl

append-Plain :
    (part : Bytes) (b : _) → Plain b'/' part → (b == b'/') ≡ false → Plain b'/' (part ++ b ∷ [])
unfolding contains_byte
append-Plain [] b h e = ground arith
append-Plain (x ∷ part) b h e = ground (arith, append-Plain part b)

split_from-keep :
    (part s : Bytes) → Plain b'/' part → split_from part s ≡ keep not_empty (split b'/' (part ++ s))
unfolding split_from keep contains_byte
split_from-keep part [] h =
    add_part-keep part []
    ∙ sym (ap (keep not_empty) (ap (split b'/') (append-nil part) ∙ split-Plain b'/' part h))
split_from-keep part (b ∷ s) h = elim (Bool-cases (b == b'/')) [
  | inl e ↦ rw e (
      ap (add_part part) (split_from-keep [] s refl)
      ∙ add_part-keep part (split b'/' s)
      ∙ sym (ap (keep not_empty) (split-append b'/' part s h))
      ∙ ap (λ (x : _). keep not_empty (split b'/' (part ++ x ∷ s))) (sym ((==_iff b b'/').0 e)))
  | inr e ↦ rw e (
      split_from-keep (part ++ b ∷ []) s (append-Plain part b h e)
      ∙ ap (λ (x : Bytes). keep not_empty (split b'/' x)) (append_assoc part (b ∷ []) s))
]

after_slash-keep :
    (path : Bytes)
    → keep not_empty (split b'/' (after_slash path)) ≡ keep not_empty (split b'/' path)
unfolding split keep
after_slash-keep [] = refl
after_slash-keep (b ∷ s) = elim (Bool-cases (b == b'/')) [
  | inl e ↦ rw e refl
  | inr e ↦ rw e (rw e refl)
]

-- splitPath gives the parts of the path between slashes that are not empty, in order.
pub split_path_lem : (path : Bytes) → split_path path ≡ keep not_empty (split b'/' path)
unfolding split_path contains_byte
split_path_lem path = split_from-keep [] (after_slash path) refl ∙ after_slash-keep path
