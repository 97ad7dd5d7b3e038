-- ===== src/Bots/Patterns.antt =====
-- bot_protection.go: where a pattern matches.
use sushi_gateway.Prelude.{
  String, ◌≡◌, refl, sym, ap, ◌∙◌, ◌↔◌, ◌||◌, Bool, true, false, Bool-cases, Option-cases, inl, inr,
  List, [], ◌∷◌, ◌++◌, Memᴰ, Memᴰ-cases,
}
use mathlib.Core.List.{append_assoc}
use sushi_gateway.Prelude.Text.{
  contains_text, has_prefix, cut_prefix, cut_prefix-some, cut_prefix-append,
}
use sushi_gateway.Model.{Bytes}
use sushi_gateway.Bots.{matches, any_matches}

has_prefix-append : (p s : Bytes) → has_prefix p (p ++ s) ≡ true
has_prefix-append p s = rw (cut_prefix-append p s, has_prefix) refl

has_prefix-some : (p s : Bytes) → has_prefix p s ≡ true → (t : Bytes) × (s ≡ p ++ t)
has_prefix-some p s h = elim (Option-cases (cut_prefix p s)) [
  | inl e ↦ absurd (no (rw (e, has_prefix) at h))
  | inr (t, e) ↦ (t, cut_prefix-some p s t e)
]
  where
    no : false ≡ true → ⊥
    no e = cc

-- the text has the pattern somewhere
abbrev pub Within : Bytes → Bytes → Type 0
Within p s = (a : Bytes) × (b : Bytes) × (s ≡ a ++ (p ++ b))

contains_text-Within : (p s : Bytes) → contains_text p s ≡ true → Within p s
unfolding contains_text
contains_text-Within p [] h = let (t, e) = has_prefix-some p [] h in ([], t, e)
contains_text-Within p (x ∷ s) h = elim (Bool-cases (has_prefix p (x ∷ s))) [
  | inl e ↦ let (t, q) = has_prefix-some p (x ∷ s) e in ([], t, q)
  | inr e ↦ let (a, b, q) = contains_text-Within p s (rw e at h) in (x ∷ a, b, ap (◌∷◌ x) q)
]

has_prefix-contains_text : (p s : Bytes) → has_prefix p s ≡ true → contains_text p s ≡ true
unfolding contains_text
has_prefix-contains_text p [] h = h
has_prefix-contains_text p (x ∷ s) h = rw h refl

or_true : (b c : Bool) → c ≡ true → (b || c) ≡ true
or_true true c e = refl
or_true false c e = e

Within-contains_text : (a p b : Bytes) → contains_text p (a ++ (p ++ b)) ≡ true
unfolding contains_text
Within-contains_text [] p b = has_prefix-contains_text p (p ++ b) (has_prefix-append p b)
Within-contains_text (x ∷ a) p b = or_true _ _ (Within-contains_text a p b)

-- strings.Contains holds exactly if the text is something, the pattern, and something.
pub contains_text_iff : (p s : Bytes) → (contains_text p s ≡ true) ↔ Within p s
contains_text_iff p s = (contains_text-Within p s, λ w. rw w.2 (Within-contains_text w.0 p w.1))

-- A text that has a pattern has each pattern within that one.
pub contains_text_trans :
    (a p b s : Bytes) → contains_text (a ++ (p ++ b)) s ≡ true → contains_text p s ≡ true
contains_text_trans a p b s h =
    let (c, d, e) = (contains_text_iff (a ++ (p ++ b)) s).0 h in
    (contains_text_iff p s).1 (
      c ++ a,
      b ++ d,
      e
          ∙ ap (c ++◌) (append_assoc a (p ++ b) d ∙ ap (a ++◌) (append_assoc p b d))
          ∙ sym (append_assoc c a (p ++ (b ++ d))),
    )

-- A list of patterns matches exactly if one of them does.
pub any_matches_iff :
    (ps : List String) (s : Bytes)
    → (any_matches ps s ≡ true) ↔ ((p : String) × Memᴰ p ps × (matches p s ≡ true))
unfolding any_matches
any_matches_iff [] s = (λ e. absurd (no e), λ w. elim w.1 [ ])
  where
    no : false ≡ true → ⊥
    no e = cc
any_matches_iff (p ∷ ps) s = elim (Bool-cases (matches p s)) [
  | inl e ↦ (λ _. (p, Memᴰ.head refl, e), λ _. rw e refl)
  | inr e ↦ (
    λ h. let (q, m, k) = (any_matches_iff ps s).0 (rw e at h) in (q, Memᴰ.tail m, k),
    λ w. rw e (elim (Memᴰ-cases w.1) [
      | inl same ↦ absurd (differs (sym (ap (λ x. matches x s) same) ∙ w.2) e)
      | inr m ↦ (any_matches_iff ps s).1 (w.0, m, w.2)
    ]),
  )
]
  where
    differs : matches p s ≡ true → matches p s ≡ false → ⊥
    differs a b = cc
