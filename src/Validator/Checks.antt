-- ===== src/Validator/Checks.antt =====
-- The validators' way to return the first error: when none is returned.
use sushi_gateway.Prelude.{
  AllDistinct, ◌≡◌, ◌↔◌, ◌⊎◌, inl, inr, refl, String, Bool, true, false, not, Option, none, some,
  List, [], ◌∷◌, ◌++◌, Memᴰ, Memᴰ-cases, str_eq, str_eq_iff, str_eq_refl, sym, ap, ◌∙◌, Bool-cases,
  map,
}
use sushi_gateway.Routing.{slice_contains_string}
use sushi_gateway.Validator.{ConfigError, reject_if, first_of, first_error}

pub first_of_iff : (a b : Option ConfigError) → (first_of a b ≡ none) ↔ ((a ≡ none) × (b ≡ none))
first_of_iff none b = (λ h. (refl, h), λ h. h.1)
first_of_iff (some e) b = (λ h. cc, λ h. cc)

pub reject_if_iff : (t : Bool) (e : ConfigError) → (reject_if t e ≡ none) ↔ (t ≡ false)
reject_if_iff true e = (λ h. cc, λ h. cc)
reject_if_iff false e = (λ h. refl, λ h. refl)

pub reject_unless_iff : (t : Bool) (e : ConfigError) → (reject_if (not t) e ≡ none) ↔ (t ≡ true)
reject_unless_iff true e = (λ h. refl, λ h. refl)
reject_unless_iff false e = (λ h. cc, λ h. cc)

module _ {ℓ} {A : Type ℓ} (check : A → Option ConfigError) where
  first_error_sound :
      (xs : List A) → first_error check xs ≡ none → (x : A) → Memᴰ x xs → check x ≡ none
  unfolding first_error
  first_error_sound [] h x m = elim m [ ]
  first_error_sound (y ∷ ys) h x (Memᴰ.head e) = rw e ((first_of_iff (check y) _).0 h).0
  first_error_sound (y ∷ ys) h x (Memᴰ.tail m) =
      first_error_sound ys ((first_of_iff (check y) _).0 h).1 x m

  first_error_complete :
      (xs : List A) → ((x : A) → Memᴰ x xs → check x ≡ none) → first_error check xs ≡ none
  unfolding first_error
  first_error_complete [] h = refl
  first_error_complete (y ∷ ys) h =
      (first_of_iff (check y) _).1
        (h y (Memᴰ.head refl), first_error_complete ys (λ x m. h x (Memᴰ.tail m)))

  pub first_error_iff :
      (xs : List A) → (first_error check xs ≡ none) ↔ ((x : A) → Memᴰ x xs → check x ≡ none)
  first_error_iff xs = (first_error_sound xs, first_error_complete xs)

slice_contains_sound :
    (xs : List String) (x : String) → slice_contains_string xs x ≡ true → Memᴰ x xs
unfolding slice_contains_string
slice_contains_sound (y ∷ ys) x h = elim (Bool-cases (str_eq y x)) [
  | inl e ↦ Memᴰ.head (sym ((str_eq_iff y x).0 e))
  | inr e ↦ Memᴰ.tail (slice_contains_sound ys x (rw e at h))
]
slice_contains_sound [] x h = cc

slice_contains_complete :
    (xs : List String) (x : String) → Memᴰ x xs → slice_contains_string xs x ≡ true
unfolding slice_contains_string
slice_contains_complete [] x m = elim m [ ]
slice_contains_complete (y ∷ ys) x (Memᴰ.head e) = simp (e, str_eq_refl y)
slice_contains_complete (y ∷ ys) x (Memᴰ.tail m) =
    let rest = slice_contains_complete ys x m in
    elim (Bool-cases (str_eq y x)) [ inl e ↦ simp e | inr e ↦ simp (e, rest) ]

pub slice_contains_iff :
    (xs : List String) (x : String) → (slice_contains_string xs x ≡ true) ↔ Memᴰ x xs
slice_contains_iff xs x = (slice_contains_sound xs x, slice_contains_complete xs x)

pub not_contained_iff :
    (xs : List String) (x : String) → (slice_contains_string xs x ≡ false) ↔ ¬ (Memᴰ x xs)
not_contained_iff xs x = elim (Bool-cases (slice_contains_string xs x)) [
  | inl e ↦ (λ h m. cc, λ h. absurd (h (slice_contains_sound xs x e)))
  | inr e ↦ (λ h m. let c = slice_contains_complete xs x m in cc, λ h. e)
]

pub both_iff {ℓ κ} :
    {P : Type ℓ} {Q : Type κ} (a b : Option ConfigError)
    → (a ≡ none) ↔ P
    → (b ≡ none) ↔ Q
    → (first_of a b ≡ none) ↔ (P × Q)
both_iff a b p q = (
  λ h. let (x, y) = (first_of_iff a b).0 h in (p.0 x, q.0 y),
  λ h. (first_of_iff a b).1 (p.1 h.0, q.1 h.1),
)

mem_snoc : (xs : List String) (a x : String) → Memᴰ x (xs ++ a ∷ []) ↔ (Memᴰ x xs ⊎ (x ≡ a))
mem_snoc [] a x = (
  λ m. elim (Memᴰ-cases m) [ inl e ↦ inr e | inr n ↦ elim n [ ] ],
  λ h. elim h [ inl n ↦ elim n [ ] | inr e ↦ Memᴰ.head e ],
)
mem_snoc (y ∷ xs) a x =
    let i = mem_snoc xs a x in
    (
      λ m. elim (Memᴰ-cases m) [
        | inl e ↦ inl (Memᴰ.head e)
        | inr n ↦ elim (i.0 n) [ inl k ↦ inl (Memᴰ.tail k) | inr e ↦ inr e ]
      ],
      λ h. elim h [
        | inl m ↦ elim (Memᴰ-cases m) [ inl e ↦ Memᴰ.head e | inr n ↦ Memᴰ.tail (i.1 (inl n)) ]
        | inr e ↦ Memᴰ.tail (i.1 (inr e))
      ],
    )

-- A loop that collects the names met and rejects a name met before, with another check on each
-- element: what it accepts.
module _ {A : Type 0} (name : A → String) (duplicate : A → ConfigError)
    (check : A → Option ConfigError) where
  mem_name :
      (xs : List A) (n : String) → Memᴰ n (map name xs) ↔ ((x : A) × (Memᴰ x xs × (n ≡ name x)))
  mem_name [] n = (λ m. elim m [ ], λ h. let (x, (m, e)) = h in elim m [ ])
  mem_name (y ∷ xs) n =
      let i = mem_name xs n in
      (
        λ m. elim (Memᴰ-cases m) [
          | inl e ↦ (y, (Memᴰ.head refl, e))
          | inr k ↦ let (x, (k', e)) = i.0 k in (x, (Memᴰ.tail k', e))
        ],
        λ h.
            let (x, (m, e)) = h in
            elim (Memᴰ-cases m) [
              | inl same ↦ Memᴰ.head (e ∙ ap name same)
              | inr k ↦ Memᴰ.tail (i.1 (x, (k, e)))
            ],
      )

  unfoldable pub unique_from : List String → List A → Option ConfigError
  unique_from names [] = none
  unique_from names (x ∷ xs) =
      first_of (reject_if (slice_contains_string names (name x)) (duplicate x))
        (first_of (check x) (unique_from (names ++ name x ∷ []) xs))

  abbrev pub Accepts : List String → List A → Type 0
  Accepts names xs =
      ((x : A) → Memᴰ x xs → ¬ (Memᴰ (name x) names) × (check x ≡ none)) × AllDistinct (map name xs)

  new_name_iff :
      (names : List String) (x : A)
      → (reject_if (slice_contains_string names (name x)) (duplicate x) ≡ none)
        ↔ ¬ (Memᴰ (name x) names)
  new_name_iff names x =
      let i = reject_if_iff (slice_contains_string names (name x)) (duplicate x) in
      let k = not_contained_iff names (name x) in (λ h. k.0 (i.0 h), λ h. i.1 (k.1 h))

  Accepts-cons :
      (names : List String) (x : A) (xs : List A)
      → (¬ (Memᴰ (name x) names) × ((check x ≡ none) × Accepts (names ++ name x ∷ []) xs))
        ↔ Accepts names (x ∷ xs)
  Accepts-cons names x xs = (
    λ h. (from h, (first_new h, h.1.1.1)),
    λ h. ((h.0 x (Memᴰ.head refl)).0, ((h.0 x (Memᴰ.head refl)).1, (later h, h.1.1))),
  )
    where
      from :
          (¬ (Memᴰ (name x) names) × ((check x ≡ none) × Accepts (names ++ name x ∷ []) xs))
          → (y : A) → Memᴰ y (x ∷ xs)
          → ¬ (Memᴰ (name y) names) × (check y ≡ none)
      from (fresh, (ok, (rest, _))) y (Memᴰ.head e) = rw e (fresh, ok)
      from (fresh, (ok, (rest, _))) y (Memᴰ.tail m) =
          let (n, c) = rest y m in (λ k. n ((mem_snoc names (name x) (name y)).1 (inl k)), c)

      first_new :
          (¬ (Memᴰ (name x) names) × ((check x ≡ none) × Accepts (names ++ name x ∷ []) xs))
          → ¬ (Memᴰ (name x) (map name xs))
      first_new (_, (_, (rest, _))) k =
          let (y, (m, e)) = (mem_name xs (name x)).0 k in
          (rest y m).0 ((mem_snoc names (name x) (name y)).1 (inr (sym e)))

      later :
          Accepts names (x ∷ xs)
          → (y : A) → Memᴰ y xs
          → ¬ (Memᴰ (name y) (names ++ name x ∷ [])) × (check y ≡ none)
      later h y m =
          let (n, c) = h.0 y (Memᴰ.tail m) in
          (
            λ k. elim ((mem_snoc names (name x) (name y)).0 k) [
              | inl k' ↦ n k'
              | inr e ↦ h.1.0 ((mem_name xs (name x)).1 (y, (m, sym e)))
            ],
            c,
          )

  pub unique_from_iff :
      (names : List String) (xs : List A) → (unique_from names xs ≡ none) ↔ Accepts names xs
  unfolding unique_from
  unique_from_iff names [] = (λ h. (λ x m. elim m [ ], tt), λ h. refl)
  unique_from_iff names (x ∷ xs) =
      let i =
        both_iff _ _ (new_name_iff names x)
          (both_iff (check x) _ (λ h. h, λ h. h) (unique_from_iff (names ++ name x ∷ []) xs)) in
      let k = Accepts-cons names x xs in (λ h. k.0 (i.0 h), λ h. i.1 (k.1 h))
