-- ===== src/Acl/Decision.antt =====
-- acl.go: whom a plugin with a valid config serves.
use sushi_gateway.Prelude.{
  String, ◌≡◌, ◌↔◌, ◌⊎◌, inl, inr, refl, ap, true, false, Option, none, some, List, [], ◌∷◌, Memᴰ,
  Memᴰ-cases, str_eq, str_eq_iff, Bool-cases,
}
use sushi_gateway.Acl.{
  Entry, text, not_text, Value, array, not_array, AclPlugin, some_equal, is_listed, either_listed,
  validate, validate_lists, check_list, not_strings, all_text, to_string_slice, served, denied,
  decide, execute,
}

abbrev pub Listed : Value → String → Type 0
Listed not_array ip = ⊥
Listed (array es) ip = Memᴰ (text ip) es

some_equal_iff : (ss : List String) (ip : String) → (some_equal ss ip ≡ true) ↔ Memᴰ ip ss
unfolding some_equal
some_equal_iff [] ip = (λ h. cc, λ m. elim m [ ])
some_equal_iff (s ∷ ss) ip =
    let i = some_equal_iff ss ip in
    elim (Bool-cases (str_eq ip s)) [
      | inl e ↦ simp e (λ h. Memᴰ.head ((str_eq_iff ip s).0 e), λ m. refl)
      | inr e ↦ simp e (
        λ h. Memᴰ.tail (i.0 h),
        λ m. elim (Memᴰ-cases m) [
          | inl same ↦ absurd (let t = (str_eq_iff ip s).1 same in cc)
          | inr k ↦ i.1 k
        ],
      )
    ]

text_inj : {a b : String} → text a ≡ text b → a ≡ b
text_inj e = cc

-- the strings of a list that has nothing else
abbrev Slice : List Entry → List String → Type 0
Slice es ss = (to_string_slice es ≡ some ss) × ((ip : String) → Memᴰ ip ss ↔ Memᴰ (text ip) es)

all_text-Slice : (es : List Entry) → all_text es ≡ true → (ss : List String) × Slice es ss
unfolding all_text to_string_slice
all_text-Slice [] h = ([], (refl, λ ip. (λ m. elim m [ ], λ m. elim m [ ])))
all_text-Slice (not_text ∷ es) h = cc
all_text-Slice (text s ∷ es) h =
    let (ss, (e, i)) = all_text-Slice es h in
    (
      s ∷ ss,
      (
        simp e,
        λ ip. (
          λ m. elim (Memᴰ-cases m) [
            | inl same ↦ Memᴰ.head (ap text same)
            | inr k ↦ Memᴰ.tail ((i ip).0 k)
          ],
          λ m. elim (Memᴰ-cases m) [
            | inl same ↦ Memᴰ.head (text_inj same)
            | inr k ↦ Memᴰ.tail ((i ip).1 k)
          ],
        ),
      ),
    )

-- the address that the client has or says it has
abbrev pub EitherListed : Value → String → String → Type 0
EitherListed v client forwarded = Listed v client ⊎ Listed v forwarded

either_listed_lem :
    (es : List Entry) (client forwarded : String)
    → all_text es ≡ true
    → ((either_listed (array es) client forwarded ≡ some true)
        × EitherListed (array es) client forwarded)
      ⊎ ((either_listed (array es) client forwarded ≡ some false)
          × ¬ (EitherListed (array es) client forwarded))
unfolding either_listed is_listed
either_listed_lem es client forwarded h =
    let (ss, (slice, k)) = all_text-Slice es h in
    let i = some_equal_iff ss client in
    let j = some_equal_iff ss forwarded in
    elim (Bool-cases (some_equal ss client)) [
      | inl c ↦ inl (simp (slice, c), inl ((k client).0 (i.0 c)))
      | inr c ↦ elim (Bool-cases (some_equal ss forwarded)) [
        | inl f ↦ inl (simp (slice, c, f), inr ((k forwarded).0 (j.0 f)))
        | inr f ↦ inr (
          simp (slice, c, f),
          λ l. elim l [
            | inl m ↦ (let t = i.1 ((k client).1 m) in cc)
            | inr m ↦ (let t = j.1 ((k forwarded).1 m) in cc)
          ],
        )
      ]
    ]

-- a whitelist has one of the two addresses; a blacklist has neither
abbrev pub Allows : Option Value → Option Value → String → String → Type 0
Allows (some w) b client forwarded = EitherListed w client forwarded
Allows none (some b) client forwarded = ¬ (EitherListed b client forwarded)
Allows none none client forwarded = Unit

checked : (es : List Entry) → check_list (array es) ≡ none → all_text es ≡ true
unfolding check_list
checked es h = elim (Bool-cases (all_text es)) [
  | inl e ↦ e
  | inr e ↦ absurd (let f : some not_strings ≡ none = rw e at h in cc)
]

decide-Allows :
    (w b : Option Value) (client forwarded : String)
    → validate_lists w b ≡ none
    → ((decide w b client forwarded ≡ some served) × Allows w b client forwarded)
      ⊎ ((decide w b client forwarded ≡ some denied) × ¬ (Allows w b client forwarded))
unfolding decide validate_lists check_list
decide-Allows (some w) (some b) client forwarded h = cc
decide-Allows none none client forwarded h = cc
decide-Allows (some not_array) none client forwarded h = cc
decide-Allows none (some not_array) client forwarded h = cc
decide-Allows (some (array es)) none client forwarded h =
    elim (either_listed_lem es client forwarded (checked es h)) [
      | inl (e, l) ↦ inl (simp e, l)
      | inr (e, n) ↦ inr (simp e, n)
    ]
decide-Allows none (some (array es)) client forwarded h =
    elim (either_listed_lem es client forwarded (checked es h)) [
      | inl (e, l) ↦ inr (simp e, λ n. n l)
      | inr (e, n) ↦ inl (simp e, n)
    ]

-- A plugin whose config is valid never panics on a request whose remote address has a host: it
-- serves the request if its whitelist has that host or the forwarded address, or its blacklist
-- neither, and denies it otherwise.
pub execute-Allows :
    (p : AclPlugin) (client forwarded : String)
    → validate p ≡ none
    → ((execute p (some client) forwarded ≡ some served)
        × Allows p.whitelist p.blacklist client forwarded)
      ⊎ ((execute p (some client) forwarded ≡ some denied)
          × ¬ (Allows p.whitelist p.blacklist client forwarded))
unfolding execute validate
execute-Allows p client forwarded h = decide-Allows p.whitelist p.blacklist client forwarded h
