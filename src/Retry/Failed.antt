-- ===== src/Retry/Failed.antt =====
-- retry_handle.go: which upstreams a handle takes as failed, and whether one is left.
use sushi_gateway.Prelude.{
  String, ◌≡◌, ◌↔◌, ◌⊎◌, inl, inr, refl, subst, sym, ap, ◌∙◌, true, false, List, [], ◌∷◌, ◌++◌,
  arith, Memᴰ, Memᴰ-cases, str_eq, str_eq_iff, str_eq_refl, if◌then◌else◌, Bool-cases, length,
  ltb→lt, lt→ltb, AllDistinct, distinct-length,
}
use sushi_gateway.Balancer.{contains}
use sushi_gateway.Retry.{
  RetryHandle, new_retry_handle, add_key, mark_failed, is_failed, has_available_upstreams,
}

contains_sound : (xs : List String) (x : String) → contains xs x ≡ true → Memᴰ x xs
unfolding contains
contains_sound [] x h = cc
contains_sound (y ∷ ys) x h = elim (Bool-cases (str_eq y x)) [
  | inl e ↦ Memᴰ.head (sym ((str_eq_iff y x).0 e))
  | inr e ↦ Memᴰ.tail (contains_sound ys x (rw e at h))
]

contains_complete : (xs : List String) (x : String) → Memᴰ x xs → contains xs x ≡ true
unfolding contains
contains_complete [] x m = elim m [ ]
contains_complete (y ∷ ys) x (Memᴰ.head e) = simp (e, str_eq_refl y)
contains_complete (y ∷ ys) x (Memᴰ.tail m) =
    let rest = contains_complete ys x m in
    elim (Bool-cases (str_eq y x)) [ inl e ↦ simp e | inr e ↦ simp (e, rest) ]

contains-snoc :
    (xs : List String) (a x : String)
    → contains (xs ++ a ∷ []) x ≡ (if contains xs x then true else str_eq a x)
unfolding contains
contains-snoc [] a x = elim (Bool-cases (str_eq a x)) [ inl e ↦ simp e | inr e ↦ simp e ]
contains-snoc (y ∷ ys) a x =
    let rest = contains-snoc ys a x in
    elim (Bool-cases (str_eq y x)) [ inl e ↦ simp e | inr e ↦ simp (e, rest) ]

pub contains-add_key :
    (xs : List String) (k x : String)
    → contains (add_key xs k) x ≡ (if contains xs x then true else str_eq k x)
unfolding add_key
contains-add_key xs k x = elim (Bool-cases (contains xs k)) [
  | inr e ↦ simp (e, contains-snoc)
  | inl e ↦ simp e (elim (Bool-cases (str_eq k x)) [
    | inl s ↦
        let at : contains xs x ≡ true = ap (contains xs) (sym ((str_eq_iff k x).0 s)) ∙ e in simp at
    | inr s ↦ elim (Bool-cases (contains xs x)) [ inl c ↦ simp c | inr c ↦ simp (c, s) ]
  ])
]

unfoldable pub mark_all : List String → RetryHandle → RetryHandle
mark_all [] h = h
mark_all (id ∷ ids) h = mark_all ids (mark_failed id h)

-- IsFailed tells exactly the upstreams that were marked, in any order and any number of times.
pub is_failed-mark_all :
    (ids : List String) (h : RetryHandle) (x : String)
    → (is_failed (mark_all ids h) x ≡ true) ↔ ((is_failed h x ≡ true) ⊎ Memᴰ x ids)
unfolding mark_all is_failed mark_failed
is_failed-mark_all [] h x = (λ f. inl f, λ f. elim f [ inl e ↦ e | inr m ↦ elim m [ ] ])
is_failed-mark_all (id ∷ ids) h x =
    let i = is_failed-mark_all ids (mark_failed id h) x in
    let step = contains-add_key h.failed_upstreams id x in
    (
      λ f. elim (i.0 f) [
        | inl e ↦ elim (Bool-cases (contains h.failed_upstreams x)) [
          | inl c ↦ inl c
          | inr c ↦ inr (Memᴰ.head (sym ((str_eq_iff id x).0 (sym (step ∙ simp c) ∙ e))))
        ]
        | inr m ↦ inr (Memᴰ.tail m)
      ],
      λ f. elim f [
        | inl e ↦ i.1 (inl (step ∙ simp e))
        | inr m ↦ elim (Memᴰ-cases m) [
          | inl e ↦ i.1 (
              inl (
                step
                ∙ simp (e, str_eq_refl id)
                    (elim (Bool-cases (contains h.failed_upstreams id)) [
                      | inl c ↦ simp c
                      | inr c ↦ simp c
                    ])))
          | inr m' ↦ i.1 (inr m')
        ]
      ],
    )

snoc-AllDistinct :
    (xs : List String) (a : String) → AllDistinct xs → ¬ (Memᴰ a xs) → AllDistinct (xs ++ a ∷ [])
snoc-AllDistinct [] a d n = ((λ m. elim m [ ]), tt)
snoc-AllDistinct (x ∷ xs) a (f, d) n = (
  λ m. elim (Bool-cases (contains xs x)) [
    | inl c ↦ f (contains_sound xs x c)
    | inr c ↦
        let k : true ≡ str_eq a x =
          sym (contains_complete (xs ++ a ∷ []) x m) ∙ contains-snoc xs a x ∙ simp c in
        n (Memᴰ.head ((str_eq_iff a x).0 (sym k)))
  ],
  snoc-AllDistinct xs a d (λ m. n (Memᴰ.tail m)),
)

add_key-AllDistinct : (xs : List String) (k : String) → AllDistinct xs → AllDistinct (add_key xs k)
unfolding add_key
add_key-AllDistinct xs k d = elim (Bool-cases (contains xs k)) [
  | inl e ↦ simp e d
  | inr e ↦ simp e (snoc-AllDistinct xs k d (λ m. let c = contains_complete xs k m in cc))
]

mark_all-AllDistinct :
    (ids : List String) (h : RetryHandle)
    → AllDistinct h.failed_upstreams
    → AllDistinct (mark_all ids h).failed_upstreams
unfolding mark_all mark_failed
mark_all-AllDistinct [] h d = d
mark_all-AllDistinct (id ∷ ids) h d =
    mark_all-AllDistinct ids (mark_failed id h) (add_key-AllDistinct _ id d)

some_missing :
    (us fs : List String)
    → ((x : String) × (Memᴰ x us × (contains fs x ≡ false)))
      ⊎ ((x : String) → Memᴰ x us → Memᴰ x fs)
some_missing [] fs = inr (λ x m. elim m [ ])
some_missing (u ∷ us) fs = elim (Bool-cases (contains fs u)) [
  | inr e ↦ inl (u, (Memᴰ.head refl, e))
  | inl e ↦ elim (some_missing us fs) [
    | inl (x, (m, f)) ↦ inl (x, (Memᴰ.tail m, f))
    | inr all ↦ inr (λ x m. elim (Memᴰ-cases m) [
      | inl same ↦ contains_sound fs x (ap (contains fs) same ∙ e)
      | inr m' ↦ all x m'
    ])
  ]
]

-- the keys of a new handle after some marks
marked_iff :
    (name : String) (ids : List String) (x : String)
    → Memᴰ x (mark_all ids (new_retry_handle name)).failed_upstreams ↔ Memᴰ x ids
unfolding is_failed new_retry_handle contains
marked_iff name ids x =
    let i = is_failed-mark_all ids (new_retry_handle name) x in
    (
      λ m. elim (i.0 (contains_complete _ x m)) [ inl e ↦ absurd cc | inr k ↦ k ],
      λ m. contains_sound _ x (i.1 (inr m)),
    )

-- For a new handle on which ids of a service's upstreams were marked, in any order and any number
-- of times, HasAvailableUpstreams tells whether some upstream of the service was not marked,
-- provided that the ids of the upstreams differ.
pub has_available_upstreams_iff :
    (name : String) (us ids : List String)
    → AllDistinct us
    → ((x : String) → Memᴰ x ids → Memᴰ x us)
    → (has_available_upstreams (mark_all ids (new_retry_handle name)) (length us) ≡ true)
      ↔ ((x : String) × (Memᴰ x us × ¬ (Memᴰ x ids)))
unfolding has_available_upstreams new_retry_handle
has_available_upstreams_iff name us ids d s =
    let h = mark_all ids (new_retry_handle name) in
    (
      λ t. elim (some_missing us h.failed_upstreams) [
        | inl (x, (m, f)) ↦ (
          x,
          (
            m,
            λ k. let c = contains_complete h.failed_upstreams x ((marked_iff name ids x).1 k) in cc,
          ),
        )
        | inr all ↦
            absurd
              (let l = distinct-length us h.failed_upstreams d all in omega (arith, ltb→lt _ _ t))
      ],
      λ e.
          let (x, (m, n)) = e in
          let all_different : AllDistinct (x ∷ h.failed_upstreams) = (
            (λ k. n ((marked_iff name ids x).0 k)),
            mark_all-AllDistinct ids (new_retry_handle name) tt,
          ) in
          let l = distinct-length (x ∷ h.failed_upstreams) us all_different (λ y k.
            elim (Memᴰ-cases k) [
              | inl same ↦ subst (λ (z : String). Memᴰ z us) (sym same) m
              | inr k' ↦ s y ((marked_iff name ids y).0 k')
            ]) in
          lt→ltb _ _ (omega (arith, l)),
    )
