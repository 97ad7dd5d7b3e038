-- ===== src/Retry/Tests.antt =====
-- retry_handle.go: the theorems at a concrete handle.
use sushi_gateway.Prelude.{
  String, ◌≡◌, ◌↔◌, true, false, str_eq_iff, [], ◌∷◌, Memᴰ, Memᴰ-cases, inl, inr,
}
use sushi_gateway.Retry.{new_retry_handle, has_available_upstreams}
use sushi_gateway.Retry.Failed.{mark_all, has_available_upstreams_iff}

has_available_upstreams_example :
    (has_available_upstreams (mark_all ("u2" ∷ "u2" ∷ []) (new_retry_handle "orders")) 2 ≡ true) ↔ (
      (x : String) × (Memᴰ {A = String} x ("u1" ∷ "u2" ∷ [])
        × ¬ (Memᴰ {A = String} x ("u2" ∷ "u2" ∷ []))))
has_available_upstreams_example =
    has_available_upstreams_iff "orders" ("u1" ∷ "u2" ∷ []) ("u2" ∷ "u2" ∷ [])
      (
        (λ m. elim (Memᴰ-cases m) [
          | inl e ↦ (let t : false ≡ true = (str_eq_iff "u1" "u2").1 e in cc)
          | inr n ↦ elim n [ ]
        ]),
        ((λ m. elim m [ ]), tt),
      )
      (λ x m. elim (Memᴰ-cases m) [
        | inl e ↦ Memᴰ.tail (Memᴰ.head e)
        | inr n ↦ elim (Memᴰ-cases n) [ inl e ↦ Memᴰ.tail (Memᴰ.head e) | inr k ↦ elim k [ ] ]
      ])
