-- ===== src/Auth/Multi/Laws.antt =====
-- multi_auth.go: a request passes by one of the strategies.
use sushi_gateway.Prelude.{
  String, ◌≡◌, refl, sym, ap, ◌≢◌, ◌⊎◌, ◌↔◌, inl, inr, Option, none, some, List, [], ◌∷◌, ◌++◌,
  Memᴰ, Memᴰ-cases, subst,
}
use sushi_gateway.Model.{Bytes}
use sushi_gateway.Http.{Request, HttpError, Outcome, refused, passed, del_header}
use sushi_gateway.Auth.{Consumer}
use sushi_gateway.Auth.Basic.Laws
use sushi_gateway.Auth.Basic.Laws.{Carries}
use sushi_gateway.Auth.Jwt.{JwtLib}
use sushi_gateway.Auth.Multi.{
  MultiAuthPlugin, no_basic_auth, Result, admitted, keep_context, run, settle, try_all, execute,
  create_auth_plugin,
}

admitted_inj :
    {hs hs2 : List (String × String)} {r r2 : Request} → admitted hs r ≡ admitted hs2 r2 → r ≡ r2
admitted_inj {r} e = ap (λ (o : Result). elim o [ admitted _ x ↦ x | _ ↦ r ]) e

-- the loop ends with an admission
abbrev pub Admits : Result → Type 0
Admits x = (hs : List (String × String)) × (r : Request) × (x ≡ admitted hs r)

module _ (decode : Bytes → Option Bytes) (canonical : String → String) (lib : JwtLib)
    (p : MultiAuthPlugin) (cs : List Consumer) (req : Request) where
  abbrev result : String → Option (Option Outcome)
  result s = run decode canonical lib p cs req (create_auth_plugin s)

  -- the strategy's plugin calls the next handler with this request
  abbrev pub Passes : String → Request → Type 0
  Passes s o = result s ≡ some (some (passed o))

  settle-admitted :
      (hs hs2 : List (String × String)) (last : Option HttpError) (r : Request)
      (rest : List (String × String) → Option HttpError → Result) (x : Option (Option Outcome))
      → settle decode canonical lib req hs last rest x ≡ admitted hs2 r
      → ((o : Request) × (x ≡ some (some (passed o))) × (r ≡ keep_context req o))
        ⊎ ((h : List (String × String)) × (l : Option HttpError) × (rest h l ≡ admitted hs2 r))
  unfolding settle
  settle-admitted hs hs2 last r rest none e = inr (hs, last, e)
  settle-admitted hs hs2 last r rest (some none) e = cc
  settle-admitted hs hs2 last r rest (some (some (passed o))) e =
      inl (o, refl, sym (admitted_inj e))
  settle-admitted hs hs2 last r rest (some (some (refused h x))) e = inr (hs ++ h, some x, e)

  try_all-admitted :
      (ss : List String) (hs hs2 : List (String × String)) (last : Option HttpError) (r : Request)
      → try_all decode canonical lib p cs req ss hs last ≡ admitted hs2 r
      → (s : String) × (o : Request) × Memᴰ s ss × Passes s o × (r ≡ keep_context req o)
  unfolding try_all
  try_all-admitted [] hs hs2 last r e = cc
  try_all-admitted (s ∷ ss) hs hs2 last r e =
      elim (settle-admitted hs hs2 last r (λ h l. try_all decode canonical lib p cs req ss h l)
        (result s) e) [
          | inl (o, q, k) ↦ (s, o, Memᴰ.head refl, q, k)
          | inr (h, l, q) ↦
              let (t, o, m, w, k) = try_all-admitted ss h hs2 l r q in (t, o, Memᴰ.tail m, w, k)
        ]

  settle-Admits :
      (hs : List (String × String)) (last : Option HttpError)
      (rest : List (String × String) → Option HttpError → Result) (x : Option (Option Outcome))
      → x ≢ some none
      → ((o : Request) × (x ≡ some (some (passed o))))
        ⊎ ((h : List (String × String)) (l : Option HttpError) → Admits (rest h l))
      → Admits (settle decode canonical lib req hs last rest x)
  unfolding settle
  settle-Admits hs last rest none safe (inl (o, e)) = absurd (cc)
  settle-Admits hs last rest none safe (inr f) = f hs last
  settle-Admits hs last rest (some none) safe c = absurd (safe refl)
  settle-Admits hs last rest (some (some (passed o))) safe c = (hs, keep_context req o, refl)
  settle-Admits hs last rest (some (some (refused h x))) safe (inl (o, e)) = absurd (cc)
  settle-Admits hs last rest (some (some (refused h x))) safe (inr f) = f (hs ++ h) (some x)

  try_all-Admits :
      (ss : List String) (hs : List (String × String)) (last : Option HttpError) (s : String)
      (o : Request)
      → ((t : String) → Memᴰ t ss → result t ≢ some none)
      → Memᴰ s ss
      → Passes s o
      → Admits (try_all decode canonical lib p cs req ss hs last)
  unfolding try_all
  try_all-Admits [] hs last s o safe m w = elim m [ ]
  try_all-Admits (t ∷ ss) hs last s o safe m w =
      settle-Admits hs last (λ h l. try_all decode canonical lib p cs req ss h l) (result t)
        (safe t (Memᴰ.head refl))
        (elim (Memᴰ-cases m) [
          | inl e ↦ inl (o, subst (λ (x : String). Passes x o) e w)
          | inr n ↦ inr (λ h l. try_all-Admits ss h l s o (λ u k. safe u (Memᴰ.tail k)) n w)
        ])

  -- If no strategy panics, a request is let in exactly if one of the strategies lets it in.
  pub execute-Admits :
      ((t : String) → Memᴰ t p.strategies → result t ≢ some none)
      → Admits (execute decode canonical lib p cs req)
        ↔ ((s : String) × (o : Request) × Memᴰ s p.strategies × Passes s o)
  unfolding execute
  execute-Admits safe = (
    λ a. let (s, o, m, w, k) = try_all-admitted p.strategies [] a.0 none a.1 a.2 in (s, o, m, w),
    λ w. try_all-Admits p.strategies [] none w.0 w.1 safe w.2 w.3,
  )

  -- The consumer that a strategy found does not go on: a request that is let in keeps the consumer
  -- that it came with.
  pub execute-consumer_id :
      (hs : List (String × String)) (r : Request)
      → execute decode canonical lib p cs req ≡ admitted hs r
      → r.consumer_id ≡ req.consumer_id
  unfolding execute
  execute-consumer_id hs r e =
      let (s, o, m, w, k) = try_all-admitted p.strategies [] hs none r e in
      ap (λ (x : Request). x.consumer_id) k

  -- With basic_auth among the strategies and no section for it, an empty user and an empty password
  -- let anyone in, if no strategy panics.
  pub execute-no_section :
      p.basic_auth ≡ no_basic_auth
      → Memᴰ "basic_auth" p.strategies
      → ((t : String) → Memᴰ t p.strategies → result t ≢ some none)
      → Carries decode req [] []
      → Admits (execute decode canonical lib p cs req)
  unfolding run create_auth_plugin
  execute-no_section none_set m safe c = (execute-Admits safe).1 (
    "basic_auth",
    del_header "Authorization" req,
    m,
    ap (λ (o : Outcome). some (some o))
        ((Laws.execute-Authorized decode p.basic_auth req).1 (rw none_set c)),
  )
