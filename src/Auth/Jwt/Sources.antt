-- ===== src/Auth/Jwt/Sources.antt =====
-- jwt.go: where the credentials of a token come from.
use sushi_gateway.Prelude.{
  String, ◌≡◌, ◌≢◌, refl, sym, ap, subst, ◌∙◌, false, Bool-cases, Option-cases, inl, inr, Option,
  none, some, some_inj, List, [], ◌∷◌, arith, str_eq, str_eq_iff,
}
use mathlib.Core.List.{Memᴰ}
use sushi_gateway.Auth.{Consumer, JwtSecret}
use sushi_gateway.Auth.Jwt.{
  JwtPlugin, JwtCredentials, Configured, configured, with_secret, with_public_key, from_config,
  in_consumers, in_secrets, credentials_of,
}

in_secrets-some :
    (c : Consumer) (i : String) (ss : List JwtSecret) (k : JwtCredentials)
    → in_secrets c i ss ≡ some k
    → (s : JwtSecret) × Memᴰ s ss × (s.key ≡ i) × (k ≡ credentials_of c s)
unfolding in_secrets
in_secrets-some c i [] k e = cc
in_secrets-some c i (s ∷ ss) k e = elim (Bool-cases (str_eq s.key i)) [
  | inl h ↦ (s, Memᴰ.head refl, (str_eq_iff s.key i).0 h, sym (some_inj (rw h at e)))
  | inr h ↦ let (t, m, a, b) = in_secrets-some c i ss k (rw h at e) in (t, Memᴰ.tail m, a, b)
]

-- the credentials of a secret of a consumer of the list
abbrev pub OfConsumer : List Consumer → JwtCredentials → Type 0
OfConsumer cs k =
    (c : Consumer) × (s : JwtSecret) × Memᴰ c cs × Memᴰ s c.jwt_secrets × (k ≡ credentials_of c s)

pub in_consumers-some :
    (i : String) (cs : List Consumer) (k : JwtCredentials)
    → in_consumers i cs ≡ some k
    → OfConsumer cs k
unfolding in_consumers
in_consumers-some i [] k e = cc
in_consumers-some i (c ∷ cs) k e = elim (Option-cases (in_secrets c i c.jwt_secrets)) [
  | inl h ↦ let (d, s, m, n, f) = in_consumers-some i cs k (rw h at e) in (d, s, Memᴰ.tail m, n, f)
  | inr (x, h) ↦
      let (s, m, _, f) = in_secrets-some c i c.jwt_secrets k (h ∙ (rw h at e)) in
      (c, s, Memᴰ.head refl, m, f)
]

-- the credentials that the config gives, for HS256 with a secret, else with a public key
pub data OfConfig (p : JwtPlugin) (k : JwtCredentials) : Type 0 where
  of_secret :
      p.alg ≡ some "HS256"
      → p.iss ≡ some k.iss
      → p.secret ≡ some k.secret
      → k.alg ≡ "HS256"
      → OfConfig p k
  of_public_key :
      p.alg ≡ some k.alg
      → p.iss ≡ some k.iss
      → p.public_key ≡ some k.public_key
      → k.alg ≢ "HS256"
      → OfConfig p k

configured_inj : {a b : JwtCredentials} → configured a ≡ configured b → a ≡ b
configured_inj {a} e = ap (λ (c : Configured). elim c [ configured x ↦ x | _ ↦ a ]) e

pub not_hs256 : (a : String) → str_eq a "HS256" ≡ false → a ≢ "HS256"
not_hs256 a h e = ground (arith, str_eq_iff a "HS256")

with_secret-OfConfig :
    (p : JwtPlugin) (a i : String) (o : Option String) (k : JwtCredentials)
    → p.alg ≡ some a
    → p.iss ≡ some i
    → p.secret ≡ o
    → a ≡ "HS256"
    → with_secret a i o ≡ configured k
    → OfConfig p k
unfolding with_secret
with_secret-OfConfig p a i none k ea ei eo ha e = cc
with_secret-OfConfig p a i (some s) k ea ei eo ha e =
    subst (OfConfig p) (configured_inj e) (of_secret (ea ∙ ap some ha) ei eo ha)

with_public_key-OfConfig :
    (p : JwtPlugin) (a i : String) (o : Option String) (k : JwtCredentials)
    → p.alg ≡ some a
    → p.iss ≡ some i
    → p.public_key ≡ o
    → a ≢ "HS256"
    → with_public_key a i o ≡ configured k
    → OfConfig p k
unfolding with_public_key
with_public_key-OfConfig p a i none k ea ei eo ha e = cc
with_public_key-OfConfig p a i (some s) k ea ei eo ha e =
    subst (OfConfig p) (configured_inj e) (of_public_key ea ei eo ha)

pub from_config-OfConfig :
    (p : JwtPlugin) (a i : Option String) (k : JwtCredentials)
    → p.alg ≡ a
    → p.iss ≡ i
    → from_config p a i ≡ configured k
    → OfConfig p k
unfolding from_config
from_config-OfConfig p none i k ea ei e = cc
from_config-OfConfig p (some a) none k ea ei e = cc
from_config-OfConfig p (some a) (some i) k ea ei e = elim (Bool-cases (str_eq a "HS256")) [
  | inl h ↦
      with_secret-OfConfig p a i p.secret k ea ei refl ((str_eq_iff a "HS256").0 h) (rw h at e)
  | inr h ↦ with_public_key-OfConfig p a i p.public_key k ea ei refl (not_hs256 a h) (rw h at e)
]
