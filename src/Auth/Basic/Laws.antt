-- ===== src/Auth/Basic/Laws.antt =====
-- basic_auth.go: which requests pass.
use sushi_gateway.Prelude.{
  ℕ, String, ◌≡◌, refl, ap, ◌∙◌, ◌↔◌, Option, none, some, List, [], ◌∷◌, ◌++◌, arith,
}
use mathlib.Core.Path.{subst₂}
use sushi_gateway.Prelude.Text.{codes, split, bytes_eq_iff, bytes_eq_refl}
use sushi_gateway.Prelude.Text.Split.{Plain, split-Plain, split-append, split_two}
use sushi_gateway.Model.{Bytes}
use sushi_gateway.Http.{Request, passed, get, del_header}
use sushi_gateway.Auth.{split_in_two, two_parts}
use sushi_gateway.Auth.Basic.{
  BasicAuthPlugin, text_of, Step, next, fail, verify_and_parse_auth_header, authorize, execute,
  finish, or_fail, ◌>>=◌,
}

pub split_in_two-append :
    (c : ℕ) (s t : Bytes) → Plain c s → Plain c t → split_in_two c (s ++ c ∷ t) ≡ some (s, t)
unfolding split_in_two
split_in_two-append c s t p q = rw (split-append c s t p, split-Plain c t q) refl

two_parts-some : (ps : List Bytes) (a b : Bytes) → two_parts ps ≡ some (a, b) → ps ≡ a ∷ b ∷ []
two_parts-some [] a b e = cc
two_parts-some (x ∷ []) a b e = cc
two_parts-some (x ∷ y ∷ []) a b e = cc
two_parts-some (x ∷ y ∷ z ∷ ps) a b e = cc

pub split_in_two-some :
    (c : ℕ) (s a b : Bytes)
    → split_in_two c s ≡ some (a, b)
    → (s ≡ a ++ c ∷ b) × Plain c a × Plain c b
unfolding split_in_two
split_in_two-some c s a b e = split_two c s a b (two_parts-some (split c s) a b e)

>>=-next {ℓ κ} :
    {A : Type ℓ} {B : Type κ} (m : Step A) (f : A → Step B) {b : B}
    → (m >>= f) ≡ next b
    → (a : A) × (m ≡ next a) × (f a ≡ next b)
>>=-next (next a) f e = (a, refl, e)
>>=-next (fail x) f e = cc

or_fail-next {ℓ} :
    {A : Type ℓ} (c : String) (o : Option A) {a : A} → or_fail c o ≡ next a → o ≡ some a
or_fail-next c none e = cc
or_fail-next c (some x) e = cc

module _ (decode : Bytes → Option Bytes) where
  -- The Authorization header is two words, of which the second decodes to user:password, and
  -- neither the user nor the password has a colon.
  pub record Carries (req : Request) (user password : Bytes) : Type 0 where
    pub scheme : Bytes
    pub token : Bytes
    pub words : codes (get req "Authorization") ≡ scheme ++ b' ' ∷ token
    pub scheme_plain : Plain b' ' scheme
    pub token_plain : Plain b' ' token
    pub decoded : decode token ≡ some (user ++ b':' ∷ password)
    pub user_plain : Plain b':' user
    pub password_plain : Plain b':' password

  -- The parser reads a user and a password from the header exactly if the header carries them,
  -- whatever its first word is.
  pub verify_and_parse_auth_header_iff :
      (req : Request) (user password : Bytes)
      → (verify_and_parse_auth_header decode req ≡ next (user, password))
        ↔ Carries req user password
  unfolding verify_and_parse_auth_header
  verify_and_parse_auth_header_iff req user password = (reads, λ c. carried c)
    where
      header : Bytes
      header = codes (get req "Authorization")

      carried :
          (c : Carries req user password)
          → verify_and_parse_auth_header decode req ≡ next (user, password)
      carried c = simp (
        c.words,
        split_in_two-append b' ' c.scheme c.token c.scheme_plain c.token_plain,
        c.decoded,
        split_in_two-append b':' user password c.user_plain c.password_plain,
      )

      reads :
          verify_and_parse_auth_header decode req ≡ next (user, password)
          → Carries req user password
      reads e =
          let (bits, h, e1) =
            >>=-next (or_fail "MALFORMED_AUTH_HEADER" (split_in_two b' ' header)) _ e in
          let (decoded, h2, e2) = >>=-next (or_fail "DECODE_TOKEN_ERROR" (decode bits.1)) _ e1 in
          let parts = split_in_two-some b' ' header bits.0 bits.1 (or_fail-next _ _ h) in
          let pair = split_in_two-some b':' decoded user password (or_fail-next _ _ e2) in
          record {
            scheme = bits.0;
            token = bits.1;
            words = parts.0;
            scheme_plain = parts.1;
            token_plain = parts.2;
            decoded = or_fail-next _ _ h2 ∙ ap some pair.0;
            user_plain = pair.1;
            password_plain = pair.2;
          }

  -- the configured user and password, or the empty text for one that is missing
  abbrev pub Authorized : BasicAuthPlugin → Request → Type 0
  Authorized p req = Carries req (codes (text_of p.username)) (codes (text_of p.password))

  authorize-next :
      (p : BasicAuthPlugin) (u w : Bytes)
      → authorize decode p (u, w) ≡ next tt
      → (u ≡ codes (text_of p.username)) × (w ≡ codes (text_of p.password))
  unfolding authorize
  authorize-next p u w e = ground (
    arith,
    bytes_eq_iff u (codes (text_of p.username)),
    bytes_eq_iff w (codes (text_of p.password)),
  )

  authorize_self :
      (p : BasicAuthPlugin)
      → authorize decode p (codes (text_of p.username), codes (text_of p.password)) ≡ next tt
  unfolding authorize
  authorize_self p =
      rw (bytes_eq_refl (codes (text_of p.username)), bytes_eq_refl (codes (text_of p.password)))

  finish-passed :
      (req r : Request) (s : Step (Unit {0})) → finish decode req s ≡ passed r → s ≡ next tt
  finish-passed req r (next _) e = refl
  finish-passed req r (fail x) e = cc

  -- A request passes, with its Authorization header removed, exactly if it carries the configured
  -- user and password.
  pub execute-Authorized :
      (p : BasicAuthPlugin) (req : Request)
      → (execute decode p req ≡ passed (del_header "Authorization" req)) ↔ Authorized p req
  unfolding execute
  execute-Authorized p req = (passes, lets_in)
    where
      lets_in : Authorized p req → execute decode p req ≡ passed (del_header "Authorization" req)
      lets_in c = rw ((verify_and_parse_auth_header_iff req _ _).1 c, authorize_self p)

      passes : execute decode p req ≡ passed (del_header "Authorization" req) → Authorized p req
      passes e =
          let ((u, w), h, a) =
            >>=-next (verify_and_parse_auth_header decode req) (authorize decode p)
              (finish-passed req _ _ e) in
          let same = authorize-next p u w a in
          subst₂ (Carries req) same.0 same.1 ((verify_and_parse_auth_header_iff req u w).0 h)
