-- ===== src/Auth/Basic.antt =====
-- basic_auth.go: Validate and Execute. base64.StdEncoding.DecodeString is a parameter.
pub mod Laws
use sushi_gateway.Prelude.{
  String, Bool, true, false, ◌&&◌, ◌||◌, Option, none, some, List, [], ◌∷◌, if◌then◌else◌, str_eq,
}
use sushi_gateway.Prelude.Text.{codes, bytes_eq}
use sushi_gateway.Prelude.Dict.{or_default}
use sushi_gateway.Model.{Bytes}
use sushi_gateway.Http.{Request, HttpError, Outcome, refused, passed, get, del_header}
use sushi_gateway.Auth.{unauthorized, split_in_two}

pub record BasicAuthPlugin : Type 0 where
  pub username : Option String
  pub password : Option String

-- a missing value reads as the empty text
abbrev pub text_of : Option String → String
text_of v = or_default v ""

abbrev missing : Option String → Bool
missing v = str_eq (text_of v) ""

-- Validate
unfoldable pub is_valid : BasicAuthPlugin → Bool
is_valid p = if missing p.username then false else if missing p.password then false else true

abbrev pub challenge : List (String × String)
challenge = ("WWW-Authenticate", "Basic realm=\"Access to sushi gateway\", charset=UTF-8") ∷ []

-- what a step of the handler gives: a value, or the error that ends the request
pub data Step {ℓ} (A : Type ℓ) : Type ℓ where
  fail : HttpError → Step A
  next : A → Step A

infixl 5 ◌>>=◌
abbrev pub ◌>>=◌ {ℓ κ} : {A : Type ℓ} {B : Type κ} → Step A → (A → Step B) → Step B
fail e >>= f = fail e
next a >>= f = f a

abbrev pub or_fail {ℓ} : {A : Type ℓ} → String → Option A → Step A
or_fail c none = fail (unauthorized c)
or_fail c (some a) = next a

module _ (decode : Bytes → Option Bytes) where
  unfoldable pub verify_and_parse_auth_header : Request → Step (Bytes × Bytes)
  verify_and_parse_auth_header req = do
    bits ← or_fail "MALFORMED_AUTH_HEADER" (split_in_two b' ' (codes (get req "Authorization")))
    decoded ← or_fail "DECODE_TOKEN_ERROR" (decode bits.1)
    or_fail "MALFORMED_AUTH_HEADER" (split_in_two b':' decoded)

  unfoldable pub authorize : BasicAuthPlugin → Bytes × Bytes → Step (Unit {0})
  authorize p (username, password) =
      if bytes_eq username (codes (text_of p.username))
        && bytes_eq password (codes (text_of p.password))
      then next tt
      else fail (unauthorized "INVALID_CREDENTIALS")

  abbrev finish : Request → Step (Unit {0}) → Outcome
  finish req (fail e) = refused challenge e
  finish req (next _) = passed (del_header "Authorization" req)

  -- Execute
  unfoldable pub execute : BasicAuthPlugin → Request → Outcome
  execute p req = finish req (verify_and_parse_auth_header req >>= authorize p)
