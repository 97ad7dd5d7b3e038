-- ===== src/Auth.antt =====
-- The plugins that authenticate: basic_auth.go, key_auth.go, jwt.go and multi_auth.go, and the
-- consumers of the configuration, which they look up. A value of a plugin's config is `none` where
-- it is missing or of another type. The bytes of a header's value are those of the text.
pub mod Basic
pub mod Key
pub mod Jwt
pub mod Multi
pub mod Rbac
mod Tests
use sushi_gateway.Prelude.{ℕ, String, Bool, true, false, Option, none, some, List, [], ◌∷◌}
use sushi_gateway.Prelude.Text.{codes, split}
use sushi_gateway.Model.{Bytes}
use sushi_gateway.Http.{HttpError}

pub record JwtSecret : Type 0 where
  pub algorithm : String
  pub key : String
  pub secret : String
  pub rsa_public_key : String

pub record Consumer : Type 0 where
  pub username : String
  pub jwt_secrets : List JwtSecret
  pub key_auth_credentials : List String

abbrev pub unauthorized : String → HttpError
unauthorized c = record { http_code = 401; code = c }

abbrev two_parts : List Bytes → Option (Bytes × Bytes)
two_parts (a ∷ b ∷ []) = some (a, b)
two_parts _ = none

-- strings.Split at one byte, where the code wants exactly two parts
unfoldable pub split_in_two : ℕ → Bytes → Option (Bytes × Bytes)
split_in_two c s = two_parts (split c s)
