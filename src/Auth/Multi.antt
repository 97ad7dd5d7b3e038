-- ===== src/Auth/Multi.antt =====
-- multi_auth.go: NewMultiAuthPlugin, createAuthPlugin and Execute. The strategies' plugins run on
-- the request with a next handler that only notes that it was called. They strip headers of the
-- request that all of them share; the context that they add is on a copy, which is dropped.
pub mod Laws
use sushi_gateway.Prelude.{
  String, Bool, true, false, Option, none, some, List, [], ◌∷◌, ◌++◌, if◌then◌else◌, str_eq,
}
use sushi_gateway.Model.{Bytes}
use sushi_gateway.Http.{Request, HttpError, Outcome, refused, passed}
use sushi_gateway.Auth.{Consumer, unauthorized}
use sushi_gateway.Auth.Basic
use sushi_gateway.Auth.Basic.{BasicAuthPlugin}
use sushi_gateway.Auth.Key
use sushi_gateway.Auth.Key.{KeyAuthPlugin, texts}
use sushi_gateway.Auth.Jwt
use sushi_gateway.Auth.Jwt.{JwtPlugin, JwtLib}

-- the config: the strategies, and the sections of the three plugins; a missing section is one
-- with no values
pub record MultiAuthPlugin : Type 0 where
  pub strategies : List String
  pub jwt : JwtPlugin
  pub key_auth : KeyAuthPlugin
  pub basic_auth : BasicAuthPlugin

abbrev pub no_jwt : JwtPlugin
no_jwt = record { alg = none; iss = none; secret = none; public_key = none }

abbrev pub no_key_auth : KeyAuthPlugin
no_key_auth = record {
  key = none;
  key_names = none;
  key_in_query = none;
  key_in_header = none;
  hide_credentials = none;
}

abbrev pub no_basic_auth : BasicAuthPlugin
no_basic_auth = record { username = none; password = none }

abbrev or_section {ℓ} : {A : Type ℓ} → Option A → A → A
or_section none d = d
or_section (some a) d = a

abbrev strategies_of : Option (List (Option String)) → List String
strategies_of none = "jwt" ∷ "key_auth" ∷ "basic_auth" ∷ []
strategies_of (some ss) = texts ss

-- NewMultiAuthPlugin
unfoldable pub new_multi_auth_plugin :
    Option (List (Option String))
    → Option JwtPlugin
    → Option KeyAuthPlugin
    → Option BasicAuthPlugin
    → MultiAuthPlugin
unfolding texts
new_multi_auth_plugin ss j k b = record {
  strategies = strategies_of ss;
  jwt = or_section j no_jwt;
  key_auth = or_section k no_key_auth;
  basic_auth = or_section b no_basic_auth;
}

-- createAuthPlugin
pub data Strategy : Type 0 where
  by_jwt by_key by_basic unknown : Strategy

unfoldable pub create_auth_plugin : String → Strategy
create_auth_plugin s =
    if str_eq s "jwt"
    then by_jwt
    else if str_eq s "key_auth"
    then by_key
    else if str_eq s "basic_auth"
    then by_basic
    else unknown

-- the loop's variables, and how it ends: a strategy's panic ends the handler
pub data Result : Type 0 where
  admitted : List (String × String) → Request → Result
  rejected : List (String × String) → HttpError → Result
  panicked : Result

abbrev fallback_error : HttpError
fallback_error = unauthorized "AUTHENTICATION_FAILED"

abbrev last_error : Option HttpError → HttpError
last_error none = fallback_error
last_error (some e) = e

-- the headers of the shared request as a plugin leaves them, under the old context
abbrev keep_context : Request → Request → Request
keep_context req r = record r { consumer_id = req.consumer_id }

module _ (decode : Bytes → Option Bytes) (canonical : String → String) (lib : JwtLib) where
  unfoldable pub run :
      MultiAuthPlugin → List Consumer → Request → Strategy → Option (Option Outcome)
  run p cs req by_jwt = some (Jwt.execute lib p.jwt cs req)
  run p cs req by_key = some (some (Key.execute canonical p.key_auth cs req))
  run p cs req by_basic = some (some (Basic.execute decode p.basic_auth req))
  run p cs req unknown = none

  -- what the loop does with the result of one strategy, given the rest of the loop over the headers
  -- of the response and the last probe's error
  unfoldable pub settle :
      Request
      → List (String × String)
      → Option HttpError
      → (List (String × String) → Option HttpError → Result)
      → Option (Option Outcome)
      → Result
  settle req hs last rest none = rest hs last
  settle req hs last rest (some none) = panicked
  settle req hs last rest (some (some (passed r))) = admitted hs (keep_context req r)
  settle req hs last rest (some (some (refused h e))) = rest (hs ++ h) (some e)

  -- the loop over the strategies
  unfoldable pub try_all :
      MultiAuthPlugin
      → List Consumer
      → Request
      → List String
      → List (String × String)
      → Option HttpError
      → Result
  try_all p cs req [] hs last = rejected hs (last_error last)
  try_all p cs req (s ∷ ss) hs last =
      settle req hs last (λ h l. try_all p cs req ss h l) (run p cs req (create_auth_plugin s))

  -- Execute
  unfoldable pub execute : MultiAuthPlugin → List Consumer → Request → Result
  execute p cs req = try_all p cs req p.strategies [] none
