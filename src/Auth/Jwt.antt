-- ===== src/Auth/Jwt.antt =====
-- jwt.go: Execute. golang-jwt is a parameter: ParseUnverified, whose claims are those the token
-- shows, Parse with the key function's verdict on the signing method, and
-- ParseRSAPublicKeyFromPEM. A claim is `none` where it is missing or no string.
pub mod Sources
pub mod Laws
use sushi_gateway.Prelude.{
  String, Bool, true, false, ◌&&◌, Option, none, some, List, [], ◌∷◌, if◌then◌else◌, str_eq,
}
use sushi_gateway.Prelude.Dict.{or_default}
use sushi_gateway.Prelude.Text.{codes}
use sushi_gateway.Model.{Bytes}
use sushi_gateway.Http.{Request, HttpError, Outcome, refused, passed, get, del_header}
use sushi_gateway.Auth.{Consumer, JwtSecret, unauthorized, split_in_two}

pub record JwtPlugin : Type 0 where
  pub alg : Option String
  pub iss : Option String
  pub secret : Option String
  pub public_key : Option String

pub record Claims : Type 0 where
  pub issuer : Option String
  pub subject : Option String

-- the types of a token's signing method that the code tells apart
pub data Method : Type 0 where
  hmac rsa other_method : Method

pub record JwtLib : Type 1 where
  pub RsaKey : Type 0
  pub parse_unverified : Bytes → Option Claims
  -- Parse, with a key function that accepts a method and gives a secret or a public key: the claims
  -- and Valid, `none` for an error
  pub parse_secret : Bytes → (Method → Bool) → String → Option (Claims × Bool)
  pub parse_rsa : Bytes → (Method → Bool) → RsaKey → Option (Claims × Bool)
  pub rsa_key_from_pem : String → Option RsaKey

pub record JwtCredentials : Type 0 where
  pub alg : String
  pub iss : String
  pub secret : String
  pub public_key : String
  pub consumer_name : String

abbrev pub challenge : List (String × String)
challenge = ("WWW-Authenticate", "Bearer realm=\"Access to sushi gateway\", charset=UTF-8") ∷ []

abbrev or_hs256 : String → String
or_hs256 alg = if str_eq alg "" then "HS256" else alg

unfoldable pub credentials_of : Consumer → JwtSecret → JwtCredentials
credentials_of c s = record {
  alg = or_hs256 s.algorithm;
  iss = s.key;
  secret = s.secret;
  public_key = s.rsa_public_key;
  consumer_name = c.username;
}

-- the loop over the secrets of a consumer
unfoldable pub in_secrets : Consumer → String → List JwtSecret → Option JwtCredentials
in_secrets c issuer [] = none
in_secrets c issuer (s ∷ ss) =
    if str_eq s.key issuer then some (credentials_of c s) else in_secrets c issuer ss

abbrev first_found : Option JwtCredentials → Option JwtCredentials → Option JwtCredentials
first_found (some c) o = some c
first_found none o = o

-- the loop over the consumers
unfoldable pub in_consumers : String → List Consumer → Option JwtCredentials
in_consumers issuer [] = none
in_consumers issuer (c ∷ cs) =
    first_found (in_secrets c issuer c.jwt_secrets) (in_consumers issuer cs)

abbrev is_hmac : Method → Bool
is_hmac hmac = true
is_hmac _ = false

abbrev is_rsa : Method → Bool
is_rsa rsa = true
is_rsa _ = false

abbrev has_issuer : Option String → String → Bool
has_issuer none issuer = false
has_issuer (some i) issuer = str_eq i issuer

-- isClaimValid
unfoldable pub is_claim_valid : Claims → String → Bool
is_claim_valid c issuer = has_issuer c.issuer issuer

-- the error that ends the request, if there is one
abbrev invalid_token : Option HttpError
invalid_token = some (unauthorized "INVALID_TOKEN")

unfoldable pub check_parsed : Option (Claims × Bool) → String → Option HttpError
check_parsed none issuer = invalid_token
check_parsed (some (claims, false)) issuer = invalid_token
check_parsed (some (claims, true)) issuer =
    if is_claim_valid claims issuer then none else invalid_token

-- the credentials in the plugin's config, for both of its texts
pub data Configured : Type 0 where
  not_configured panics : Configured
  configured : JwtCredentials → Configured

unfoldable pub with_secret : String → String → Option String → Configured
with_secret alg iss none = panics
with_secret alg iss (some s) =
    configured (record { alg = alg; iss = iss; secret = s; public_key = ""; consumer_name = "" })

unfoldable pub with_public_key : String → String → Option String → Configured
with_public_key alg iss none = panics
with_public_key alg iss (some k) =
    configured (record { alg = alg; iss = iss; secret = ""; public_key = k; consumer_name = "" })

unfoldable pub from_config : JwtPlugin → Option String → Option String → Configured
from_config p (some alg) (some iss) =
    if str_eq alg "HS256"
    then with_secret alg iss p.secret
    else with_public_key alg iss p.public_key
from_config p _ _ = not_configured

module _ (lib : JwtLib) where
  -- validateHS256
  unfoldable pub validate_hs256 : JwtCredentials → Bytes → Option HttpError
  validate_hs256 c token =
      check_parsed
        (lib.parse_secret token (if str_eq c.alg "HS256" then is_hmac else λ _. true) c.secret)
        c.iss

  unfoldable pub check_rsa : JwtCredentials → Bytes → Option lib.RsaKey → Option HttpError
  check_rsa c token none = some (record { http_code = 500; code = "INTERNAL_SERVER_ERROR" })
  check_rsa c token (some key) = check_parsed (lib.parse_rsa token is_rsa key) c.iss

  -- validateRS256
  unfoldable pub validate_rs256 : JwtCredentials → Bytes → Option HttpError
  validate_rs256 c token = check_rsa c token (lib.rsa_key_from_pem c.public_key)

  unfoldable pub validate_with_credentials : JwtCredentials → Bytes → Option HttpError
  validate_with_credentials c token =
      if str_eq c.alg "HS256" then validate_hs256 c token else validate_rs256 c token

  abbrev pub issuer_of : Option Claims → Option String
  issuer_of none = none
  issuer_of (some c) = c.issuer

  unfoldable pub by_issuer : Option String → List Consumer → Option JwtCredentials
  by_issuer none cs = none
  by_issuer (some i) cs = if str_eq i "" then none else in_consumers i cs

  -- getCredentialsFromConsumers
  unfoldable pub get_credentials_from_consumers : List Consumer → Bytes → Option JwtCredentials
  unfolding by_issuer
  get_credentials_from_consumers cs token = by_issuer (issuer_of (lib.parse_unverified token)) cs

  abbrev subject_or_anonymous : Option Claims → String
  subject_or_anonymous none = "anonymous"
  subject_or_anonymous (some c) = or_default c.subject "anonymous"

  -- getSubFromToken, on a token that has been validated
  unfoldable pub get_sub_from_token : Bytes → String
  get_sub_from_token token = subject_or_anonymous (lib.parse_unverified token)

  unfoldable pub consumer_id_of : JwtCredentials → Bytes → String
  unfolding get_sub_from_token
  consumer_id_of c token =
      if str_eq c.consumer_name "" then get_sub_from_token token else c.consumer_name

  unfoldable pub let_in : JwtCredentials → Bytes → Request → Option HttpError → Outcome
  let_in c token req (some e) = refused challenge e
  let_in c token req none =
      passed
        (record (del_header "Authorization" req) { consumer_id = some (consumer_id_of c token) })

  unfoldable pub with_credentials : JwtCredentials → Bytes → Request → Outcome
  unfolding let_in consumer_id_of
  with_credentials c token req = let_in c token req (validate_with_credentials c token)

  unfoldable pub fallback : Configured → Bytes → Request → Option Outcome
  fallback panics token req = none
  fallback not_configured token req = some (refused challenge (unauthorized "INVALID_CONFIG"))
  fallback (configured c) token req = some (with_credentials c token req)

  -- validateToken, and what Execute does with its result; `none` is the panic of a type assertion
  unfoldable pub by_credentials :
      JwtPlugin → Option JwtCredentials → Bytes → Request → Option Outcome
  unfolding fallback from_config with_secret with_public_key
  by_credentials p none token req = fallback (from_config p p.alg p.iss) token req
  by_credentials p (some c) token req = some (with_credentials c token req)

  unfoldable pub with_header :
      JwtPlugin → List Consumer → Request → Option (Bytes × Bytes) → Option Outcome
  unfolding by_credentials
  with_header p cs req none = some (refused challenge (unauthorized "MALFORMED_AUTH_HEADER"))
  with_header p cs req (some (scheme, token)) =
      by_credentials p (get_credentials_from_consumers cs token) token req

  -- Execute
  unfoldable pub execute : JwtPlugin → List Consumer → Request → Option Outcome
  unfolding with_header
  execute p cs req = with_header p cs req (split_in_two b' ' (codes (get req "Authorization")))
