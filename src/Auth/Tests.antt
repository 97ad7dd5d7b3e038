-- ===== src/Auth/Tests.antt =====
-- The theorems on authentication at concrete requests, with a decoder that knows two tokens, a
-- library of tokens that accepts one, and header names that are canonical as they are.
use sushi_gateway.Prelude.{
  String, ◌≡◌, ◌≢◌, ◌↔◌, refl, true, Option, none, some, List, [], ◌∷◌, Memᴰ, Memᴰ-cases, inl, inr,
  if◌then◌else◌, str_eq,
}
use sushi_gateway.Prelude.Text.{codes, bytes_eq, contains_byte, split}
use sushi_gateway.Model.{Bytes}
use sushi_gateway.Http.{Request, passed, del_header}
use sushi_gateway.Auth.{Consumer, split_in_two}
use sushi_gateway.Auth.Basic
use sushi_gateway.Auth.Basic.{BasicAuthPlugin, verify_and_parse_auth_header, authorize}
use sushi_gateway.Auth.Basic.Laws
use sushi_gateway.Auth.Basic.Laws.{Authorized, Carries}
use sushi_gateway.Auth.Key
use sushi_gateway.Auth.Key.{
  KeyAuthPlugin, with_key, admit, strip, extract_api_key, validate_api_key, find_consumer, has_key,
  first_set,
}
use sushi_gateway.Auth.Key.Laws as KeyLaws
use sushi_gateway.Auth.Jwt
use sushi_gateway.Auth.Jwt.{
  JwtPlugin, JwtLib, Method, hmac, with_header, by_credentials, get_credentials_from_consumers,
  by_issuer, in_consumers, in_secrets, credentials_of, with_credentials, let_in, consumer_id_of,
  validate_with_credentials, validate_hs256, check_parsed, is_claim_valid,
}
use sushi_gateway.Auth.Jwt.Laws as JwtLaws
use sushi_gateway.Auth.Multi
use sushi_gateway.Auth.Multi.{
  MultiAuthPlugin, new_multi_auth_plugin, run, create_auth_plugin, no_jwt, no_key_auth,
  no_basic_auth,
}
use sushi_gateway.Auth.Multi.Laws as MultiLaws
use sushi_gateway.Samples.{request_with}

-- "a:b" and ":" in base 64
abbrev decode : Bytes → Option Bytes
decode t =
    if bytes_eq t (codes "YTpi")
    then some (codes "a:b")
    else if bytes_eq t (codes "Og==")
    then some (codes ":")
    else none

abbrev canonical : String → String
canonical n =
    if str_eq n "apiKey" then "Apikey" else if str_eq n "X-API-Key" then "X-Api-Key" else n

abbrev lib : JwtLib
lib = record {
  RsaKey = Unit;
  parse_unverified = λ t. some (record { issuer = some "issuer"; subject = none });
  parse_secret = λ t ok s.
      if ok hmac
      then if str_eq s "s3"
        then some (record { issuer = some "issuer"; subject = none }, true)
        else none
      else none;
  parse_rsa = λ t ok key. none;
  rsa_key_from_pem = λ s. none;
}

abbrev alice : Consumer
alice = record {
  username = "alice";
  jwt_secrets =
      (record { algorithm = ""; key = "issuer"; secret = "s3"; rsa_public_key = "" }) ∷ [];
  key_auth_credentials = "k1" ∷ [];
}

abbrev a_and_b : BasicAuthPlugin
a_and_b = record { username = some "a"; password = some "b" }

abbrev basic : Request
basic = request_with "Authorization" "Basic YTpi"

execute-Authorized_example :
    (Basic.execute decode a_and_b basic ≡ passed (del_header "Authorization" basic))
    ↔ Authorized decode a_and_b basic
execute-Authorized_example = Laws.execute-Authorized decode a_and_b basic

basic_passes : Basic.execute decode a_and_b basic ≡ passed (del_header "Authorization" basic)
unfolding Basic.execute verify_and_parse_auth_header authorize split_in_two split bytes_eq
basic_passes = refl

abbrev with_k1 : Request
with_k1 = request_with "X-Api-Key" "k1"

abbrev as_alice : Request
as_alice = record (strip canonical no_key_auth with_k1) { consumer_id = some "alice" }

execute-LetIn_example : KeyLaws.LetIn canonical no_key_auth (alice ∷ []) with_k1 as_alice
unfolding Key.execute with_key admit extract_api_key validate_api_key find_consumer has_key
    first_set
execute-LetIn_example =
    KeyLaws.execute-LetIn canonical no_key_auth (alice ∷ []) with_k1 as_alice refl

abbrev bearer : Request
bearer = request_with "Authorization" "Bearer tok"

abbrev bearer_alice : Request
bearer_alice = record (del_header "Authorization" bearer) { consumer_id = some "alice" }

execute-Verified_example : JwtLaws.Verified lib no_jwt (alice ∷ []) bearer bearer_alice
unfolding Jwt.execute with_header by_credentials get_credentials_from_consumers by_issuer
    in_consumers in_secrets credentials_of with_credentials let_in consumer_id_of
    validate_with_credentials validate_hs256 check_parsed is_claim_valid split_in_two split
execute-Verified_example = JwtLaws.execute-Verified lib no_jwt (alice ∷ []) bearer bearer_alice refl

-- only basic_auth, with its section, or with none
abbrev only_basic : Option BasicAuthPlugin → MultiAuthPlugin
only_basic b = record {
  strategies = "basic_auth" ∷ [];
  jwt = no_jwt;
  key_auth = no_key_auth;
  basic_auth = elim b [ none ↦ no_basic_auth | some x ↦ x ];
}

abbrev cs : List Consumer
cs = []

basic_does_not_panic :
    (b : Option BasicAuthPlugin) (req : Request) (t : String)
    → Memᴰ t ("basic_auth" ∷ [])
    → run decode canonical lib (only_basic b) cs req (create_auth_plugin t) ≢ some none
unfolding run create_auth_plugin
basic_does_not_panic b req t m h = elim (Memᴰ-cases m) [
  | inl e ↦ no_panic (rw e at h)
  | inr n ↦ elim n [ ]
]
  where
    no_panic :
        run decode canonical lib (only_basic b) cs req (create_auth_plugin "basic_auth") ≡ some none
        → ⊥
    no_panic q = cc

execute-Admits_example :
    MultiLaws.Admits (Multi.execute decode canonical lib (only_basic (some a_and_b)) cs basic) ↔ (
      (s : String) × (o : Request) × Memᴰ s ("basic_auth" ∷ [])
      × MultiLaws.Passes decode canonical lib (only_basic (some a_and_b)) cs basic s o)
execute-Admits_example =
    MultiLaws.execute-Admits decode canonical lib (only_basic (some a_and_b)) cs basic
      (basic_does_not_panic (some a_and_b) basic)

abbrev nobody : Request
nobody = request_with "Authorization" "Basic Og=="

nobody-Carries : Carries decode nobody [] []
unfolding contains_byte bytes_eq
nobody-Carries = record {
  scheme = codes "Basic";
  token = codes "Og==";
  words = refl;
  scheme_plain = refl;
  token_plain = refl;
  decoded = refl;
  user_plain = refl;
  password_plain = refl;
}

execute-no_section_example :
    MultiLaws.Admits (Multi.execute decode canonical lib (only_basic none) cs nobody)
execute-no_section_example =
    MultiLaws.execute-no_section decode canonical lib (only_basic none) cs nobody refl
      (Memᴰ.head refl) (basic_does_not_panic none nobody) nobody-Carries
