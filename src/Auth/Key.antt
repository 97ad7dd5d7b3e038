-- ===== src/Auth/Key.antt =====
-- key_auth.go: Execute. textproto's canonical form of a header's name is a parameter. Validate
-- accepts every config.
pub mod Laws
use sushi_gateway.Prelude.{
  String, Bool, true, false, not, Option, none, some, List, [], ◌∷◌, if◌then◌else◌, str_eq,
}
use sushi_gateway.Prelude.Dict.{or_default}
use sushi_gateway.Http.{Request, Outcome, refused, passed, get, del_header}
use sushi_gateway.Auth.{Consumer, unauthorized}

-- an entry of key_names is `none` where it is not a string
pub record KeyAuthPlugin : Type 0 where
  pub key : Option String
  pub key_names : Option (List (Option String))
  pub key_in_query : Option Bool
  pub key_in_header : Option Bool
  pub hide_credentials : Option Bool

unfoldable pub texts : List (Option String) → List String
texts [] = []
texts (none ∷ ns) = texts ns
texts (some n ∷ ns) = n ∷ texts ns

abbrev key_names_of : Option (List (Option String)) → List String
key_names_of none = "X-API-Key" ∷ "apiKey" ∷ []
key_names_of (some ns) = texts ns

-- the loop that returns the first value that is not empty
unfoldable pub first_set : (String → String) → List String → Option String
first_set value [] = none
first_set value (n ∷ ns) = if str_eq (value n) "" then first_set value ns else some (value n)

abbrev found_or {ℓ} : {A : Type ℓ} → Option A → Option A → Option A
found_or (some a) o = some a
found_or none o = o

-- the loop over the credentials of a consumer
unfoldable pub has_key : String → List String → Bool
has_key api_key [] = false
has_key api_key (k ∷ ks) = if str_eq k api_key then true else has_key api_key ks

-- the loop over the consumers
unfoldable pub find_consumer : String → List Consumer → Option String
find_consumer api_key [] = none
find_consumer api_key (c ∷ cs) =
    if has_key api_key c.key_auth_credentials then some c.username else find_consumer api_key cs

abbrev config_key : Option String → String → Option String
config_key none api_key = none
config_key (some k) api_key = if str_eq k api_key then some "config-key" else none

-- validateAPIKey: whom a key identifies
unfoldable pub validate_api_key : KeyAuthPlugin → List Consumer → String → Option String
validate_api_key p consumers api_key =
    found_or (find_consumer api_key consumers) (config_key p.key api_key)

module _ (canonical : String → String) where
  -- extractAPIKey
  unfoldable pub extract_api_key : KeyAuthPlugin → Request → Option String
  extract_api_key p req =
      let names = key_names_of p.key_names in
      found_or (if or_default p.key_in_query true then first_set req.query_arg names else none) (
        if or_default p.key_in_header true
        then first_set (λ n. get req (canonical n)) names
        else none)

  -- the two names that are stripped, whatever key_names says
  unfoldable pub strip : KeyAuthPlugin → Request → Request
  strip p req =
      if or_default p.hide_credentials true
      then del_header (canonical "apiKey") (del_header (canonical "X-API-Key") req)
      else req

  unfoldable pub admit : KeyAuthPlugin → Request → Option String → Outcome
  admit p req none = refused [] (unauthorized "INVALID_CREDENTIALS")
  admit p req (some who) = passed (record (strip p req) { consumer_id = some who })

  unfoldable pub with_key : KeyAuthPlugin → List Consumer → Request → Option String → Outcome
  with_key p consumers req none = refused [] (unauthorized "MISSING_API_KEY")
  with_key p consumers req (some k) = admit p req (validate_api_key p consumers k)

  -- Execute
  unfoldable pub execute : KeyAuthPlugin → List Consumer → Request → Outcome
  execute p consumers req = with_key p consumers req (extract_api_key p req)
