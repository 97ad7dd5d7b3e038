-- ===== src/Cors.antt =====
-- cors.go. A value of the config is one of the kinds that the code tells apart; strings.ToUpper and
-- strconv.FormatInt are parameters.
pub mod Checked
mod Tests
use Prim.Native.String.{◌++◌ as str_append}
use sushi_gateway.Prelude.{
  ℕ, String, Bool, true, false, not, ◌&&◌, Option, none, some, List, [], ◌∷◌, if◌then◌else◌, str_eq,
  ◌>>=◌,
}
use sushi_gateway.Prelude.Int.{ℤ, pos, ltb_ℤ}
use sushi_gateway.Prelude.Dict.{or_default}
use sushi_gateway.Http.{Request}
use sushi_gateway.Http.Response.{Headers, set}
use sushi_gateway.Routing.{slice_contains_string}
use sushi_gateway.Balancer.LeastConnections.{Float64}

-- an entry of an array is `none` where it is not a string
pub data Value : Type 0 where
  array : List (Option String) → Value
  not_array : Value

pub data Flag : Type 0 where
  bool : Bool → Flag
  not_bool : Flag

module _ (F : Float64) where
  pub data Age : Type 0 where
    float : F.Number → Age
    int : ℤ → Age
    not_number : Age

  -- `none` for a key that is missing
  pub record CorsPlugin : Type 0 where
    pub allow_origins : Option Value
    pub allow_methods : Option Value
    pub allow_headers : Option Value
    pub expose_headers : Option Value
    pub allow_credentials : Option Flag
    pub allow_private_network : Option Flag
    pub preflight_continue : Option Flag
    pub max_age : Option Age

  -- the aliases of the four lists
  pub record Aliases : Type 0 where
    pub origins : Option Value
    pub methods : Option Value
    pub headers : Option Value
    pub exposed_headers : Option Value

  abbrev or_alias : Option Value → Option Value → Option Value
  or_alias none alias = alias
  or_alias (some v) alias = some v

  -- NewCorsPlugin
  unfoldable pub new_cors_plugin : CorsPlugin → Aliases → CorsPlugin
  new_cors_plugin p a = record p {
    allow_origins = or_alias p.allow_origins a.origins;
    allow_methods = or_alias p.allow_methods a.methods;
    allow_headers = or_alias p.allow_headers a.headers;
    expose_headers = or_alias p.expose_headers a.exposed_headers;
  }

  abbrev is_nil : List (Option String) → Bool
  is_nil [] = true
  is_nil (e ∷ es) = false

  unfoldable pub all_strings : (String → Bool) → List (Option String) → Bool
  all_strings ok [] = true
  all_strings ok (none ∷ es) = false
  all_strings ok (some s ∷ es) = if ok s then all_strings ok es else false

  unfoldable pub is_list_of : (String → Bool) → List (Option String) → Bool
  is_list_of ok es = if is_nil es then false else all_strings ok es

  abbrev required_list : Option Value → Bool
  required_list (some (array es)) = is_list_of (λ s. true) es
  required_list _ = false

  abbrev optional_list : (String → Bool) → Option Value → Bool
  optional_list ok (some (array es)) = is_list_of ok es
  optional_list ok _ = true

  abbrev is_flag : Option Flag → Bool
  is_flag (some not_bool) = false
  is_flag _ = true

  abbrev valid_age : Option Age → Bool
  valid_age none = true
  valid_age (some (float x)) = not (F.below x (F.of_int (pos 0)))
  valid_age (some (int i)) = not (F.below (F.of_int i) (F.of_int (pos 0)))
  valid_age (some not_number) = false

  abbrev valid_methods : List String
  valid_methods = "GET" ∷ "POST" ∷ "PUT" ∷ "DELETE" ∷ "PATCH" ∷ "HEAD" ∷ "OPTIONS" ∷ []

  -- Validate: whether it returns no error
  unfoldable pub is_valid : (String → String) → CorsPlugin → Bool
  unfolding is_list_of
  is_valid to_upper p =
      required_list p.allow_origins
      && (optional_list (λ s. slice_contains_string valid_methods (to_upper s)) p.allow_methods
          && (optional_list (λ s. true) p.allow_headers
              && (optional_list (λ s. true) p.expose_headers
                  && (is_flag p.allow_credentials
                      && (is_flag p.allow_private_network
                          && (is_flag p.preflight_continue && valid_age p.max_age))))))

  pub record CorsConfig : Type 0 where
    pub allow_origins : List String
    pub allow_methods : List String
    pub allow_headers : List String
    pub expose_headers : List String
    pub allow_credentials : Bool
    pub allow_private_network : Bool
    pub preflight_continue : Bool
    pub max_age : ℤ

  -- ToStringSlice; `none` is the panic of a type assertion
  unfoldable pub to_strings : List (Option String) → Option (List String)
  to_strings [] = some []
  to_strings (none ∷ es) = none
  to_strings (some s ∷ es) = do ss ← to_strings es; some (s ∷ ss)

  abbrev asserted_list : Option Value → Option (List String)
  asserted_list (some (array es)) = to_strings es
  asserted_list _ = none

  abbrev list_or_nil : Option Value → Option (List String)
  list_or_nil (some (array es)) = to_strings es
  list_or_nil _ = some []

  abbrev flag_or_false : Option Flag → Bool
  flag_or_false (some (bool b)) = b
  flag_or_false _ = false

  abbrev age_or_0 : Option Age → ℤ
  age_or_0 (some (float x)) = F.to_int x
  age_or_0 (some (int i)) = i
  age_or_0 _ = pos 0

  -- parseCorsConfig
  unfoldable pub parse_cors_config : CorsPlugin → Option CorsConfig
  unfolding to_strings
  parse_cors_config p = do
    origins ← asserted_list p.allow_origins
    methods ← list_or_nil p.allow_methods
    headers ← list_or_nil p.allow_headers
    exposed ← list_or_nil p.expose_headers
    some (record {
      allow_origins = origins;
      allow_methods = methods;
      allow_headers = headers;
      expose_headers = exposed;
      allow_credentials = flag_or_false p.allow_credentials;
      allow_private_network = flag_or_false p.allow_private_network;
      preflight_continue = flag_or_false p.preflight_continue;
      max_age = age_or_0 p.max_age;
    })

  -- strings.Join(ss, ",")
  unfoldable pub comma_join : List String → String
  comma_join [] = ""
  comma_join (s ∷ []) = s
  comma_join (s ∷ t ∷ ss) = str_append (str_append s ",") (comma_join (t ∷ ss))

  unfoldable pub set_list : String → List String → Headers → Headers
  set_list name [] hs = hs
  set_list name (s ∷ ss) hs = set name (comma_join (s ∷ ss)) hs

  -- the headers that Execute sets
  unfoldable pub cors_headers : (ℤ → String) → CorsConfig → Headers → Headers
  unfolding set_list comma_join
  cors_headers decimal c hs =
      let origins = set_list "Access-Control-Allow-Origin" c.allow_origins hs in
      let methods = set_list "Access-Control-Allow-Methods" c.allow_methods origins in
      let headers = set_list "Access-Control-Allow-Headers" c.allow_headers methods in
      let exposed = set_list "Access-Control-Expose-Headers" c.expose_headers headers in
      let credentials =
        if c.allow_credentials
        then set "Access-Control-Allow-Credentials" "true" exposed
        else exposed in
      if ltb_ℤ (pos 0) c.max_age
      then set "Access-Control-Max-Age" (decimal c.max_age) credentials
      else credentials

  -- Execute: the headers of the response as the next handler finds them, and whether it is called;
  -- `none` is a panic
  unfoldable pub execute : (ℤ → String) → CorsPlugin → Request → Headers → Option (Headers × Bool)
  unfolding parse_cors_config cors_headers
  execute decimal p req hs = do
    c ← parse_cors_config p
    some (cors_headers decimal c hs, not (str_eq req.method "OPTIONS" && not c.preflight_continue))
