-- ===== src/Cors/Tests.antt =====
-- cors.go: a config that is accepted.
use sushi_gateway.Prelude.{String, ◌≡◌, refl, ◌&&◌, not, true, none, some, [], ◌∷◌, str_eq}
use sushi_gateway.Prelude.Int.{ℤ, pos}
use sushi_gateway.Http.{Request}
use sushi_gateway.Http.Response.{Headers}
use sushi_gateway.Routing.{slice_contains_string}
use sushi_gateway.Cors.{
  CorsPlugin, CorsConfig, array, bool, float, is_valid, all_strings, is_list_of, parse_cors_config,
  cors_headers, execute, flag_or_false,
}
use sushi_gateway.Cors.Checked.{execute-is_valid}
use sushi_gateway.Samples.{whole}

abbrev plugin : CorsPlugin whole
plugin = record {
  allow_origins = some (array (some "https://shop.example" ∷ []));
  allow_methods = some (array (some "GET" ∷ some "POST" ∷ []));
  allow_headers = none;
  expose_headers = none;
  allow_credentials = some (bool true);
  allow_private_network = none;
  preflight_continue = none;
  max_age = some (float (pos 600));
}

abbrev upper : String → String
upper s = s

abbrev decimal : ℤ → String
decimal z = "600"

execute-is_valid_example :
    (c : CorsConfig whole) × (parse_cors_config whole plugin ≡ some c)
    × ((req : Request) (hs : Headers)
        → execute whole decimal plugin req hs
          ≡ some (
            cors_headers whole decimal c hs,
            not (
                str_eq req.method "OPTIONS" && not (flag_or_false whole plugin.preflight_continue)),
          ))
unfolding is_valid all_strings is_list_of slice_contains_string
execute-is_valid_example = execute-is_valid whole upper decimal plugin refl
