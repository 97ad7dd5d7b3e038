-- ===== src/Proxy/Framing.antt =====
-- sushi_proxy.go: validateRequestFraming and sanitizeHeaders.
use Prim.Native.Char.{code}
use Prim.Native.String.{String}
use sushi_gateway.Prelude.{
  ℕ, Bool, true, false, ◌&&◌, ◌||◌, not, Option, none, some, List, [], ◌∷◌, if◌then◌else◌, length,
  ltb, leb, ◌==◌, str_eq, map,
}
use sushi_gateway.Prelude.Text.{codes}
use sushi_gateway.Http.{Request, HttpError, get}
use sushi_gateway.Balancer.{contains}

abbrev pub is_digit : ℕ → Bool
is_digit c = leb 48 c && leb c 57

unfoldable pub all_digits : List ℕ → Bool
all_digits [] = true
all_digits (c ∷ s) = is_digit c && all_digits s

-- regexp.MatchString("^[0-9]+$", s)
unfoldable pub matches_digits : List ℕ → Bool
unfolding all_digits
matches_digits [] = false
matches_digits (c ∷ s) = all_digits (c ∷ s)

abbrev framing_error : ℕ → String → Option HttpError
framing_error status name = some (record { http_code = status; code = name })

unfoldable pub check_content_length : String → Option HttpError
check_content_length cl =
    if not (str_eq cl "") && not (matches_digits (codes cl))
    then framing_error 400 "INVALID_CONTENT_LENGTH"
    else none

-- `none` for nil
unfoldable pub validate_request_framing : Request → Option HttpError
unfolding check_content_length
validate_request_framing req =
    if ltb 1 (length (req.header "Content-Length"))
    then framing_error 400 "AMBIGUOUS_REQUEST_FRAMING"
    else if ltb 0 (length (req.header "Transfer-Encoding"))
    then framing_error 501 "UNSUPPORTED_TRANSFER_ENCODING"
    else if contains req.transfer_encoding "chunked" && not (str_eq (get req "Content-Length") "")
    then framing_error 400 "AMBIGUOUS_REQUEST_FRAMING"
    else check_content_length (get req "Content-Length")

abbrev pub is_line_break : ℕ → Bool
is_line_break c = c == 13 || c == 10

-- strings.Map, which drops CR and LF
unfoldable pub sanitize_value : String → String
sanitize_value String.[] = String.[]
sanitize_value (String.◌∷◌ c s) =
    let rest = sanitize_value s in if is_line_break (code c) then rest else String.◌∷◌ c rest

-- sanitizeHeaders, for the values of one name
unfoldable pub sanitize_values : List String → List String
sanitize_values vs = map sanitize_value vs
