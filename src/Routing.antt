-- ===== src/Routing.antt =====
-- sushi-proxy/internal/util/request.go: which service and route a request belongs to.
pub mod Dynamic
pub mod FirstService
mod Tests
use sushi_gateway.Prelude.{
  ℕ, zero, suc, String, ◌+◌, Bool, true, false, ◌&&◌, ◌||◌, not, Option, none, some, List, [], ◌∷◌,
  if◌then◌else◌, str_eq, ◌==◌,
}
use sushi_gateway.Prelude.Text.{
  bytes_eq, cut_prefix, starts_with_byte, ends_with_byte, contains_byte, split,
}
use sushi_gateway.Model.{Bytes, Service, Route}

-- what the matching reads of the *http.Request
pub record Request : Type 0 where
  pub method : String
  pub path : Bytes
  pub header : String → String

abbrev pub slash : ℕ
slash = b'/'

abbrev pub open_brace : ℕ
open_brace = b'{'

abbrev pub close_brace : ℕ
close_brace = b'}'

-- SliceContainsString
unfoldable pub slice_contains_string : List String → String → Bool
slice_contains_string [] s = false
slice_contains_string (t ∷ ts) s = str_eq t s || slice_contains_string ts s

unfoldable pub is_param : Bytes → Bool
is_param part = starts_with_byte open_brace part && ends_with_byte close_brace part

-- The test of the lengths comes first in the source; parts left over on one side fail here.
unfoldable pub match_parts : List Bytes → List Bytes → Bool
unfolding is_param
match_parts [] [] = true
match_parts (p ∷ ps) (q ∷ qs) = (is_param p || bytes_eq p q) && match_parts ps qs
match_parts _ _ = false

unfoldable pub match_dynamic_route : Bytes → Bytes → Bool
match_dynamic_route route_path request_path =
    match_parts (split slash route_path) (split slash request_path)

headers_match : List (String × String) → (String → String) → Bool
headers_match [] header = true
headers_match ((key, value) ∷ hs) header = str_eq (header key) value && headers_match hs header

-- Paths, or Path where it is the only one given
unfoldable pub paths_to_check : List Bytes → Bytes → List Bytes
paths_to_check [] [] = []
paths_to_check [] (c ∷ path) = (c ∷ path) ∷ []
paths_to_check (p ∷ ps) path = p ∷ ps

unfoldable pub is_static : Bytes → Bool
is_static p = not (contains_byte open_brace p) && not (contains_byte close_brace p)

unfoldable pub match_path : Bytes → Bytes → Bool
match_path route_path request_path =
    if is_static route_path
    then bytes_eq route_path request_path
    else match_dynamic_route route_path request_path

unfoldable pub match_any : List Bytes → Bytes → Bool
match_any [] request_path = false
match_any (p ∷ ps) request_path = match_path p request_path || match_any ps request_path

unfoldable pub match_route : Route → Bytes → Request → Bool
unfolding headers_match
match_route r request_path req =
    headers_match r.headers req.header && match_any (paths_to_check r.paths r.path) request_path

is_root : Bytes → Bool
is_root p = bytes_eq p (slash ∷ []) || bytes_eq p []

any_root : List Bytes → Bool
unfolding is_root
any_root [] = false
any_root (p ∷ ps) = is_root p || any_root ps

unfoldable pub is_root_route : Route → Bool
unfolding any_root
is_root_route r = any_root (paths_to_check r.paths r.path)

method_allowed : List String → String → Bool
method_allowed [] m = true
method_allowed (n ∷ ns) m = slice_contains_string (n ∷ ns) m

unfoldable pub accepts : Request → Bytes → Route → Bool
unfolding method_allowed
accepts req route_path r =
    (match_route r route_path req || (bytes_eq route_path (slash ∷ []) && is_root_route r))
    && method_allowed r.methods req.method

find_route : Request → Bytes → List Route → Option Route
find_route req route_path [] = none
find_route req route_path (r ∷ rs) =
    let rest = find_route req route_path rs in if accepts req route_path r then some r else rest

pub data Outcome : Type 0 where
  found : Service → Route → Outcome
  route_not_found : Bytes → Outcome
  service_not_found : Outcome

-- the path within a service, `none` where the service is passed over
within : Option Bytes → Option Bytes
within none = none
within (some []) = some (slash ∷ [])
within (some (c ∷ rest)) = if c == slash then some (c ∷ rest) else none

unfoldable pub route_path_in : Service → Bytes → Option Bytes
unfolding within
route_path_in s path = within (cut_prefix s.base_path path)

in_service : Service → Bytes → Option Route → Outcome
in_service s route_path none = route_not_found route_path
in_service s route_path (some r) = found s r

dispatch : Request → Service → Option Bytes → Outcome → Outcome
unfolding in_service find_route
dispatch req s none rest = rest
dispatch req s (some route_path) rest = in_service s route_path (find_route req route_path s.routes)

unfoldable pub get_service_and_route_from_request : List Service → Request → Outcome
unfolding dispatch
get_service_and_route_from_request [] req = service_not_found
get_service_and_route_from_request (s ∷ ss) req =
    dispatch req s (route_path_in s req.path) (get_service_and_route_from_request ss req)
