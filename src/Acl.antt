-- ===== src/Acl.antt =====
-- sushi-proxy/internal/gateway/acl.go: the plugin that lets a client in or not by its address. The
-- host of the remote address is what net.SplitHostPort gives, `none` where it fails.
pub mod Decision
mod Tests
use sushi_gateway.Prelude.{
  String, Bool, true, false, Option, none, some, List, [], ◌∷◌, if◌then◌else◌, str_eq, ◌>>=◌,
}

-- an entry of a list in the plugin's config: a string, or anything else
pub data Entry : Type 0 where
  text : String → Entry
  not_text : Entry

-- what the config has under a key: an array, or anything else
pub data Value : Type 0 where
  array : List Entry → Value
  not_array : Value

pub record AclPlugin : Type 0 where
  pub whitelist : Option Value
  pub blacklist : Option Value

pub data AclError : Type 0 where
  both_lists neither_list not_an_array not_strings : AclError

-- the loop over the entries
unfoldable pub all_text : List Entry → Bool
all_text [] = true
all_text (text s ∷ es) = all_text es
all_text (not_text ∷ es) = false

unfoldable pub check_list : Value → Option AclError
check_list not_array = some not_an_array
check_list (array es) = if all_text es then none else some not_strings

unfoldable pub validate_lists : Option Value → Option Value → Option AclError
validate_lists (some w) (some b) = some both_lists
validate_lists none none = some neither_list
validate_lists (some w) none = check_list w
validate_lists none (some b) = check_list b

-- Validate
unfoldable pub validate : AclPlugin → Option AclError
validate p = validate_lists p.whitelist p.blacklist

-- ToStringSlice; `none` is the panic of the assertion on an entry
unfoldable pub to_string_slice : List Entry → Option (List String)
to_string_slice [] = some []
to_string_slice (text s ∷ es) = do rest ← to_string_slice es; some (s ∷ rest)
to_string_slice (not_text ∷ es) = none

-- the loop that compares
unfoldable pub some_equal : List String → String → Bool
some_equal [] ip = false
some_equal (s ∷ ss) ip = if str_eq ip s then true else some_equal ss ip

-- isWhitelisted and isBlacklisted, for a list that exists
unfoldable pub is_listed : Value → String → Option Bool
is_listed not_array ip = none
is_listed (array es) ip = do ss ← to_string_slice es; some (some_equal ss ip)

-- the client's address or the forwarded one, the second only if the first is not listed
unfoldable pub either_listed : Value → String → String → Option Bool
either_listed v client forwarded = do
  first ← is_listed v client
  if first then some true else is_listed v forwarded

pub data Reply : Type 0 where
  served denied server_error : Reply

unfoldable pub decide : Option Value → Option Value → String → String → Option Reply
decide (some w) b client forwarded = do
  listed ← either_listed w client forwarded
  some (if listed then served else denied)
decide none (some b) client forwarded = do
  listed ← either_listed b client forwarded
  some (if listed then denied else served)
decide none none client forwarded = some served

-- Execute; `none` is a panic
unfoldable pub execute : AclPlugin → Option String → String → Option Reply
execute p none forwarded = some server_error
execute p (some client) forwarded = decide p.whitelist p.blacklist client forwarded
