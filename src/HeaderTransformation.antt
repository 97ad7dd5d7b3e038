-- ===== src/HeaderTransformation.antt =====
-- header_transformation.go: Validate and Execute. Of Go's text functions the canonical form of a
-- header's name, SplitN at ":" with TrimSpace of the two parts, Contains and ReplaceAll are
-- parameters. A map is given by its entries in the order in which the loop meets them.
pub mod Effect
mod Tests
use Prim.Native.String.{◌++◌ as str_append}
use sushi_gateway.Prelude.{
  String, Bool, true, false, not, ◌&&◌, Option, none, some, List, [], ◌∷◌, if◌then◌else◌, str_eq,
}
use sushi_gateway.Http.{Request, get, set_header, del_header}

pub record TextOps : Type 0 where
  pub canonical : String → String
  pub split_rule : String → Option (String × String)
  pub contains : String → String → Bool
  pub replace_all : String → String → String → String

-- an entry of an array, or a value of a map, is `none` where it is not a string
pub data Removal : Type 0 where
  kong_names : List (Option String) → Removal
  names : List (Option String) → Removal
  no_names other_removal : Removal

pub data Rules : Type 0 where
  kong_rules : List (Option String) → Rules
  entries : List (String × Option String) → Rules
  other_rules : Rules

-- the sections that the config has
pub record HeaderTransformationPlugin : Type 0 where
  pub remove : Option Removal
  pub rename : Option Rules
  pub replace : Option Rules
  pub append : Option Rules
  pub add : Option Rules

abbrev given {ℓ} : {A : Type ℓ} → Option A → Bool
given none = false
given (some a) = true

abbrev is_map : Option Rules → Bool
is_map none = true
is_map (some other_rules) = false
is_map (some _) = true

abbrev is_list_or_map : Option Removal → Bool
is_list_or_map none = true
is_list_or_map (some other_removal) = false
is_list_or_map (some _) = true

-- Validate
unfoldable pub is_valid : HeaderTransformationPlugin → Bool
is_valid p =
    if not (given p.add)
      && not (given p.remove)
      && not (given p.rename)
      && not (given p.replace)
      && not (given p.append)
    then false
    else if is_map p.add
    then is_list_or_map p.remove
    else false

-- the loop of an operation over its entries
unfoldable pub apply_all {ℓ} : {A : Type ℓ} → (A → Request → Request) → List A → Request → Request
apply_all op [] req = req
apply_all op (x ∷ xs) req = apply_all op xs (op x req)

unfoldable pub texts : List (Option String) → List String
texts [] = []
texts (none ∷ ns) = texts ns
texts (some n ∷ ns) = n ∷ texts ns

abbrev pub removed_names : Option Removal → List String
removed_names (some (kong_names ns)) = texts ns
removed_names (some (names ns)) = texts ns
removed_names _ = []

unfoldable pub text_entries : List (String × Option String) → List (String × String)
text_entries [] = []
text_entries ((k, none) ∷ es) = text_entries es
text_entries ((k, some v) ∷ es) = (k, v) ∷ text_entries es

module _ (T : TextOps) where
  abbrev and_rule : Option (String × String) → List (String × String) → List (String × String)
  and_rule none rules = rules
  and_rule (some r) rules = r ∷ rules

  unfoldable pub parsed_rules : List (Option String) → List (String × String)
  parsed_rules [] = []
  parsed_rules (none ∷ rs) = parsed_rules rs
  parsed_rules (some r ∷ rs) = and_rule (T.split_rule r) (parsed_rules rs)

  -- the pairs that an operation's loop goes over
  abbrev pub pairs_of : Option Rules → List (String × String)
  pairs_of (some (kong_rules rs)) = parsed_rules rs
  pairs_of (some (entries es)) = text_entries es
  pairs_of _ = []

  unfoldable pub remove_one : String → Request → Request
  remove_one n req = del_header (T.canonical n) req

  unfoldable pub rename_one : String × String → Request → Request
  rename_one (old, new) req =
      let v = get req (T.canonical old) in
      if str_eq v "" then req else set_header (T.canonical new) v (del_header (T.canonical old) req)

  unfoldable pub replace_one : String × String → Request → Request
  replace_one (k, v) req =
      if str_eq (get req (T.canonical k)) "" then req else set_header (T.canonical k) v req

  unfoldable pub append_one : String × String → Request → Request
  append_one (k, v) req =
      let old = get req (T.canonical k) in
      set_header (T.canonical k) (if str_eq old "" then v else str_append (str_append old ", ") v)
        req

  -- one of the three templates
  abbrev fill : Request → String → String → String → String → String
  fill req name within template v =
      if T.contains v within then T.replace_all v template (get req (T.canonical name)) else v

  unfoldable pub filled : Request → String → String
  filled req v =
      if T.contains v "$("
      then fill req "x-authenticated-userid" "headers['x-authenticated-userid']"
          "$(headers['x-authenticated-userid'] or '')"
          (fill req "x-consumer-username" "headers['x-consumer-username']"
            "$(headers['x-consumer-username'] or '')"
            (fill req "x-consumer-id" "headers['x-consumer-id']" "$(headers['x-consumer-id'] or '')"
              v))
      else v

  unfoldable pub add_one : String × String → Request → Request
  unfolding filled
  add_one (k, v) req = set_header (T.canonical k) (filled req v) req

  -- Execute: the request that the next handler gets
  unfoldable pub execute : HeaderTransformationPlugin → Request → Request
  unfolding apply_all
  execute p req = apply_all add_one (pairs_of p.add) (
      apply_all append_one (pairs_of p.append) (
        apply_all replace_one (pairs_of p.replace) (
          apply_all rename_one (pairs_of p.rename)
            (apply_all remove_one (removed_names p.remove) req))))
