-- ===== src/Auth/Rbac.antt =====
-- rbac.go: Execute and the cache of enforcers. casbin is a parameter: NewEnforcer, which reads the
-- two files, and Enforce, both `none` where they fail. The values of the request's context that the
-- plugin asks for are arguments: in this repository nothing sets them.
use Prim.Native.String.{◌++◌ as str_append}
use sushi_gateway.Prelude.{String, ◌≡◌, refl, ap, ◌∙◌, Bool, true, false, Option, none, some, []}
use sushi_gateway.Prelude.Dict.{Dict, put, or_default, get-put_self}
use sushi_gateway.Model.{Bytes}
use sushi_gateway.Http.{Request, HttpError, Outcome, refused, passed}

pub record Casbin : Type 1 where
  pub Enforcer : Type 0
  pub new_enforcer : String → String → Option Enforcer
  pub enforce : Enforcer → String → Bytes → String → Option Bool

pub record RbacPlugin : Type 0 where
  pub model_path : Option String
  pub policy_path : Option String

-- the claims of the key jwt_claims, where they are a map, and the text of the key username
pub record Identity : Type 0 where
  pub sub : Option String
  pub username : Option String
  pub role : Option String

pub record Context : Type 0 where
  pub jwt_claims : Option Identity
  pub username : Option String

abbrev first_of : Option String → String → String
first_of none d = d
first_of (some s) d = s

unfoldable pub subject : Context → String
subject c = elim c.jwt_claims [
  | some i ↦ first_of i.sub (first_of i.username (first_of i.role "anonymous"))
  | none ↦ first_of c.username "anonymous"
]

abbrev pub model_path_of : RbacPlugin → String
model_path_of p = or_default p.model_path "config/rbac/model.conf"

abbrev pub policy_path_of : RbacPlugin → String
policy_path_of p = or_default p.policy_path "config/rbac/policy.csv"

abbrev pub cache_key : RbacPlugin → String
cache_key p = str_append (str_append (model_path_of p) "|") (policy_path_of p)

abbrev rbac_error : String → HttpError
rbac_error c = record { http_code = 500; code = c }

abbrev denied : HttpError
denied = record { http_code = 403; code = "ACCESS_DENIED" }

module _ (lib : Casbin) where
  abbrev pub Cache : Type 0
  Cache = Dict lib.Enforcer

  unfoldable pub create : RbacPlugin → Option lib.Enforcer → Cache → Option lib.Enforcer × Cache
  create p none cache = (none, cache)
  create p (some e) cache = (some e, put (cache_key p) e cache)

  unfoldable pub from_cache : RbacPlugin → Option lib.Enforcer → Cache → Option lib.Enforcer × Cache
  unfolding create
  from_cache p (some e) cache = (some e, cache)
  from_cache p none cache = create p (lib.new_enforcer (model_path_of p) (policy_path_of p)) cache

  -- getOrCreateEnforcer
  unfoldable pub get_or_create_enforcer : RbacPlugin → Cache → Option lib.Enforcer × Cache
  get_or_create_enforcer p cache = from_cache p (cache (cache_key p)) cache

  unfoldable pub verdict : Request → Option Bool → Outcome
  verdict req none = refused [] (rbac_error "RBAC_ERROR")
  verdict req (some true) = passed req
  verdict req (some false) = refused [] denied

  unfoldable pub with_enforcer : Context → Request → Option lib.Enforcer → Outcome
  with_enforcer c req none = refused [] (rbac_error "RBAC_INIT_ERROR")
  with_enforcer c req (some e) = verdict req (lib.enforce e (subject c) req.path req.method)

  -- Execute
  unfoldable pub execute : RbacPlugin → Context → Request → Cache → Outcome × Cache
  execute p c req cache =
      let (e, cache1) = get_or_create_enforcer p cache in (with_enforcer c req e, cache1)

  create_again :
      (p : RbacPlugin) (n : Option lib.Enforcer) (cache : Cache) (e : lib.Enforcer)
      → (create p n cache).0 ≡ some e
      → get_or_create_enforcer p (create p n cache).1 ≡ (some e, (create p n cache).1)
  unfolding get_or_create_enforcer create from_cache
  create_again p none cache e q = cc
  create_again p (some x) cache e q =
      let found = get-put_self (cache_key p) x cache ∙ q in
      ap (λ (o : Option lib.Enforcer). from_cache p o (put (cache_key p) x cache)) found

  from_cache_again :
      (p : RbacPlugin) (o : Option lib.Enforcer) (cache : Cache) (e : lib.Enforcer)
      → cache (cache_key p) ≡ o
      → (from_cache p o cache).0 ≡ some e
      → get_or_create_enforcer p (from_cache p o cache).1 ≡ (some e, (from_cache p o cache).1)
  unfolding from_cache
  from_cache_again p none cache e h q = create_again p _ cache e q
  from_cache_again p (some x) cache e h q =
      unfold get_or_create_enforcer in
      ap (λ (o : Option lib.Enforcer). from_cache p o cache) (h ∙ q)

  -- Once a request has got an enforcer, every later one of the same config gets it, and the cache
  -- stays: the files are read once.
  pub get_or_create_enforcer_again :
      (p : RbacPlugin) (cache : Cache) (e : lib.Enforcer)
      → (get_or_create_enforcer p cache).0 ≡ some e
      → let cache1 = (get_or_create_enforcer p cache).1 in
        get_or_create_enforcer p cache1 ≡ (some e, cache1)
  unfolding get_or_create_enforcer
  get_or_create_enforcer_again p cache e h = from_cache_again p (cache (cache_key p)) cache e refl h
