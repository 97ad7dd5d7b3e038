-- ===== src/Balancer/HashExtractor.antt =====
-- hash_extractor.go: ExtractHashValue. net.SplitHostPort is a parameter, `none` where it fails.
use Prim.Native.Char.{code}
use Prim.Native.String.{String}
use sushi_gateway.Prelude.{
  ◌≡◌, refl, inl, inr, Bool, true, false, ◌&&◌, not, Option, none, some, if◌then◌else◌, ◌==◌,
  str_eq, Bool-cases, arith,
}
use sushi_gateway.Prelude.Dict.{or_default}
use sushi_gateway.Model.{
  Bytes, UpstreamConfig, HashOnType, hash_none, hash_consumer, hash_ip, hash_header, hash_cookie,
  hash_path, hash_query_arg, hash_unset,
}
use sushi_gateway.Http.{Request, get}

unfoldable pub before_comma : String → String
before_comma String.[] = String.[]
before_comma (String.◌∷◌ c s) =
    let rest = before_comma s in if code c == 44 then String.[] else String.◌∷◌ c rest

-- a path is text here
abbrev pub Text : Type 0
Text = Bytes → String

module _ (split_host_port : String → Option String) (text : Text) where
  -- the host of RemoteAddr, or RemoteAddr if it has none
  abbrev pub remote_ip : Request → String
  remote_ip req = or_default (split_host_port req.remote_addr) req.remote_addr

  unfoldable pub extract_ip : Request → String
  unfolding before_comma
  extract_ip req =
      if not (str_eq (get req "X-Forwarded-For") "")
      then before_comma (get req "X-Forwarded-For")
      else if not (str_eq (get req "X-Real-Ip") "")
      then get req "X-Real-Ip"
      else remote_ip req

  -- a value that is looked up by a name, "" for the empty name
  abbrev named : String → String → String
  named name value = if str_eq name "" then "" else value

  unfoldable pub extract_by_type : Request → HashOnType → UpstreamConfig → String × Bool
  unfolding extract_ip
  extract_by_type req hash_ip u = (extract_ip req, true)
  extract_by_type req hash_consumer u = (or_default req.consumer_id "", true)
  extract_by_type req hash_header u = (named u.hash_on_header (get req u.hash_on_header), true)
  extract_by_type req hash_cookie u =
      (named u.hash_on_cookie (or_default (req.cookie u.hash_on_cookie) ""), true)
  extract_by_type req hash_path u = (text req.path, true)
  extract_by_type req hash_query_arg u =
      (named u.hash_on_query_arg (req.query_arg u.hash_on_query_arg), true)
  extract_by_type req _ u = ("", false)

  abbrev hash_type_or_ip : HashOnType → HashOnType
  hash_type_or_ip hash_unset = hash_ip
  hash_type_or_ip hash_none = hash_ip
  hash_type_or_ip t = t

  abbrev usable : String × Bool → Bool
  usable (value, ok) = ok && not (str_eq value "")

  -- upstream.HashFallback is "" or HashOnNone
  abbrev is_unset : HashOnType → Bool
  is_unset hash_unset = true
  is_unset hash_none = true
  is_unset _ = false

  unfoldable pub extract_fallback : Request → HashOnType → UpstreamConfig → String × Bool
  unfolding extract_by_type extract_ip
  extract_fallback req t u =
      if not (is_unset t) && usable (extract_by_type req t u)
      then ((extract_by_type req t u).0, true)
      else (extract_ip req, true)

  unfoldable pub extract_hash_value : Request → Option UpstreamConfig → String × Bool
  unfolding extract_fallback
  extract_hash_value req none = (extract_ip req, true)
  extract_hash_value req (some u) =
      if usable (extract_by_type req (hash_type_or_ip u.hash_on) u)
      then ((extract_by_type req (hash_type_or_ip u.hash_on) u).0, true)
      else extract_fallback req u.hash_fallback u

  abbrev NotEmpty : String × Bool → Type 0
  NotEmpty r = (r.1 ≡ true) × (str_eq r.0 "" ≡ false)

  and_right : (a b : Bool) → (a && b) ≡ true → b ≡ true
  and_right true b h = h
  and_right false b h = cc

  usable-NotEmpty : (r : String × Bool) → usable r ≡ true → NotEmpty (r.0, true)
  usable-NotEmpty (value, ok) h = ground arith

  extract_fallback-NotEmpty :
      (req : Request) (t : HashOnType) (u : UpstreamConfig)
      → str_eq (extract_ip req) "" ≡ false
      → NotEmpty (extract_fallback req t u)
  unfolding extract_fallback
  extract_fallback-NotEmpty req t u h =
      elim (Bool-cases (not (is_unset t) && usable (extract_by_type req t u))) [
        | inl e ↦ rw e (usable-NotEmpty _ (and_right (not (is_unset t)) _ e))
        | inr e ↦ rw e (refl, h)
      ]

  -- Whenever the client's address can be told, ExtractHashValue succeeds with a value that is not
  -- empty, whatever it is told to hash on.
  pub extract_hash_value-NotEmpty :
      (req : Request) (config : Option UpstreamConfig)
      → str_eq (extract_ip req) "" ≡ false
      → let r = extract_hash_value req config in (r.1 ≡ true) × (str_eq r.0 "" ≡ false)
  unfolding extract_hash_value
  extract_hash_value-NotEmpty req none h = (refl, h)
  extract_hash_value-NotEmpty req (some u) h =
      elim (Bool-cases (usable (extract_by_type req (hash_type_or_ip u.hash_on) u))) [
        | inl e ↦ rw e (usable-NotEmpty _ e)
        | inr e ↦ rw e (extract_fallback-NotEmpty req u.hash_fallback u h)
      ]
