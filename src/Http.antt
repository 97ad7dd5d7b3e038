-- ===== src/Http.antt =====
-- The part of net/http's request that the modelled code reads, and internal/model's HttpError.
-- Header names are in the canonical form; a cookie, a query argument and the consumer of the
-- request's context are what the library's accessors find.
pub mod Response
use sushi_gateway.Prelude.{
  Bool, String, ℕ, List, [], ◌∷◌, Option, if◌then◌else◌, str_eq, str_eq_refl, ◌≡◌,
}
use sushi_gateway.Model.{Bytes}

pub record Request : Type 0 where
  pub method : String
  pub request_uri : String
  pub path : Bytes
  pub remote_addr : String
  pub host : String
  pub header : String → List String
  pub transfer_encoding : List String
  pub cookie : String → Option String
  pub query_arg : String → String
  pub consumer_id : Option String

abbrev pub first_or_empty : List String → String
first_or_empty [] = ""
first_or_empty (v ∷ vs) = v

-- req.Header.Get
abbrev pub get : Request → String → String
get req name = first_or_empty (req.header name)

-- its message is left out: it is text for the client
pub record HttpError : Type 0 where
  pub http_code : ℕ
  pub code : String

-- http.Cookie, as far as the code sets it
pub record Cookie : Type 0 where
  pub name : String
  pub value : String
  pub path : String
  pub http_only : Bool

-- Header.Set and Header.Del, for a name in the canonical form
unfoldable pub set_header : String → String → Request → Request
set_header name v req = record req { header = λ k. if str_eq k name then v ∷ [] else req.header k }

unfoldable pub del_header : String → Request → Request
del_header name req = record req { header = λ k. if str_eq k name then [] else req.header k }

-- What a plugin that may end a request does: it sets headers of the response and writes an error,
-- or it calls the next handler with a request.
pub data Outcome : Type 0 where
  refused : List (String × String) → HttpError → Outcome
  passed : Request → Outcome

pub get-set_header : (name v : String) (req : Request) → get (set_header name v req) name ≡ v
unfolding set_header
get-set_header name v req = rw (str_eq_refl name)

pub get-del_header : (name : String) (req : Request) → get (del_header name req) name ≡ ""
unfolding del_header
get-del_header name req = rw (str_eq_refl name)
