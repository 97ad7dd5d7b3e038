-- ===== src/Retry.antt =====
-- sushi-proxy/internal/gateway/retry_handle.go: what a request remembers of the upstreams that
-- failed. Each method holds the handle's lock, so it is one step. FailedUpstreams only ever holds
-- `true`, so it is given by its keys, each once.
pub mod Failed
mod Tests
use sushi_gateway.Prelude.{
  ℕ, String, Bool, Option, none, some, List, [], ◌∷◌, ◌++◌, if◌then◌else◌, length, ltb,
}
use sushi_gateway.Prelude.Int.{inc}
use sushi_gateway.Balancer.{contains}

pub record RetryHandle : Type 0 where
  pub failed_upstreams : List String
  pub retry_count : ℕ
  pub service_name : String
  pub last_upstream_id : String

unfoldable pub new_retry_handle : String → RetryHandle
new_retry_handle name = record {
  failed_upstreams = [];
  retry_count = 0;
  service_name = name;
  last_upstream_id = "";
}

-- m[k] = true
unfoldable pub add_key : List String → String → List String
add_key keys k = if contains keys k then keys else keys ++ k ∷ []

unfoldable pub mark_failed : String → RetryHandle → RetryHandle
mark_failed id h = record h {
  failed_upstreams = add_key h.failed_upstreams id;
  last_upstream_id = id;
}

unfoldable pub is_failed : RetryHandle → String → Bool
is_failed h id = contains h.failed_upstreams id

-- retry_count is the bit pattern of an int
unfoldable pub increment_retry : RetryHandle → RetryHandle
increment_retry h = record h { retry_count = inc h.retry_count }

unfoldable pub get_failed_upstreams : RetryHandle → List String
get_failed_upstreams h = h.failed_upstreams

unfoldable pub has_available_upstreams : RetryHandle → ℕ → Bool
has_available_upstreams h total = ltb (length h.failed_upstreams) total

unfoldable pub reset : RetryHandle → RetryHandle
reset h = record h { failed_upstreams = []; retry_count = 0; last_upstream_id = "" }

-- What a context holds under retryHandleKey. The context keeps a pointer, so the handle that is
-- returned is the one that the context holds.
abbrev pub Context : Type 0
Context = Option RetryHandle

unfoldable pub with_retry_handle : Context → RetryHandle → Context
with_retry_handle ctx h = some h

unfoldable pub get_retry_handle_from_context : Context → Option RetryHandle
get_retry_handle_from_context ctx = ctx

get_or_create_from : Option RetryHandle → Context → String → RetryHandle × Context
get_or_create_from none ctx name = let h = new_retry_handle name in (h, with_retry_handle ctx h)
get_or_create_from (some h) ctx name = (h, ctx)

unfoldable pub get_or_create_retry_handle : Context → String → RetryHandle × Context
unfolding get_or_create_from
get_or_create_retry_handle ctx name =
    get_or_create_from (get_retry_handle_from_context ctx) ctx name
