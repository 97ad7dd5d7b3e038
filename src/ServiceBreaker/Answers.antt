-- ===== src/ServiceBreaker/Answers.antt =====
-- circuit_breaker.go: what the client gets, and which breaker a request meets.
use sushi_gateway.Prelude.{ℕ, ◌≡◌, refl, ap, Option, none, some, List, [], ◌∷◌, ◌++◌}
use sushi_gateway.Prelude.Int.{ℤ}
use sushi_gateway.Prelude.Text.{bytes_eq_refl}
use sushi_gateway.Model.{Bytes}
use sushi_gateway.Http.{Request}
use sushi_gateway.Http.Response.{Headers, Writer, Call, answer_calls}
use sushi_gateway.Balancer.LeastConnections.{Float64}
use sushi_gateway.ServiceBreaker.{
  Recorder, new_recorder, record_calls, Gobreaker, Breakers, create, get_or_create_circuit_breaker,
}

-- the bytes of the parts of a body
unfoldable pub joined : List Bytes → Bytes
joined [] = []
joined (b ∷ bs) = b ++ joined bs

-- a response to which nothing was sent, with the headers that were set before
abbrev pub unsent : Headers → Writer
unsent hs = record { header = hs; sent = none; body = [] }

-- a response that was sent at once, with these headers, status and body
abbrev pub sent_with : Headers → ℕ → Bytes → Writer
sent_with hs n body = record { header = hs; sent = some (n, hs); body = body }

module _ (F : Float64) (G : Gobreaker) where
  -- The breaker of a name is the one that the first request made, whatever config a later one has.
  pub get_or_create_again :
      (name : Bytes) (c d : ℤ × ℤ × ℤ) (bs : Breakers F G)
      → let (b, bs1) = get_or_create_circuit_breaker F G name c bs in
        get_or_create_circuit_breaker F G name d bs1 ≡ (b, bs1)
  unfolding get_or_create_circuit_breaker create
  get_or_create_again name c d bs = go (bs name) refl
    where
      go :
          (o : Option G.Breaker)
          → bs name ≡ o
          → create F G name d (create F G name c bs o).1 ((create F G name c bs o).1 name)
            ≡ create F G name c bs o
      go (some b) h = ap (create F G name d bs) h
      go none h = rw (bytes_eq_refl name) refl

  -- a next handler that sets headers, sends a status and writes a body
  module _ (next : Request → List Call) (req : Request) (f : Headers → Headers) (n : ℕ)
      (bs : List Bytes) (calls : next req ≡ answer_calls f n bs) (hs : Headers) where
    abbrev recorded : Recorder
    recorded = record_calls (next req) new_recorder

    -- what the handler set, after what was there
    abbrev pub added : Headers
    added k = hs k ++ f (λ h. []) k
