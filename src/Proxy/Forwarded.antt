-- ===== src/Proxy/Forwarded.antt =====
-- sushi_proxy.go: which requests are let through, and what is sent on in their place.
use Prim.Native.Char.{code}
use Prim.Native.String.{String}
use sushi_gateway.Prelude.{
  ℕ, zero, suc, ◌≡◌, ◌≢◌, refl, sym, ap, subst, ◌∙◌, ◌≤◌, ◌↔◌, ◌⊎◌, inl, inr, true, false, Option,
  none, some, List, [], ◌∷◌, ◌++◌, arith, length, str_eq, Bool-cases, Option-cases,
}
use sushi_gateway.Prelude.Text.{
  codes, starts_with_byte, cut_prefix, cut_prefix-some, cut_prefix-append,
}
use sushi_gateway.Model.{Bytes, Service, Route, ProxyConfig}
use sushi_gateway.Http.{Request, Cookie, get}
use sushi_gateway.Balancer.{contains}
use sushi_gateway.Balancer.Interface.{LoadBalancer}
use sushi_gateway.Proxy.Framing.{
  matches_digits, check_content_length, validate_request_framing, is_line_break, sanitize_value,
}
use sushi_gateway.Proxy.Path.{with_slash, drop_base, director_path}
use sushi_gateway.Proxy.Transport.{Outgoing, World, Outside}
use sushi_gateway.Proxy.Pass.{
  Event, slept, cookie_set, sent, wrote, Pass, Next, back_off, handle_proxy_pass, attempts_allowed,
  first_pass,
}
use sushi_gateway.Proxy.Steps.{Went, prepared}
use sushi_gateway.Proxy.Attempts.{run-Keeps}

-- the length of the body can be told in one way only
abbrev pub WellFramed : Request → Type 0
WellFramed req =
    (length (req.header "Content-Length") ≤ 1)
    × (length (req.header "Transfer-Encoding") ≡ 0)
    × ((str_eq (get req "Content-Length") "" ≡ true)
        ⊎ ((contains req.transfer_encoding "chunked" ≡ false)
            × (matches_digits (codes (get req "Content-Length")) ≡ true)))

-- validateRequestFraming lets a request through exactly when it has at most one Content-Length
-- header, no Transfer-Encoding header that net/http has left, and a Content-Length that is either
-- missing or empty, or made of digits in a request that is not chunked.
pub validate_request_framing_iff :
    (req : Request) → (validate_request_framing req ≡ none) ↔ WellFramed req
unfolding validate_request_framing check_content_length
validate_request_framing_iff req = ground arith

-- no byte of the text is CR or LF
unfoldable pub NoLineBreak : String → Type 0
NoLineBreak String.[] = Unit
NoLineBreak (String.◌∷◌ c s) = (is_line_break (code c) ≡ false) × NoLineBreak s

-- sanitizeHeaders leaves no CR and no LF in a value.
pub sanitize_value-NoLineBreak : (v : String) → NoLineBreak (sanitize_value v)
unfolding sanitize_value NoLineBreak
sanitize_value-NoLineBreak String.[] = tt
sanitize_value-NoLineBreak (String.◌∷◌ c s) =
    let rest = sanitize_value-NoLineBreak s in
    elim (Bool-cases (is_line_break (code c))) [ inl e ↦ rw e rest | inr e ↦ rw e (e, rest) ]

-- a value without CR and LF is left as it is
pub sanitize_value-same : (v : String) → NoLineBreak v → sanitize_value v ≡ v
unfolding sanitize_value NoLineBreak
sanitize_value-same String.[] h = refl
sanitize_value-same (String.◌∷◌ c s) (e, h) = rw e (ap (String.◌∷◌ c) (sanitize_value-same s h))

-- `path` is `rest`, with a slash put in front if it has none.
abbrev pub Slashed : Bytes → Bytes → Type 0
Slashed rest path =
    ((starts_with_byte 47 rest ≡ true) × (path ≡ rest))
    ⊎ ((starts_with_byte 47 rest ≡ false) × (path ≡ 47 ∷ rest))

-- `path` is the requested path without the base path, if it begins with that, and else all of it.
abbrev pub IsForwarded : Bytes → Bytes → Bytes → Type 0
IsForwarded base requested path =
    (rest : Bytes) × Slashed rest path
    × ((requested ≡ base ++ rest)
        ⊎ ((requested ≡ rest) × ((other : Bytes) → requested ≢ base ++ other)))

with_slash-Slashed : (rest : Bytes) → Slashed rest (with_slash rest)
unfolding with_slash
with_slash-Slashed rest = elim (Bool-cases (starts_with_byte 47 rest)) [
  | inl e ↦ rw e (inl (refl, refl))
  | inr e ↦ rw e (inr (refl, refl))
]

-- The path of the Director is the request's, less the base path.
pub director_path-IsForwarded :
    (base path : Bytes) → IsForwarded base path (director_path base path)
unfolding director_path drop_base
director_path-IsForwarded [] path = (path, with_slash-Slashed path, inl refl)
director_path-IsForwarded (b ∷ base) path = elim (Option-cases (cut_prefix (b ∷ base) path)) [
  | inl e ↦ rw e (
    path,
    with_slash-Slashed path,
    inr (
      refl,
      λ other same.
          let cut = cut_prefix-append (b ∷ base) other in
          let clash : none ≡ some other = sym e ∙ ap (cut_prefix (b ∷ base)) same ∙ cut in cc,
    ),
  )
  | inr (rest, e) ↦
      rw e (rest, with_slash-Slashed rest, inl (cut_prefix-some (b ∷ base) path rest e))
]

-- every request that was sent on went to the path that is due to this one
unfoldable pub SentTo : Bytes → Bytes → List Event → Type 0
SentTo base path [] = Unit
SentTo base path (sent a id out x ∷ es) = IsForwarded base path out.url_path × SentTo base path es
SentTo base path (slept d ∷ es) = SentTo base path es
SentTo base path (cookie_set c ∷ es) = SentTo base path es
SentTo base path (wrote n body ∷ es) = SentTo base path es

module _ {σ : Type 0} (lb : LoadBalancer σ) (env : Outside σ) (config : Option ProxyConfig)
    (s : Service) (route : Option Route) (req : Request) where
  abbrev SentOn : Pass σ → Type 0
  SentOn st = SentTo s.base_path req.path st.log

  SentTo-prepared :
      (a : ℕ) (b : σ) (cookie : Option Cookie) (st : Pass σ)
      → SentOn st
      → SentOn (prepared lb env config s route req a b cookie st)
  unfolding SentTo back_off
  SentTo-prepared zero b none st h = h
  SentTo-prepared zero b (some c) st h = h
  SentTo-prepared (suc a) b none st h = h
  SentTo-prepared (suc a) b (some c) st h = h

  due :
      (out : Outgoing)
      → out.url_path ≡ director_path s.base_path req.path
      → IsForwarded s.base_path req.path out.url_path
  due out q =
      subst (IsForwarded s.base_path req.path) (sym q)
        (director_path-IsForwarded s.base_path req.path)

  SentTo-step :
      (a : ℕ) (st : Pass σ) (r : Next × Pass σ)
      → Went lb env config s route req a st r
      → SentOn st
      → SentOn r.1
  unfolding SentTo
  SentTo-step a st _ (Went.early b cookie o n) h = SentTo-prepared a b cookie st h
  SentTo-step a st _ (Went.no_transport b cookie u e) h = SentTo-prepared a b cookie st h
  SentTo-step a st _ (Went.aborted b cookie u url out q p) h =
      (due out q, SentTo-prepared a b cookie st h)
  SentTo-step a st _ (Went.answered b cookie u url out x q p good) h =
      (due out q, SentTo-prepared a b cookie st h)
  SentTo-step a st _ (Went.rejected b cookie u url out x q p bad) h =
      (due out q, SentTo-prepared a b cookie st h)

  -- Every request that HandleProxyPass sends on goes to the request's path less the service's base
  -- path, if it begins with that, and else to all of it, in both cases with a slash put in front if
  -- there is none. The route's strip_path and its own paths change nothing.
  pub handle_proxy_pass-SentTo :
      (w : World σ)
      → SentTo s.base_path req.path (handle_proxy_pass lb env config s route req w).1.log
  unfolding handle_proxy_pass SentTo
  handle_proxy_pass-SentTo w =
      run-Keeps lb env config s route req SentOn (λ a st r. SentTo-step a st r)
        (attempts_allowed s.retry_options.max_retries) 0 none
        (first_pass lb env config s route req w) tt
