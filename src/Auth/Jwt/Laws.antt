-- ===== src/Auth/Jwt/Laws.antt =====
-- jwt.go: what a token that passes has been checked against.
use sushi_gateway.Prelude.{
  String, ◌≡◌, refl, sym, ap, ◌≢◌, ◌⊎◌, inl, inr, Bool, true, false, Bool-cases, Option, none, some,
  List, ◌∷◌, ◌++◌, arith, str_eq, str_eq_iff, some_inj,
}
use sushi_gateway.Prelude.Text.{codes}
use sushi_gateway.Model.{Bytes}
use sushi_gateway.Http.{Request, HttpError, Outcome, passed, get}
use sushi_gateway.Auth.{Consumer, split_in_two}
use sushi_gateway.Auth.Jwt.Sources.{
  OfConsumer, OfConfig, in_consumers-some, from_config-OfConfig, not_hs256,
}
use sushi_gateway.Auth.Basic.Laws.{split_in_two-some}
use sushi_gateway.Auth.Jwt.{
  JwtPlugin, JwtLib, JwtCredentials, Claims, Configured, panics, not_configured, configured,
  is_hmac, is_rsa, is_claim_valid, check_parsed, from_config, validate_hs256, check_rsa,
  validate_rs256, validate_with_credentials, get_credentials_from_consumers, by_issuer, let_in,
  with_credentials, fallback, by_credentials, with_header, execute, consumer_id_of, issuer_of,
}

check_parsed-none :
    (o : Option (Claims × Bool)) (iss : String)
    → check_parsed o iss ≡ none
    → (c : Claims) × (o ≡ some (c, true)) × (c.issuer ≡ some iss)
unfolding check_parsed is_claim_valid
check_parsed-none none iss e = cc
check_parsed-none (some (c, false)) iss e = cc
check_parsed-none (some (c, true)) iss e = (c, refl, issuer_is c.issuer e)
  where
    issuer_is :
        (i : Option String)
        → check_parsed (some (record c { issuer = i }, true)) iss ≡ none
        → i ≡ some iss
    issuer_is none h = cc
    issuer_is (some x) h = ground (arith, str_eq_iff x iss)

module _ (lib : JwtLib) where
  -- golang-jwt has found the token valid under the credentials, by a method of the family that they
  -- name, and its claims name their issuer.
  pub data Checked (k : JwtCredentials) (token : Bytes) : Type 0 where
    by_secret :
        (c : Claims)
        → k.alg ≡ "HS256"
        → lib.parse_secret token is_hmac k.secret ≡ some (c, true)
        → c.issuer ≡ some k.iss
        → Checked k token
    by_public_key :
        (c : Claims) (key : lib.RsaKey)
        → k.alg ≢ "HS256"
        → lib.rsa_key_from_pem k.public_key ≡ some key
        → lib.parse_rsa token is_rsa key ≡ some (c, true)
        → c.issuer ≡ some k.iss
        → Checked k token

  validate-Checked :
      (k : JwtCredentials) (token : Bytes)
      → validate_with_credentials lib k token ≡ none
      → Checked k token
  unfolding validate_with_credentials validate_hs256 validate_rs256 check_rsa
  validate-Checked k token e = elim (Bool-cases (str_eq k.alg "HS256")) [
    | inl h ↦
        let (c, q, i) =
          check_parsed-none (lib.parse_secret token is_hmac k.secret) k.iss (rw h at e) in
        by_secret c ((str_eq_iff _ _).0 h) q i
    | inr h ↦ rsa_case h (lib.rsa_key_from_pem k.public_key) refl (rw h at e)
  ]
    where
      rsa_case :
          str_eq k.alg "HS256" ≡ false
          → (o : Option lib.RsaKey) → lib.rsa_key_from_pem k.public_key ≡ o
          → check_rsa lib k token o ≡ none
          → Checked k token
      rsa_case h none ek q = cc
      rsa_case h (some key) ek q =
          let (c, r, i) = check_parsed-none (lib.parse_rsa token is_rsa key) k.iss q in
          by_public_key c key (not_hs256 k.alg h) ek r i

  -- what it means that a request is let in as `r`
  pub record Verified (p : JwtPlugin) (cs : List Consumer) (req r : Request) : Type 0 where
    pub scheme : Bytes
    pub token : Bytes
    pub words : codes (get req "Authorization") ≡ scheme ++ b' ' ∷ token
    pub credentials : JwtCredentials
    pub source : OfConsumer cs credentials ⊎ OfConfig p credentials
    pub checked : Checked credentials token
    pub consumer : r.consumer_id ≡ some (consumer_id_of lib credentials token)

  passed_inj : {a b : Request} → passed a ≡ passed b → a ≡ b
  passed_inj {a} e = ap (λ (o : Outcome). elim o [ passed x ↦ x | _ ↦ a ]) e

  by_issuer-OfConsumer :
      (cs : List Consumer) (k : JwtCredentials) (o : Option String)
      → by_issuer lib o cs ≡ some k
      → OfConsumer cs k
  unfolding by_issuer
  by_issuer-OfConsumer cs k none e = cc
  by_issuer-OfConsumer cs k (some i) e = elim (Bool-cases (str_eq i "")) [
    | inl h ↦ absurd (cc (let q : none ≡ some k = rw h at e in q))
    | inr h ↦ in_consumers-some i cs k (rw h at e)
  ]

  module _ (p : JwtPlugin) (cs : List Consumer) (req r : Request) (scheme token : Bytes)
      (words : codes (get req "Authorization") ≡ scheme ++ b' ' ∷ token) where
    with_credentials-Verified :
        (k : JwtCredentials)
        → OfConsumer cs k ⊎ OfConfig p k
        → with_credentials lib k token req ≡ passed r
        → Verified p cs req r
    unfolding with_credentials let_in
    with_credentials-Verified k source e = go (validate_with_credentials lib k token) refl e
      where
        go :
            (o : Option HttpError)
            → validate_with_credentials lib k token ≡ o
            → let_in lib k token req o ≡ passed r
            → Verified p cs req r
        go (some x) h q = cc
        go none h q = record {
          scheme = scheme;
          token = token;
          words = words;
          credentials = k;
          source = source;
          checked = validate-Checked k token h;
          consumer = ap (λ (x : Request). x.consumer_id) (sym (passed_inj q));
        }

    fallback-Verified :
        (c : Configured)
        → from_config p p.alg p.iss ≡ c
        → fallback lib c token req ≡ some (passed r)
        → Verified p cs req r
    unfolding fallback
    fallback-Verified panics h e = cc
    fallback-Verified not_configured h e = cc
    fallback-Verified (configured k) h e =
        with_credentials-Verified k (inr (from_config-OfConfig p p.alg p.iss k refl refl h))
          (some_inj e)

    by_credentials-Verified :
        (o : Option JwtCredentials)
        → get_credentials_from_consumers lib cs token ≡ o
        → by_credentials lib p o token req ≡ some (passed r)
        → Verified p cs req r
    unfolding by_credentials get_credentials_from_consumers
    by_credentials-Verified none h e = fallback-Verified (from_config p p.alg p.iss) refl e
    by_credentials-Verified (some k) h e =
        with_credentials-Verified k
          (inl (by_issuer-OfConsumer cs k (issuer_of lib (lib.parse_unverified token)) h))
          (some_inj e)

  header-Verified :
      (p : JwtPlugin) (cs : List Consumer) (req r : Request) (o : Option (Bytes × Bytes))
      → split_in_two b' ' (codes (get req "Authorization")) ≡ o
      → with_header lib p cs req o ≡ some (passed r)
      → Verified p cs req r
  unfolding with_header
  header-Verified p cs req r none h e = cc
  header-Verified p cs req r (some (scheme, token)) h e =
      by_credentials-Verified p cs req r scheme token (split_in_two-some b' ' _ scheme token h).0
        (get_credentials_from_consumers lib cs token) refl e

  -- A request is let in only with a token, the second of the two words of its Authorization header,
  -- that golang-jwt has found valid under the credentials of a consumer of the list or of the
  -- plugin's config, by a signing method of the family that they name, and whose issuer is theirs.
  -- It goes on as that consumer.
  pub execute-Verified :
      (p : JwtPlugin) (cs : List Consumer) (req r : Request)
      → execute lib p cs req ≡ some (passed r)
      → Verified p cs req r
  unfolding execute
  execute-Verified p cs req r e =
      header-Verified p cs req r (split_in_two b' ' (codes (get req "Authorization"))) refl e
