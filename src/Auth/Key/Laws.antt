-- ===== src/Auth/Key/Laws.antt =====
-- key_auth.go: whom a request is let in as.
use mathlib.Core.List.{Memᴰ}
use sushi_gateway.Prelude.{
  String, ◌≡◌, refl, sym, ap, ◌∙◌, ◌≢◌, ◌⊎◌, inl, inr, Bool, true, false, Bool-cases, Option-cases,
  Option, none, some, List, [], ◌∷◌, arith, str_eq, str_eq_iff, some_inj, if◌then◌else◌,
}
use sushi_gateway.Prelude.Dict.{or_default}
use sushi_gateway.Http.{Request, Outcome, passed, get}
use sushi_gateway.Auth.{Consumer}
use sushi_gateway.Auth.Key.{
  KeyAuthPlugin, key_names_of, first_set, has_key, find_consumer, config_key, validate_api_key,
  extract_api_key, strip, admit, with_key, execute, found_or,
}

first_set-some :
    (value : String → String) (ns : List String) (k : String)
    → first_set value ns ≡ some k
    → (n : String) × Memᴰ n ns × (value n ≡ k) × (k ≢ "")
unfolding first_set
first_set-some value [] k e = cc
first_set-some value (n ∷ ns) k e = elim (Bool-cases (str_eq (value n) "")) [
  | inl h ↦ let (m, i, v, ne) = first_set-some value ns k (rw h at e) in (m, Memᴰ.tail i, v, ne)
  | inr h ↦
      let v : value n ≡ k = some_inj (rw h at e) in
      (n, Memᴰ.head refl, v, λ z. ground (arith, str_eq_iff (value n) ""))
]

has_key-Memᴰ : (k : String) (ks : List String) → has_key k ks ≡ true → Memᴰ k ks
unfolding has_key
has_key-Memᴰ k [] e = cc
has_key-Memᴰ k (x ∷ ks) e = elim (Bool-cases (str_eq x k)) [
  | inl h ↦ Memᴰ.head (sym ((str_eq_iff x k).0 h))
  | inr h ↦ Memᴰ.tail (has_key-Memᴰ k ks (rw h at e))
]

-- a consumer of the list who has the key, and whose name it is
abbrev pub HasCredential : List Consumer → String → String → Type 0
HasCredential cs k who =
    (c : Consumer) × Memᴰ c cs × Memᴰ k c.key_auth_credentials × (c.username ≡ who)

find_consumer-some :
    (k : String) (cs : List Consumer) (who : String)
    → find_consumer k cs ≡ some who
    → HasCredential cs k who
unfolding find_consumer
find_consumer-some k [] who e = cc
find_consumer-some k (c ∷ cs) who e = elim (Bool-cases (has_key k c.key_auth_credentials)) [
  | inl h ↦ (c, Memᴰ.head refl, has_key-Memᴰ k c.key_auth_credentials h, some_inj (rw h at e))
  | inr h ↦ let (d, i, m, u) = find_consumer-some k cs who (rw h at e) in (d, Memᴰ.tail i, m, u)
]

config_key-some :
    (o : Option String) (k who : String)
    → config_key o k ≡ some who
    → (o ≡ some k) × (who ≡ "config-key")
config_key-some none k who e = cc
config_key-some (some x) k who e = ground (arith, str_eq_iff x k)

-- A key comes from a query argument or a header of one of the names, and is not empty.
abbrev pub Sent : (String → String) → KeyAuthPlugin → Request → String → Type 0
Sent canonical p req k =
    (n : String) × Memᴰ n (key_names_of p.key_names)
    × ((req.query_arg n ≡ k) ⊎ (get req (canonical n) ≡ k))
    × (k ≢ "")

-- It is a credential of a consumer, or the key of the config.
abbrev pub Known : KeyAuthPlugin → List Consumer → String → String → Type 0
Known p cs k who = HasCredential cs k who ⊎ ((p.key ≡ some k) × (who ≡ "config-key"))

validate_api_key-Known :
    (p : KeyAuthPlugin) (cs : List Consumer) (k who : String)
    → validate_api_key p cs k ≡ some who
    → Known p cs k who
unfolding validate_api_key
validate_api_key-Known p cs k who e = elim (Option-cases (find_consumer k cs)) [
  | inl h ↦ inr (config_key-some p.key k who (rw h at e))
  | inr (w, h) ↦ inl (find_consumer-some k cs who (h ∙ (rw h at e)))
]

found_or-some :
    (a b : Option String) (k : String) → found_or a b ≡ some k → (a ≡ some k) ⊎ (b ≡ some k)
found_or-some none b k e = inr e
found_or-some (some x) b k e = inl e

if_none :
    (b : Bool) (o : Option String) (k : String) → (if b then o else none) ≡ some k → o ≡ some k
if_none true o k e = e
if_none false o k e = cc

module _ (canonical : String → String) where
  extract_api_key-Sent :
      (p : KeyAuthPlugin) (req : Request) (k : String)
      → extract_api_key canonical p req ≡ some k
      → Sent canonical p req k
  unfolding extract_api_key
  extract_api_key-Sent p req k e =
      let asked = or_default p.key_in_query true in
      let read = or_default p.key_in_header true in
      let names = key_names_of p.key_names in
      let header = λ (n : String). get req (canonical n) in
      elim (found_or-some (if asked then first_set req.query_arg names else none)
        (if read then first_set header names else none) k e) [
          | inl q ↦
              let (n, i, v, ne) =
                first_set-some req.query_arg names k
                  (if_none asked (first_set req.query_arg names) k q) in
              (n, i, inl v, ne)
          | inr h ↦
              let (n, i, v, ne) =
                first_set-some header names k (if_none read (first_set header names) k h) in
              (n, i, inr v, ne)
        ]

  -- what it means that a request is let in as `r`
  pub record LetIn (p : KeyAuthPlugin) (cs : List Consumer) (req r : Request) : Type 0 where
    pub api_key : String
    pub who : String
    pub sent : Sent canonical p req api_key
    pub known : Known p cs api_key who
    pub consumer : r.consumer_id ≡ some who
    pub rest : r ≡ record (strip canonical p req) { consumer_id = some who }

  passed_inj : {r s : Request} → passed r ≡ passed s → r ≡ s
  passed_inj {r} e = ap (λ (o : Outcome). elim o [ passed x ↦ x | _ ↦ r ]) e

  admit-LetIn :
      (p : KeyAuthPlugin) (cs : List Consumer) (req r : Request) (k : String)
      → extract_api_key canonical p req ≡ some k
      → (o : Option String) → validate_api_key p cs k ≡ o
      → admit canonical p req o ≡ passed r
      → LetIn p cs req r
  unfolding admit
  admit-LetIn p cs req r k sent none known e = cc
  admit-LetIn p cs req r k sent (some who) known e = record {
    api_key = k;
    who = who;
    sent = extract_api_key-Sent p req k sent;
    known = validate_api_key-Known p cs k who known;
    consumer = ap (λ (x : Request). x.consumer_id) (sym (passed_inj e));
    rest = sym (passed_inj e);
  }

  with_key-LetIn :
      (p : KeyAuthPlugin) (cs : List Consumer) (req r : Request) (o : Option String)
      → extract_api_key canonical p req ≡ o
      → with_key canonical p cs req o ≡ passed r
      → LetIn p cs req r
  unfolding with_key
  with_key-LetIn p cs req r none sent e = cc
  with_key-LetIn p cs req r (some k) sent e =
      admit-LetIn p cs req r k sent (validate_api_key p cs k) refl e

  -- A request is let in only if it sends, under one of the names, a key that is not empty and that
  -- is a credential of a consumer or the key of the config. It goes on as that consumer, and is
  -- otherwise the request that came, less the stripped headers.
  pub execute-LetIn :
      (p : KeyAuthPlugin) (cs : List Consumer) (req r : Request)
      → execute canonical p cs req ≡ passed r
      → LetIn p cs req r
  unfolding execute
  execute-LetIn p cs req r e = with_key-LetIn p cs req r (extract_api_key canonical p req) refl e
