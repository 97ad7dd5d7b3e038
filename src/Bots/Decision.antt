-- ===== src/Bots/Decision.antt =====
-- bot_protection.go: which requests pass.
use sushi_gateway.Prelude.{
  ℕ, zero, suc, String, ◌≡◌, ◌≢◌, refl, sym, ◌↔◌, ◌⊎◌, ◌&&◌, not, Bool, true, false, inl, inr, none,
  some, some_inj, List, [], ◌∷◌, arith, Memᴰ, get_elem?, if◌then◌else◌, str_eq, str_eq_iff,
}
use sushi_gateway.Prelude.Text.{codes, contains_text}
use sushi_gateway.Model.{Bytes}
use sushi_gateway.Http.{Request, Outcome, passed, get}
use sushi_gateway.Bots.{
  BotProtectionPlugin, Settings, new_bot_protection_plugin, compile_patterns, block_request,
  is_likely_browser, execute, any_matches, matches, to_lower, default_malicious_bots,
  default_good_bots,
}
use sushi_gateway.Bots.Patterns.{Within, any_matches_iff, contains_text_iff, contains_text_trans}

abbrev decision : Request → Bool → Bool → Bool → Bool → Bool → Bool → Outcome
decision req e w g b v m =
    if e
    then block_request
    else if w
    then passed req
    else if g
    then passed req
    else if b
    then block_request
    else if v
    then block_request
    else if m
    then block_request
    else passed req

abbrev Clear : Bool → Bool → Bool → Bool → Bool → Bool → Type 0
Clear e w g b v m =
    (e ≡ false) × ((w ≡ true) ⊎ ((g ≡ true) ⊎ ((b ≡ false) × (v ≡ false) × (m ≡ false))))

no_pass : (req : Request) → block_request ≡ passed req → ⊥
no_pass req e = cc

decision_iff :
    (req : Request) (e w g b v m : Bool)
    → (decision req e w g b v m ≡ passed req) ↔ Clear e w g b v m
decision_iff req true w g b v m = (λ h. absurd (no_pass req h), λ c. cc)
decision_iff req false true g b v m = (λ _. (refl, inl refl), λ _. refl)
decision_iff req false false true b v m = (λ _. (refl, inr (inl refl)), λ _. refl)
decision_iff req false false false true v m = (λ h. absurd (no_pass req h), λ c. ground arith)
decision_iff req false false false false true m = (λ h. absurd (no_pass req h), λ c. ground arith)
decision_iff req false false false false false true =
    (λ h. absurd (no_pass req h), λ c. ground arith)
decision_iff req false false false false false false =
    (λ _. (refl, inr (inr (refl, refl, refl))), λ _. refl)

-- the user agent, in lower case, has one of the patterns somewhere, in lower case
abbrev pub Named : List String → Bytes → Type 0
Named ps s = (p : String) × Memᴰ p ps × Within (to_lower (codes p)) s

any_matches-Named : (ps : List String) (s : Bytes) → (any_matches ps s ≡ true) ↔ Named ps s
unfolding matches
any_matches-Named ps s = (
  λ h.
      let (p, m, e) = (any_matches_iff ps s).0 h in
      (p, m, (contains_text_iff (to_lower (codes p)) s).0 e),
  λ w. (any_matches_iff ps s).1 (w.0, w.1, (contains_text_iff (to_lower (codes w.0)) s).1 w.2),
)

abbrev pub lowered : Request → Bytes
lowered req = to_lower (codes (get req "User-Agent"))

-- What lets a request in: a pattern of the whitelist; a good bot's, if those are allowed; or
-- neither a pattern of the blacklist, nor unlikely headers where they are checked, nor the mode
-- `allow`.
pub data Reason (p : BotProtectionPlugin) (req : Request) : Type 0 where
  whitelisted : Named p.whitelist_patterns (lowered req) → Reason p req
  good_bot :
      p.config.allow_good_bots ≡ true → Named p.good_bots_patterns (lowered req) → Reason p req
  unremarkable :
      (Named p.blacklist_patterns (lowered req) → ⊥)
      → (p.config.validate_browser_headers ≡ true → is_likely_browser req ≡ true)
      → p.config.mode ≢ "allow"
      → Reason p req

and_true : (a b : Bool) → (a && b) ≡ true → (a ≡ true) × (b ≡ true)
and_true true b e = (refl, e)
and_true false b e = cc

not_both : (a b : Bool) → ((a && not b) ≡ false) ↔ (a ≡ true → b ≡ true)
not_both true true = (λ _ _. refl, λ _. refl)
not_both true false = (λ e. cc, λ f. sym (f refl))
not_both false b = (λ _ e. cc, λ _. refl)

is_false : (b : Bool) → (b ≡ true → ⊥) → b ≡ false
is_false true f = absurd (f refl)
is_false false f = refl

not_true : {b : Bool} → b ≡ false → b ≡ true → ⊥
not_true e f = cc

-- Without an empty user agent that is blocked, a request passes exactly for one of the reasons.
pub execute_iff :
    (p : BotProtectionPlugin) (req : Request)
    → (str_eq (get req "User-Agent") "" && p.config.block_empty_ua) ≡ false
    → (execute p req ≡ passed req) ↔ Reason p req
unfolding execute
execute_iff p req agent =
    let w = any_matches p.whitelist_patterns (lowered req) in
    let g = any_matches p.good_bots_patterns (lowered req) in
    let b = any_matches p.blacklist_patterns (lowered req) in
    let steps =
      decision_iff req (str_eq (get req "User-Agent") "" && p.config.block_empty_ua) w
        (p.config.allow_good_bots && g) b
        (p.config.validate_browser_headers && not (is_likely_browser req))
        (str_eq p.config.mode "allow") in
    (λ h. reason (steps.0 h).1, λ r. steps.1 (agent, clear r))
  where
    reason :
        (any_matches p.whitelist_patterns (lowered req) ≡ true)
          ⊎ (((p.config.allow_good_bots && any_matches p.good_bots_patterns (lowered req)) ≡ true)
              ⊎ ((any_matches p.blacklist_patterns (lowered req) ≡ false)
                  × ((p.config.validate_browser_headers && not (is_likely_browser req)) ≡ false)
                  × (str_eq p.config.mode "allow" ≡ false)))
        → Reason p req
    reason (inl e) = whitelisted ((any_matches-Named p.whitelist_patterns (lowered req)).0 e)
    reason (inr (inl e)) =
        let (a, n) = and_true p.config.allow_good_bots _ e in
        good_bot a ((any_matches-Named p.good_bots_patterns (lowered req)).0 n)
    reason (inr (inr (b, v, m))) =
        unremarkable (λ n. not_true b ((any_matches-Named p.blacklist_patterns (lowered req)).1 n))
          ((not_both p.config.validate_browser_headers (is_likely_browser req)).0 v)
          (λ e. not_true m ((str_eq_iff p.config.mode "allow").1 e))

    clear :
        Reason p req
        → (any_matches p.whitelist_patterns (lowered req) ≡ true)
          ⊎ (((p.config.allow_good_bots && any_matches p.good_bots_patterns (lowered req)) ≡ true)
              ⊎ ((any_matches p.blacklist_patterns (lowered req) ≡ false)
                  × ((p.config.validate_browser_headers && not (is_likely_browser req)) ≡ false)
                  × (str_eq p.config.mode "allow" ≡ false)))
    clear (whitelisted n) = inl ((any_matches-Named p.whitelist_patterns (lowered req)).1 n)
    clear (good_bot a n) =
        inr (inl (rw a ((any_matches-Named p.good_bots_patterns (lowered req)).1 n)))
    clear (unremarkable n v m) = inr (
        inr (
          is_false _ (λ e. n ((any_matches-Named p.blacklist_patterns (lowered req)).0 e)),
          (not_both p.config.validate_browser_headers (is_likely_browser req)).1 v,
          is_false _ (λ e. m ((str_eq_iff p.config.mode "allow").0 e)),
        ))

-- the plugin with no settings
abbrev pub no_settings : Settings
no_settings = record {
  mode = none;
  blacklist = [];
  whitelist = [];
  block_empty_ua = none;
  use_default_blacklist = none;
  allow_good_bots = none;
  validate_browser_headers = none;
}

get_elem?-Memᴰ : (ps : List String) (i : ℕ) (p : String) → get_elem? ps i ≡ some p → Memᴰ p ps
get_elem?-Memᴰ [] i p e = cc
get_elem?-Memᴰ (x ∷ ps) zero p e = Memᴰ.head (sym (some_inj e))
get_elem?-Memᴰ (x ∷ ps) (suc i) p e = Memᴰ.tail (get_elem?-Memᴰ ps i p e)

blocks :
    (req : Request) (e g b v m : Bool)
    → g ≡ false
    → b ≡ true
    → decision req e false g b v m ≡ block_request
blocks req true g b v m hg hb = refl
blocks req false g b v m hg hb = rw hg (rw hb refl)

-- With no settings, the entry "ab" of the default list blocks every client that calls itself a
-- tablet, as browsers on tablets do, unless it has the name of a good bot.
pub execute-tablet :
    (req : Request)
    → contains_text (codes "tablet") (lowered req) ≡ true
    → any_matches default_good_bots (lowered req) ≡ false
    → execute (new_bot_protection_plugin no_settings) req ≡ block_request
unfolding execute new_bot_protection_plugin compile_patterns matches to_lower
execute-tablet req tablet good =
    let ab = contains_text_trans (codes "t") (codes "ab") (codes "let") (lowered req) tablet in
    blocks req (str_eq (get req "User-Agent") "" && false)
      (any_matches default_good_bots (lowered req))
      (any_matches default_malicious_bots (lowered req)) false false good
      ((any_matches_iff default_malicious_bots (lowered req)).1
        ("ab", get_elem?-Memᴰ default_malicious_bots 48 "ab" refl, ab))
