-- ===== src/Bots.antt =====
-- bot_protection.go. A pattern is quoted and matched without case, so it matches where it stands in
-- the text; the letters are those of ASCII.
pub mod Patterns
pub mod Decision
mod Tests
use sushi_gateway.Prelude.{
  ℕ, String, ◌+◌, Bool, true, false, not, ◌&&◌, ◌||◌, Option, none, some, List, [], ◌∷◌, ◌++◌, map,
  if◌then◌else◌, str_eq, ltb, leb,
}
use sushi_gateway.Prelude.Dict.{or_default}
use sushi_gateway.Prelude.Text.{codes, contains_text}
use sushi_gateway.Model.{Bytes}
use sushi_gateway.Http.{Request, HttpError, Outcome, refused, passed, get}

abbrev lower : ℕ → ℕ
lower b = if leb b'A' b && leb b b'Z' then b + 32 else b

-- strings.ToLower
unfoldable pub to_lower : Bytes → Bytes
to_lower [] = []
to_lower (b ∷ s) = lower b ∷ to_lower s

-- MatchString of the pattern that compilePatterns builds of a text, on a text in lower case
unfoldable pub matches : String → Bytes → Bool
unfolding to_lower
matches pattern s = contains_text (to_lower (codes pattern)) s

abbrev pub default_malicious_bots : List String
default_malicious_bots =
    "sqlmap" ∷ "nikto" ∷ "nessus" ∷ "openvas" ∷ "acunetix" ∷ "netsparker" ∷ "burpsuite" ∷ "owasp"
    ∷ "skipfish" ∷ "wpscan" ∷ "nuclei" ∷ "gobuster" ∷ "dirbuster" ∷ "sqlninja" ∷ "havij"
    ∷ "pangolin" ∷ "nmap" ∷ "scrapy" ∷ "python-requests" ∷ "python-urllib" ∷ "curl" ∷ "wget"
    ∷ "httpclient" ∷ "java" ∷ "libwww" ∷ "lwp" ∷ "mechanize" ∷ "phantom" ∷ "selenium" ∷ "headless"
    ∷ "puppeteer" ∷ "playwright" ∷ "ahrefsbot" ∷ "semrushbot" ∷ "dotbot" ∷ "rogerbot" ∷ "exabot"
    ∷ "mj12bot" ∷ "blexbot" ∷ "linkdexbot" ∷ "megaindex" ∷ "majestic" ∷ "seokicks" ∷ "siteexplorer"
    ∷ "aspiegelbot" ∷ "backlinkcrawler" ∷ "slowloris" ∷ "siege" ∷ "ab" ∷ "wrk" ∷ "vegeta" ∷ "locust"
    ∷ "jmeter" ∷ "loadrunner" ∷ "gatling" ∷ "artillery" ∷ "k6" ∷ "hey" ∷ []

abbrev pub default_good_bots : List String
default_good_bots =
    "googlebot" ∷ "bingbot" ∷ "slurp" ∷ "duckduckbot" ∷ "baiduspider" ∷ "yandexbot"
    ∷ "facebookexternalhit" ∷ "twitterbot" ∷ "linkedinbot" ∷ "whatsapp" ∷ "telegrambot"
    ∷ "discordbot" ∷ "slackbot" ∷ "applebot" ∷ "pinterest" ∷ "uptimerobot" ∷ "pingdom"
    ∷ "statuscake" ∷ []

pub record BotProtectionConfig : Type 0 where
  pub mode : String
  pub blacklist : List String
  pub whitelist : List String
  pub block_empty_ua : Bool
  pub use_default_blacklist : Bool
  pub allow_good_bots : Bool
  pub validate_browser_headers : Bool

-- the values of a plugin's config; a list has its texts
pub record Settings : Type 0 where
  pub mode : Option String
  pub blacklist : List String
  pub whitelist : List String
  pub block_empty_ua : Option Bool
  pub use_default_blacklist : Option Bool
  pub allow_good_bots : Option Bool
  pub validate_browser_headers : Option Bool

pub record BotProtectionPlugin : Type 0 where
  pub config : BotProtectionConfig
  pub blacklist_patterns : List String
  pub whitelist_patterns : List String
  pub good_bots_patterns : List String

abbrev parsed : Settings → BotProtectionConfig
parsed s = record {
  mode = or_default s.mode "block";
  blacklist = s.blacklist;
  whitelist = s.whitelist;
  block_empty_ua = or_default s.block_empty_ua false;
  use_default_blacklist = or_default s.use_default_blacklist true;
  allow_good_bots = or_default s.allow_good_bots true;
  validate_browser_headers = or_default s.validate_browser_headers false;
}

-- compilePatterns: a quoted text always compiles
unfoldable pub compile_patterns : BotProtectionConfig → BotProtectionPlugin
compile_patterns c = record {
  config = c;
  blacklist_patterns =
      (if c.use_default_blacklist then default_malicious_bots else []) ++ c.blacklist;
  whitelist_patterns = c.whitelist;
  good_bots_patterns = if c.allow_good_bots then default_good_bots else [];
}

-- NewBotProtectionPlugin
unfoldable pub new_bot_protection_plugin : Settings → BotProtectionPlugin
unfolding compile_patterns
new_bot_protection_plugin s = compile_patterns (parsed s)

abbrev is_empty : List String → Bool
is_empty [] = true
is_empty (s ∷ ss) = false

-- Validate
unfoldable pub is_valid : BotProtectionConfig → Bool
is_valid c =
    if not (str_eq c.mode "block") && not (str_eq c.mode "allow")
    then false
    else if str_eq c.mode "allow" && is_empty c.whitelist
    then false
    else if str_eq c.mode "block"
        && not c.use_default_blacklist
        && is_empty c.blacklist
        && not c.block_empty_ua
    then false
    else true

-- a loop over patterns that ends at the first that matches
unfoldable pub any_matches : List String → Bytes → Bool
unfolding matches
any_matches [] s = false
any_matches (p ∷ ps) s = if matches p s then true else any_matches ps s

abbrev one_if : Bool → ℕ
one_if true = 1
one_if false = 0

-- isLikelyBrowser
unfoldable pub is_likely_browser : Request → Bool
is_likely_browser req = leb 2 (
    one_if (not (str_eq (get req "Accept") ""))
    + one_if (not (str_eq (get req "Accept-Language") ""))
    + one_if (not (str_eq (get req "Accept-Encoding") "")))

-- blockRequest
abbrev pub block_request : Outcome
block_request = refused [] (record { http_code = 403; code = "BOT_DETECTED" })

-- Execute
unfoldable pub execute : BotProtectionPlugin → Request → Outcome
unfolding any_matches to_lower
execute p req =
    let user_agent = get req "User-Agent" in
    let s = to_lower (codes user_agent) in
    if str_eq user_agent "" && p.config.block_empty_ua
    then block_request
    else if any_matches p.whitelist_patterns s
    then passed req
    else if p.config.allow_good_bots && any_matches p.good_bots_patterns s
    then passed req
    else if any_matches p.blacklist_patterns s
    then block_request
    else if p.config.validate_browser_headers && not (is_likely_browser req)
    then block_request
    else if str_eq p.config.mode "allow"
    then block_request
    else passed req
