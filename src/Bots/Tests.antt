-- ===== src/Bots/Tests.antt =====
-- bot_protection.go: the theorems for two clients.
use sushi_gateway.Prelude.{◌≡◌, ◌↔◌, refl}
use sushi_gateway.Prelude.Text.{contains_text, cut_prefix}
use sushi_gateway.Http.{Request, passed}
use sushi_gateway.Bots.{
  BotProtectionPlugin, new_bot_protection_plugin, compile_patterns, execute, block_request,
  any_matches, matches, to_lower,
}
use sushi_gateway.Bots.Decision.{Reason, no_settings, execute_iff, execute-tablet}
use sushi_gateway.Samples.{request_with}

abbrev plugin : BotProtectionPlugin
plugin = new_bot_protection_plugin no_settings

abbrev reader : Request
reader = request_with "User-Agent" "Mozilla/5.0 Firefox/115.0"

execute_iff_example : (execute plugin reader ≡ passed reader) ↔ Reason plugin reader
unfolding new_bot_protection_plugin compile_patterns
execute_iff_example = execute_iff plugin reader refl

abbrev tablet : Request
tablet = request_with "User-Agent" "Mozilla/5.0 (Android 13; Tablet; rv:115.0) Firefox/115.0"

execute-tablet_example : execute (new_bot_protection_plugin no_settings) tablet ≡ block_request
unfolding contains_text cut_prefix any_matches matches to_lower
execute-tablet_example = execute-tablet tablet refl refl
