-- ===== src/HeaderTransformation/Tests.antt =====
-- header_transformation.go: a header that is removed and replaced.
use mathlib.Core.List.{Memᴰ}
use sushi_gateway.Prelude.{◌≡◌, refl, false, none, some, [], ◌∷◌}
use sushi_gateway.Http.{Request}
use sushi_gateway.HeaderTransformation.{
  TextOps, HeaderTransformationPlugin, names, entries, execute, texts, text_entries,
}
use sushi_gateway.HeaderTransformation.Effect.{execute-removed}
use sushi_gateway.Samples.{request_with}

abbrev plain : TextOps
plain = record {
  canonical = λ n. n;
  split_rule = λ r. none;
  contains = λ s p. false;
  replace_all = λ s p q. s;
}

abbrev plugin : HeaderTransformationPlugin
plugin = record {
  remove = some (names (some "X-Debug" ∷ []));
  rename = none;
  replace = some (entries (("X-Debug", some "off") ∷ []));
  append = none;
  add = none;
}

abbrev debugged : Request
debugged = request_with "X-Debug" "on"

execute-removed_example : (execute plain plugin debugged).header "X-Debug" ≡ []
unfolding texts text_entries
execute-removed_example =
    execute-removed plain "X-Debug" plugin debugged "X-Debug" (Memᴰ.head refl) refl
      (λ p m. elim m [ ]) (λ p m. elim m [ ]) (λ p m. elim m [ ])
