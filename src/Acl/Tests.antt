-- ===== src/Acl/Tests.antt =====
-- acl.go: the theorem at a concrete plugin.
use sushi_gateway.Prelude.{◌≡◌, ◌⊎◌, refl, none, some, [], ◌∷◌}
use sushi_gateway.Acl.{
  AclPlugin, text, array, served, denied, execute, validate, validate_lists, check_list, all_text,
}
use sushi_gateway.Acl.Decision.{Allows, execute-Allows}

abbrev office : AclPlugin
office = record {
  whitelist = some (array (text "10.0.0.7" ∷ text "10.0.0.8" ∷ []));
  blacklist = none;
}

execute-Allows_example :
    ((execute office (some "192.168.1.1") "10.0.0.8" ≡ some served)
      × Allows office.whitelist none "192.168.1.1" "10.0.0.8")
    ⊎ ((execute office (some "192.168.1.1") "10.0.0.8" ≡ some denied)
        × ¬ (Allows office.whitelist none "192.168.1.1" "10.0.0.8"))
unfolding validate validate_lists check_list all_text
execute-Allows_example = execute-Allows office "192.168.1.1" "10.0.0.8" refl
