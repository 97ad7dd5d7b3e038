-- ===== src/Prelude/Dict.antt =====
-- A Go map or `sync.Map` keyed by strings, as the function that a read of it computes.
use Prim.Native.String.{String}
use mathlib.Core.Path.{◌≡◌}
use mathlib.Core.Option.{Option, none, some}
use mathlib.Core.Logic.{◌≢◌}
use native.Mathlib.Omega.{arith}
use text.Mathlib.Text.{◌==◌ as str_eq}
use text.Mathlib.TextEquality.{eq_iff}
use text.Mathlib.TextPositions.{eq_refl}
use sushi_gateway.Prelude.Tests.{if◌then◌else◌}

abbrev pub Dict {ℓ} : Type ℓ → Type ℓ
Dict V = String → Option V

module _ {ℓ} {V : Type ℓ} where
  abbrev pub empty : Dict V
  empty _ = none

  abbrev pub put : String → V → Dict V → Dict V
  put k v d j = if str_eq j k then some v else d j

  abbrev pub or_default : Option V → V → V
  or_default none d = d
  or_default (some v) d = v

  pub get-put_self : (k : String) (v : V) (d : Dict V) → put k v d k ≡ some v
  get-put_self k v d = rw (eq_refl k)

  pub get-put_ne : (k j : String) (v : V) (d : Dict V) → j ≢ k → put k v d j ≡ d j
  get-put_ne k j v d h = ground (arith, eq_iff j k)
