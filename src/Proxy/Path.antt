-- ===== src/Proxy/Path.antt =====
-- sushi_proxy.go: the paths that HandleProxyPass computes. filepath.Clean is a parameter.
use sushi_gateway.Prelude.{
  ℕ, Bool, true, false, ◌&&◌, not, Option, none, some, List, [], ◌∷◌, ◌++◌, if◌then◌else◌, ◌==◌,
  map,
}
use sushi_gateway.Prelude.Text.{cut_prefix, starts_with_byte, ends_with_byte}
use sushi_gateway.Model.{Bytes, Route}

-- if !strings.HasPrefix(s, "/") { s = "/" + s }
unfoldable pub with_slash : Bytes → Bytes
with_slash s = if starts_with_byte 47 s then s else 47 ∷ s

-- strings.ReplaceAll(s, "\\", "/")
abbrev pub to_slash : ℕ → ℕ
to_slash b = if b == 92 then 47 else b

abbrev is_empty : Bytes → Bool
is_empty [] = true
is_empty (b ∷ s) = false

module _ (clean : Bytes → Bytes) where
  unfoldable pub normalize_path : Bytes → Bytes
  normalize_path path = map to_slash (with_slash (clean path))

  abbrev stripped_or : Option Bytes → Bytes → Bytes
  stripped_or none other = other
  stripped_or (some rest) other = normalize_path (with_slash rest)

  -- the deprecated single path
  unfoldable pub strip_single : Bytes → Bytes → Bytes
  strip_single path single =
      if is_empty single
      then normalize_path path
      else stripped_or (cut_prefix single path) (normalize_path path)

  unfoldable pub strip_paths : Bytes → List Bytes → Bytes → Bytes
  unfolding strip_single
  strip_paths path [] single = strip_single path single
  strip_paths path (p ∷ ps) single = stripped_or (cut_prefix p path) (strip_paths path ps single)

  unfoldable pub strip_matched_path : Bytes → Route → Bytes
  unfolding strip_paths
  strip_matched_path path route = strip_paths path route.paths route.path

unfoldable pub drop_base : Option Bytes → Bytes → Bytes
drop_base none path = path
drop_base (some rest) path = rest

-- the path that proxy.Director forces on the request
unfoldable pub director_path : Bytes → Bytes → Bytes
unfolding drop_base with_slash
director_path [] path = with_slash path
director_path (b ∷ base) path = with_slash (drop_base (cut_prefix (b ∷ base) path) path)

abbrev tail : Bytes → Bytes
tail [] = []
tail (b ∷ s) = s

unfoldable pub single_joining_slash : Bytes → Bytes → Bytes
single_joining_slash a b =
    if ends_with_byte 47 a && starts_with_byte 47 b
    then a ++ tail b
    else if not (ends_with_byte 47 a) && not (starts_with_byte 47 b)
    then a ++ 47 ∷ b
    else a ++ b
