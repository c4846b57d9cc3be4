-- ===== src/Paths.antt =====
-- `std::path` on texts, as the code uses it: names joined by `/`, the parent, and the extension.
use mathlib.Core.List.{reverse}
use Prim.Native.Char.{Char, code}
use aiohub_plugin_dsh_worksp.Prelude.{
  String, Option, none, some, List, [], ◌∷◌, ◌==◌, ◌≡◌, refl, if◌then◌else◌, unwrap_or,
}
use aiohub_plugin_dsh_worksp.Prelude.Text.{chars, of_chars, format}

-- The path with the `/` that a name needs before it: none after an empty path or another `/`.
abbrev pub separated : String → String
separated String.[] = String.[]
separated (String.◌∷◌ c String.[]) =
    if code c == b'/' then String.◌∷◌ c String.[] else String.◌∷◌ c "/"
separated (String.◌∷◌ c (String.◌∷◌ d s)) = String.◌∷◌ c (separated (String.◌∷◌ d s))

-- `Path::join` with a relative name.
abbrev pub join : String → String → String
join path name = format (separated path ∷ name ∷ [])

-- The path, last character first, from behind its last `/`.
up : List Char → Option (List Char)
up [] = none
up (c ∷ s) = let rest = up s in if code c == b'/' then some s else rest

unfoldable pub parent : String → Option String
unfolding up
parent path = elim (up (reverse (chars path))) [
  | none ↦ none
  | some s ↦ some (of_chars (reverse s))
]

-- The file name's stem, last character first: a leading `.` starts no extension.
stem : List Char → Option (List Char)
stem [] = none
stem (c ∷ []) = none
stem (c ∷ d ∷ s) =
    let rest = stem (d ∷ s) in
    if code c == b'/'
    then none
    else if code c == b'.'
    then (if code d == b'/' then none else some (d ∷ s))
    else rest

unfoldable pub with_extension : String → String → String
unfolding stem
with_extension path extension =
    let reversed = reverse (chars path) in
    format (of_chars (reverse (unwrap_or (stem reversed) reversed)) ∷ "." ∷ extension ∷ [])

join_tests :
    (join "/d" "data" ≡ "/d/data") × (join "/d/" "data" ≡ "/d/data") × (join "" "data" ≡ "data")
unfolding format
join_tests = (refl, refl, refl)

path_tests :
    (with_extension "/d/runtime/interrupted-turns.json" "json.tmp"
      ≡ "/d/runtime/interrupted-turns.json.tmp")
    × (with_extension "/d.x/name" "tmp" ≡ "/d.x/name.tmp")
    × (parent "/d/runtime/x.json" ≡ some "/d/runtime")
unfolding with_extension parent format
path_tests = (refl, refl, refl)
