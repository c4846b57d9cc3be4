-- ===== src/Generate/Names.antt =====
-- crates/protocol/src/generate.rs: names, lists and parts of a schema in the TypeScript types.
use Prim.Native.Char.{Char, code}
use aiohub_plugin_dsh_worksp.Prelude.{
  ℕ, String, Bool, false, ◌&&◌, ◌||◌, Option, none, some, List, [], ◌∷◌, map, replicate, Result, ok,
  ◌>>=◌, ◌==◌, leb, all, if◌then◌else◌,
}
use aiohub_plugin_dsh_worksp.Prelude.Text.{chars, of_chars, format, contains}
use aiohub_plugin_dsh_worksp.Json.{Json, Items, Members, str, arr, obj, nil, cons, end}

abbrev pub space : Char
space = " "

abbrev pub underscore : Char
underscore = "_"

unfoldable pub between : ℕ → ℕ → Char → Bool
between low high c = leb low (code c) && leb (code c) high

unfoldable pub is_letter : Char → Bool
unfolding between
is_letter c = between 65 90 c || between 97 122 c

-- ASCII letters, digits and `_`.
unfoldable pub is_word : Char → Bool
unfolding is_letter
is_word c = is_letter c || between 48 57 c || code c == 95

unfoldable pub type_name : String → String
unfolding is_word
type_name value = of_chars (map (λ c. if is_word c then c else underscore) (chars value))

unfoldable pub is_identifier : List Char → Bool
unfolding is_word
is_identifier [] = false
is_identifier (first ∷ characters) = (is_letter first || code first == 95) && all is_word characters

unfoldable pub strip_prefix : String → String → Option String
strip_prefix String.[] text = some text
strip_prefix (String.◌∷◌ c prefix) String.[] = none
strip_prefix (String.◌∷◌ c prefix) (String.◌∷◌ d text) =
    if code c == code d then strip_prefix prefix text else none

unfoldable pub join : String → List String → String
join separator [] = ""
join separator (s ∷ []) = s
join separator (s ∷ t ∷ ss) = format (s ∷ separator ∷ join separator (t ∷ ss) ∷ [])

unfoldable pub joined : String → List String → String
unfolding join
joined separator [] = "never"
joined separator (v ∷ values) = join separator (v ∷ values)

-- `collect` into a `Result`: the first error, or all the values.
unfoldable pub collect_results : List (Result String String) → Result String (List String)
collect_results [] = ok []
collect_results (r ∷ rs) = r >>= λ v. collect_results rs >>= λ vs. ok (v ∷ vs)

unfoldable pub join_schema_types : List (Result String String) → String → Result String String
unfolding joined collect_results
join_schema_types types separator = collect_results types >>= λ values. ok (joined separator values)

unfoldable pub parenthesize_composite : String → String
parenthesize_composite value =
    if contains "\n" value || contains " | " value || contains " & " value
    then format ("(" ∷ value ∷ ")" ∷ [])
    else value

unfoldable pub spaces : ℕ → String
spaces n = of_chars (replicate n space)

-- `as_array` and `as_object`, on what may be missing.
abbrev pub as_array : Option Json → Option Items
as_array (some (arr vs)) = some vs
as_array _ = none

abbrev pub as_object : Option Json → Members
as_object (some (obj ms)) = ms
as_object _ = end

abbrev pub strings : Items → List String
strings nil = []
strings (cons (str s) vs) = s ∷ strings vs
strings (cons _ vs) = strings vs

unfoldable pub required_names : Option Items → List String
required_names none = []
required_names (some vs) = strings vs

abbrev pub as_text : Option Json → Option String
as_text (some (str s)) = some s
as_text _ = none
