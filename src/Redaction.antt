-- ===== src/Redaction.antt =====
-- crates/supervisor/src/supervisor.rs, `RedactionPolicy`: what is hidden before text is written out.
-- A text is walked as the list of its characters; the markers are ASCII, so a byte position of the
-- source that starts or ends a match is a position between characters.
pub mod Search
pub mod Keeps
pub mod Clean
pub mod Unchanged
pub mod Leak
pub mod Policy
mod Examples
use Prim.Native.Char.{Char, code}
use aiohub_plugin_dsh_worksp.Prelude.{
  ℕ, zero, suc, ◌+◌, String, Bool, true, false, ◌&&◌, ◌||◌, Option, none, some, List, [], ◌∷◌, ◌++◌,
  map, ◌==◌, leb, length, if◌then◌else◌,
}
use aiohub_plugin_dsh_worksp.Prelude.Text.{chars, of_chars}
use Search.{Pattern, split}

abbrev pub mark : List Char
mark = chars "[redacted]"

abbrev pub exactly : ℕ → ℕ
exactly c = c

-- `to_ascii_lowercase` on a code point.
abbrev pub to_lower : ℕ → ℕ
to_lower c = if leb b'A' c && leb c b'Z' then c + 32 else c

-- The end of a redacted value: ASCII white space, or one of `,` `;` `"` `'`.
abbrev pub is_terminator : ℕ → Bool
is_terminator c =
    c == 32
    || c == 9
    || c == 10
    || c == 12
    || c == 13
    || c == b','
    || c == b';'
    || c == 34
    || c == 39

unfoldable pub drop_value : List Char → List Char
drop_value [] = []
drop_value (c ∷ s) = let rest = drop_value s in if is_terminator (code c) then c ∷ s else rest

-- `str::replace` of a needle by the mark: each match from the left, with no overlap.
unfoldable pub replace : ℕ → Pattern → List Char → List Char
unfolding split
replace zero p s = s
replace (suc f) p s = elim (split p s) [
  | none ↦ s
  | some (before, after) ↦ before ++ (mark ++ replace f p after)
]

-- The inner `loop`: the first match of the marker and the value behind it become the mark, and the
-- search starts over.
unfoldable pub redact_marker : ℕ → Pattern → List Char → List Char
unfolding split drop_value
redact_marker zero p s = s
redact_marker (suc f) p s = elim (split p s) [
  | none ↦ s
  | some (before, after) ↦ redact_marker f p (before ++ (mark ++ drop_value after))
]

abbrev pub needle : String → Pattern
needle s = record { fold = exactly; letters = map code (chars s) }

abbrev pub marker : String → Pattern
marker s = record { fold = to_lower; letters = map code (chars s) }

abbrev pub needles : List Pattern
needles = needle "abc123" ∷ needle "top-secret" ∷ []

abbrev pub markers : List Pattern
markers =
    marker "api_key="
    ∷ marker "client_secret="
    ∷ marker "token="
    ∷ marker "password="
    ∷ marker "secret="
    ∷ marker "authorization="
    ∷ marker "bearer "
    ∷ []

unfoldable pub replace_all : List Pattern → List Char → List Char
replace_all [] s = s
replace_all (p ∷ ps) s = replace_all ps (replace (suc (length s)) p s)

unfoldable pub redact_markers : List Pattern → List Char → List Char
redact_markers [] s = s
redact_markers (p ∷ ps) s = redact_markers ps (redact_marker (suc (length s)) p s)

unfoldable pub redact_chars : List Char → List Char
redact_chars s = redact_markers markers (replace_all needles s)

unfoldable pub redact_text : String → String
redact_text text = of_chars (redact_chars (chars text))
