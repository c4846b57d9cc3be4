-- ===== src/Redaction/Unchanged.antt =====
-- What redaction leaves alone.
use Prim.Native.Char.{Char}
use aiohub_plugin_dsh_worksp.Prelude.{String, false, List, [], ◌∷◌, ◌≡◌, refl, All}
use aiohub_plugin_dsh_worksp.Prelude.Text.{chars, of_chars}
use aiohub_plugin_dsh_worksp.Redaction.Search.{Pattern, occurs, none-split}
use aiohub_plugin_dsh_worksp.Redaction.Clean.{redact_text-clean}
use aiohub_plugin_dsh_worksp.Redaction.{
  replace, redact_marker, needles, markers, replace_all, redact_markers, redact_chars, redact_text,
}

-- No needle and no marker occurs.
abbrev pub IsClean : List Char → Type 0
IsClean s = All (λ p. occurs p s ≡ false) needles × All (λ p. occurs p s ≡ false) markers

pub replace_all-id :
    (ps : List Pattern) (s : List Char) → All (λ p. occurs p s ≡ false) ps → replace_all ps s ≡ s
unfolding replace_all replace
replace_all-id [] s h = refl
replace_all-id (p ∷ ps) s h = rw (none-split p s h.0, replace) (replace_all-id ps s h.1)

redact_markers-id :
    (ps : List Pattern) (s : List Char) → All (λ p. occurs p s ≡ false) ps → redact_markers ps s ≡ s
unfolding redact_markers redact_marker
redact_markers-id [] s h = refl
redact_markers-id (p ∷ ps) s h = rw (none-split p s h.0, redact_marker) (redact_markers-id ps s h.1)

pub redact_chars-id : (s : List Char) → IsClean s → redact_chars s ≡ s
unfolding redact_chars
redact_chars-id s h = rw (replace_all-id needles s h.0) (redact_markers-id markers s h.1)

of_chars-chars : (s : String) → of_chars (chars s) ≡ s
of_chars-chars String.[] = refl
of_chars-chars (String.◌∷◌ c s) = rw (of_chars-chars s)

-- A text in which no needle and no marker occurs is left as it is.
pub redact_text-id : (text : String) → IsClean (chars text) → redact_text text ≡ text
unfolding redact_text
redact_text-id text h = rw (redact_chars-id (chars text) h) (of_chars-chars text)

-- Redacting twice is redacting once.
redact_text_idem : (text : String) → redact_text (redact_text text) ≡ redact_text text
redact_text_idem text = redact_text-id (redact_text text) (redact_text-clean text)
