-- ===== src/Process/Quoting.antt =====
-- crates/supervisor/src/process.rs: how an argument is written into the command line of a Windows
-- process. A text is walked as the list of its characters.
pub mod Rules
pub mod Trip
mod Examples
use Prim.Native.Char.{Char, code}
use aiohub_plugin_dsh_worksp.Prelude.{
  ℕ, zero, suc, ◌+◌, ◌*◌, String, Bool, true, false, ◌&&◌, ◌||◌, not, List, [], ◌∷◌, ◌++◌, map, any,
  replicate, ◌==◌, leb, if◌then◌else◌,
}
use aiohub_plugin_dsh_worksp.Prelude.Text.{chars, of_chars}
use aiohub_plugin_dsh_worksp.Process.{SpawnSpec}

-- `char::is_whitespace`, Unicode's `White_Space`.
abbrev pub is_whitespace : ℕ → Bool
is_whitespace c =
    (leb 9 c && leb c 13)
    || c == 32
    || c == 0x85
    || c == 0xa0
    || c == 0x1680
    || (leb 0x2000 c && leb c 0x200a)
    || c == 0x2028
    || c == 0x2029
    || c == 0x202f
    || c == 0x205f
    || c == 0x3000

abbrev pub backslash : Char
backslash = "\\"

abbrev pub quote : Char
quote = "\""

abbrev pub space : Char
space = " "

-- The arms of the `match` on a character.
pub data Arm : Type 0 where
  on_backslash on_quote other : Arm

abbrev pub arm : Char → Arm
arm c =
    if code c == code backslash
    then on_backslash
    else if code c == code quote
    then on_quote
    else other

-- The loop with its count of pending backslashes, and what follows it.
unfoldable pub escape : ℕ → List Char → List Char
escape n [] = replicate (n * 2) backslash ++ quote ∷ []
escape n (c ∷ s) = elim (arm c) [
  | on_backslash ↦ escape (suc n) s
  | on_quote ↦ replicate (n * 2 + 1) backslash ++ quote ∷ escape 0 s
  | other ↦ replicate n backslash ++ c ∷ escape 0 s
]

abbrev pub needs_quotes : Char → Bool
needs_quotes c = is_whitespace (code c) || code c == code quote

unfoldable pub quote_chars : List Char → List Char
unfolding escape
quote_chars [] = quote ∷ quote ∷ []
quote_chars (c ∷ s) = if not (any needs_quotes (c ∷ s)) then c ∷ s else quote ∷ escape 0 (c ∷ s)

unfoldable pub quote_windows_argument : String → String
unfolding quote_chars
quote_windows_argument argument = of_chars (quote_chars (chars argument))

-- `join(" ")`.
unfoldable pub join_spaces : List (List Char) → List Char
join_spaces [] = []
join_spaces (s ∷ []) = s
join_spaces (s ∷ t ∷ ss) = s ++ space ∷ join_spaces (t ∷ ss)

unfoldable pub windows_command_line : SpawnSpec → String
unfolding quote_chars join_spaces
windows_command_line spec =
    of_chars (join_spaces (map (λ a. quote_chars (chars a)) (spec.program ∷ spec.args)))
