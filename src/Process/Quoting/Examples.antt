-- ===== src/Process/Quoting/Examples.antt =====
-- The theorem and the quoting at arguments with spaces, quotes and backslashes.
use Prim.Native.Char.{Char}
use aiohub_plugin_dsh_worksp.Prelude.{none, List, [], ◌∷◌, ◌++◌, map, ◌≡◌, refl}
use aiohub_plugin_dsh_worksp.Prelude.Text.{chars}
use aiohub_plugin_dsh_worksp.Process.{SpawnSpec}
use aiohub_plugin_dsh_worksp.Process.Quoting.{quote_chars, windows_command_line, escape}
use aiohub_plugin_dsh_worksp.Process.Quoting.Rules.{parse, argument}
use aiohub_plugin_dsh_worksp.Process.Quoting.Trip.{command_line_parses}

abbrev spec : SpawnSpec
spec = record { program = "dsh.exe"; args = "a b\\" ∷ "say \"hi\"" ∷ "" ∷ []; current_dir = none }

command_line_parses_example :
    (rest : List Char) × ((chars (windows_command_line spec)
        ≡ quote_chars (chars spec.program) ++ rest)
      × (parse rest ≡ map chars spec.args))
command_line_parses_example = command_line_parses spec

command_line : windows_command_line spec ≡ "dsh.exe \"a b\\\\\" \"say \\\"hi\\\"\" \"\""
unfolding windows_command_line escape
command_line = refl

-- A doubled quote in a quoted part is one quote.
doubled : parse (chars "\"a\"\"b\" c") ≡ chars "a\"b" ∷ chars "c" ∷ []
unfolding parse argument
doubled = refl
