-- ===== src/Process/Quoting/Rules.antt =====
-- How the C runtime of Windows divides the arguments of a command line after the program, as its
-- documentation says. It is written from those rules, not from the code.
--   * Spaces and tabs divide arguments, outside quotes.
--   * A quote opens or closes a quoted part; right after it is closed, one more quote is a quote of
--     the argument, and the quoted part goes on.
--   * 2n backslashes before a quote are n backslashes, 2n + 1 are n backslashes and the quote itself;
--     other backslashes stand for themselves.
use Prim.Native.Char.{Char, code}
use aiohub_plugin_dsh_worksp.Prelude.{
  ℕ, zero, suc, ◌/◌, ◌%◌, Bool, true, false, not, ◌&&◌, ◌||◌, List, [], ◌∷◌, ◌++◌, replicate,
  length, ◌==◌, if◌then◌else◌,
}
use aiohub_plugin_dsh_worksp.Process.Quoting.{backslash, quote, arm, on_backslash, on_quote, other}

abbrev pub divides : Char → Bool
divides c = code c == 32 || code c == 9

-- Outside quotes, within them, or right behind a quote that closed them.
pub data Mode : Type 0 where
  outside within closed : Mode

-- A character other than a quote ends the place right behind one.
abbrev pub past : Mode → Mode
past outside = outside
past within = within
past closed = outside

abbrev pub is_within : Mode → Bool
is_within outside = false
is_within within = true
is_within closed = false

abbrev pub put : List Char → List Char × List Char → List Char × List Char
put s (argument, rest) = (s ++ argument, rest)

-- The argument that is begun, with backslashes that wait for what follows; and what stands behind it.
unfoldable pub argument : Mode → ℕ → List Char → List Char × List Char
argument mode n [] = (replicate n backslash, [])
argument mode n (c ∷ s) = elim (arm c) [
  | on_backslash ↦ argument (past mode) (suc n) s
  | on_quote ↦ elim (n % 2 == 1) [
    | true ↦ put (replicate (n / 2) backslash ++ quote ∷ []) (argument mode 0 s)
    | false ↦ elim mode [
      | outside ↦ put (replicate (n / 2) backslash) (argument within 0 s)
      | within ↦ put (replicate (n / 2) backslash) (argument closed 0 s)
      | closed ↦ put (quote ∷ []) (argument within 0 s)
    ]
  ]
  | other ↦ elim (divides c && not (is_within mode)) [
    | true ↦ (replicate n backslash, c ∷ s)
    | false ↦ put (replicate n backslash ++ c ∷ []) (argument (past mode) 0 s)
  ]
]

-- The first character of an argument, if there is one more.
unfoldable pub skip : List Char → List Char
skip [] = []
skip (c ∷ s) = let rest = skip s in if divides c then rest else c ∷ s

unfoldable pub arguments : ℕ → List Char → List (List Char)
unfolding argument skip
arguments zero s = []
arguments (suc fuel) s = elim (skip s) [
  | [] ↦ []
  | c ∷ t ↦ let (first, rest) = argument outside 0 (c ∷ t) in first ∷ arguments fuel rest
]

-- Each argument takes at least one character.
unfoldable pub parse : List Char → List (List Char)
unfolding arguments
parse s = arguments (suc (length s)) s
