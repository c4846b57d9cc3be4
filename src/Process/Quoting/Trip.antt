-- ===== src/Process/Quoting/Trip.antt =====
-- A Windows command line is divided into the arguments that it was written from.
use Prim.Native.Char.{Char, code}
use mathlib.Core.List.{append_assoc, append-nil}
use text.Mathlib.TextEquality.{codes_equal}
use aiohub_plugin_dsh_worksp.Prelude.{
  ℕ, zero, suc, ◌+◌, ◌*◌, ◌/◌, ◌%◌, ◌<◌, ◌≤◌, String, Bool, true, false, not, ◌&&◌, List, [], ◌∷◌,
  ◌++◌, map, any, replicate, length, length-append, ◌==◌, ◌≡◌, refl, ap, sym, ◌∙◌, ◌⊎◌, inl, inr,
  subst, arith, Bool-cases, if-cases,
}
use aiohub_plugin_dsh_worksp.Prelude.Text.{chars, chars-of_chars}
use aiohub_plugin_dsh_worksp.Process.{SpawnSpec}
use aiohub_plugin_dsh_worksp.Process.Quoting.{
  backslash, quote, space, arm, other, escape, needs_quotes, quote_chars, join_spaces,
  windows_command_line,
}
use aiohub_plugin_dsh_worksp.Process.Quoting.Rules.{
  Mode, outside, within, closed, past, put, divides, argument, skip, arguments, parse,
}

-- The end of the line, or a space.
abbrev Divided : List Char → Type 0
Divided [] = Unit
Divided (c ∷ r) = c ≡ space

same_char : (c d : Char) → (code c == code d) ≡ true → c ≡ d
same_char c d h = codes_equal c d (ground arith)

arm_cases : (c : Char) → (c ≡ backslash) ⊎ ((c ≡ quote) ⊎ (arm c ≡ other))
arm_cases c = elim (Bool-cases (code c == code backslash)) [
  | inl h ↦ inl (same_char c backslash h)
  | inr h ↦ elim (Bool-cases (code c == code quote)) [
    | inl k ↦ inr (inl (same_char c quote k))
    | inr k ↦ inr (inr (rw (h, k) refl))
  ]
]

backslashes :
    (mode : Mode) (j k : ℕ) (t : List Char)
    → past mode ≡ mode
    → argument mode k (replicate j backslash ++ t) ≡ argument mode (k + j) t
unfolding argument
backslashes mode zero k t h = ap (λ i. argument mode i t) (omega arith)
backslashes mode (suc j) k t h =
    ap (λ m. argument m (suc k) (replicate j backslash ++ t)) h
    ∙ backslashes mode j (suc k) t h
    ∙ ap (λ i. argument mode i t) (omega arith)

run : (j : ℕ) (t : List Char) → argument within 0 (replicate j backslash ++ t) ≡ argument within j t
run j t = backslashes within j 0 t refl ∙ ap (λ i. argument within i t) (omega arith)

-- An argument ends where the line is divided.
ends :
    (mode : Mode) (n : ℕ) (r : List Char)
    → mode ≡ outside ⊎ mode ≡ closed
    → Divided r
    → argument mode n r ≡ (replicate n backslash, r)
unfolding argument
ends mode n [] h d = refl
ends mode n (c ∷ r) (inl h) d = rw (d, h) refl
ends mode n (c ∷ r) (inr h) d = rw (d, h) refl

and_false : (b : Bool) → (b && false) ≡ false
and_false true = refl
and_false false = refl

even : (n : ℕ) → n * 2 % 2 ≡ 0
even n = omega arith

even_half : (n : ℕ) → n * 2 / 2 ≡ n
even_half n = omega arith

odd : (n : ℕ) → (n * 2 + 1) % 2 ≡ 1
odd n = omega arith

odd_half : (n : ℕ) → (n * 2 + 1) / 2 ≡ n
odd_half n = omega arith

-- What follows an even number of backslashes and a quote, or an odd one.
closing :
    (n : ℕ) (t : List Char)
    → argument within (n * 2) (quote ∷ t) ≡ put (replicate n backslash) (argument closed 0 t)
unfolding argument
closing n t = rw (argument, even n, even_half n) refl

literal :
    (n : ℕ) (t : List Char)
    → argument within (n * 2 + 1) (quote ∷ t)
      ≡ put (replicate n backslash ++ quote ∷ []) (argument within 0 t)
unfolding argument
literal n t = rw (argument, odd n, odd_half n) refl

passes_within :
    (n : ℕ) (c : Char) (t : List Char)
    → arm c ≡ other
    → argument within n (c ∷ t) ≡ put (replicate n backslash ++ c ∷ []) (argument within 0 t)
unfolding argument
passes_within n c t h = rw (argument, h, and_false (divides c)) refl

passes_outside :
    (n : ℕ) (c : Char) (t : List Char)
    → arm c ≡ other
    → divides c ≡ false
    → argument outside n (c ∷ t) ≡ put (replicate n backslash ++ c ∷ []) (argument outside 0 t)
unfolding argument
passes_outside n c t h free = rw (argument, h, free) refl

escape-other :
    (n : ℕ) (c : Char) (s : List Char)
    → arm c ≡ other
    → escape n (c ∷ s) ≡ replicate n backslash ++ c ∷ escape 0 s
unfolding escape
escape-other n c s h = rw (escape, h) refl

shift : (n : ℕ) (c : Char) (s : List Char) → replicate (suc n) c ++ s ≡ replicate n c ++ c ∷ s
shift zero c s = refl
shift (suc n) c s = ap (λ t. c ∷ t) (shift n c s)

-- What the loop writes for the rest of an argument, and the quote at its end, are read as the
-- pending backslashes and that rest.
abbrev Read : ℕ → List Char → List Char → Type 0
Read n s r = argument within 0 (escape n s ++ r) ≡ (replicate n backslash ++ s, r)

escaped : (n : ℕ) (s r : List Char) → Divided r → Read n s r
unfolding escape
escaped n [] r d =
    ap (argument within 0) (append_assoc (replicate (n * 2) backslash) (quote ∷ []) r)
    ∙ run (n * 2) (quote ∷ r)
    ∙ closing n r
    ∙ ap (put (replicate n backslash)) (ends closed 0 r (inr refl) d)
escaped n (c ∷ s) r d = go (arm_cases c) (escaped (suc n) s r d) (escaped 0 s r d)
  where
    go :
        (c ≡ backslash) ⊎ ((c ≡ quote) ⊎ (arm c ≡ other))
        → Read (suc n) s r
        → Read 0 s r
        → Read n (c ∷ s) r
    go (inl is) next rest =
        subst (λ b. Read n (b ∷ s) r) (sym is) (next ∙ ap (λ t. (t, r)) (shift n backslash s))
    go (inr (inl is)) next rest =
        subst (λ b. Read n (b ∷ s) r) (sym is)
          (ap (argument within 0)
              (append_assoc (replicate (n * 2 + 1) backslash) (quote ∷ escape 0 s) r)
            ∙ run (n * 2 + 1) (quote ∷ (escape 0 s ++ r))
            ∙ literal n (escape 0 s ++ r)
            ∙ ap (put (replicate n backslash ++ quote ∷ [])) rest
            ∙ ap (λ t. (t, r)) (append_assoc (replicate n backslash) (quote ∷ []) s))
    go (inr (inr plain)) next rest =
        ap (λ t. argument within 0 (t ++ r)) (escape-other n c s plain)
        ∙ ap (argument within 0) (append_assoc (replicate n backslash) (c ∷ escape 0 s) r)
        ∙ run n (c ∷ (escape 0 s ++ r))
        ∙ passes_within n c (escape 0 s ++ r) plain
        ∙ ap (put (replicate n backslash ++ c ∷ [])) rest
        ∙ ap (λ t. (t, r)) (append_assoc (replicate n backslash) (c ∷ []) s)

-- A character that needs no quotes is not one, and divides nothing.
harmless : (c : Char) → needs_quotes c ≡ false → (divides c ≡ false) × ((code c == 34) ≡ false)
harmless c h = ground arith

unquoted :
    (n : ℕ) (s r : List Char)
    → any needs_quotes s ≡ false
    → Divided r
    → argument outside n (s ++ r) ≡ (replicate n backslash ++ s, r)
unfolding argument
unquoted n [] r h d =
    ends outside n r (inl refl) d ∙ ap (λ t. (t, r)) (sym (append-nil (replicate n backslash)))
unquoted n (c ∷ s) r h d =
    go (arm_cases c) (harmless c (ground arith)) (unquoted (suc n) s r (ground arith) d)
      (unquoted 0 s r (ground arith) d)
  where
    go :
        (c ≡ backslash) ⊎ ((c ≡ quote) ⊎ (arm c ≡ other))
        → (divides c ≡ false) × ((code c == 34) ≡ false)
        → argument outside (suc n) (s ++ r) ≡ (replicate (suc n) backslash ++ s, r)
        → argument outside 0 (s ++ r) ≡ (replicate 0 backslash ++ s, r)
        → argument outside n (c ∷ (s ++ r)) ≡ (replicate n backslash ++ c ∷ s, r)
    go (inl is) free next rest =
        subst (λ b. argument outside n (b ∷ (s ++ r)) ≡ (replicate n backslash ++ b ∷ s, r))
          (sym is) (next ∙ ap (λ t. (t, r)) (shift n backslash s))
    go (inr (inl is)) free next rest =
        absurd (ground (arith, sym (ap (λ b. code b == 34) is) ∙ free.1))
    go (inr (inr plain)) free next rest =
        passes_outside n c (s ++ r) plain free.0
        ∙ ap (put (replicate n backslash ++ c ∷ [])) rest
        ∙ ap (λ t. (t, r)) (append_assoc (replicate n backslash) (c ∷ []) s)

-- An argument is read as it was written.
quoted : (a r : List Char) → Divided r → argument outside 0 (quote_chars a ++ r) ≡ (a, r)
unfolding quote_chars argument
quoted [] r d = ap (put []) (ap (put []) (ends closed 0 r (inr refl) d))
quoted (c ∷ s) r d =
    if-cases (λ t. argument outside 0 (t ++ r) ≡ (c ∷ s, r)) (not (any needs_quotes (c ∷ s))) _ _
      (λ h. unquoted 0 (c ∷ s) r (ground arith) d) (λ h. ap (put []) (escaped 0 (c ∷ s) r d))

-- It starts with a character that divides nothing.
abbrev Starts : List Char → Type 0
Starts [] = ⊥
Starts (c ∷ t) = divides c ≡ false

quote_chars-Starts : (a : List Char) → Starts (quote_chars a)
unfolding quote_chars
quote_chars-Starts [] = refl
quote_chars-Starts (c ∷ s) =
    if-cases Starts (not (any needs_quotes (c ∷ s))) _ _ (λ h. (harmless c (ground arith)).0)
      (λ h. refl)

-- The arguments behind the program.
tail : List String → List Char
tail [] = []
tail (a ∷ args) = space ∷ (quote_chars (chars a) ++ tail args)

tail-Divided : (args : List String) → Divided (tail args)
unfolding tail
tail-Divided [] = tt
tail-Divided (a ∷ args) = refl

skipped : (c : Char) (t : List Char) → divides c ≡ false → skip (space ∷ c ∷ t) ≡ c ∷ t
unfolding skip
skipped c t h = rw (skip, h) refl

next :
    (fuel : ℕ) (q a r : List Char)
    → Starts q
    → argument outside 0 (q ++ r) ≡ (a, r)
    → arguments (suc fuel) (space ∷ (q ++ r)) ≡ a ∷ arguments fuel r
unfolding arguments
next fuel [] a r h e = absurd h
next fuel (c ∷ t) a r h e = rw (arguments, skipped c (t ++ r) h, e) refl

arguments-tail :
    (fuel : ℕ) (args : List String)
    → length args < fuel
    → arguments fuel (tail args) ≡ map chars args
unfolding tail arguments skip
arguments-tail zero args h = absurd (omega arith)
arguments-tail (suc fuel) [] h = refl
arguments-tail (suc fuel) (a ∷ args) h =
    next fuel (quote_chars (chars a)) (chars a) (tail args) (quote_chars-Starts (chars a))
      (quoted (chars a) (tail args) (tail-Divided args))
    ∙ ap (λ (others : List (List Char)). chars a ∷ others) (arguments-tail fuel args (omega arith))

length-tail : (args : List String) → length args ≤ length (tail args)
unfolding tail
length-tail [] = omega arith
length-tail (a ∷ args) =
    omega (arith, length-append (quote_chars (chars a)) (tail args), length-tail args)

joined :
    (p : String) (args : List String)
    → join_spaces (map (λ a. quote_chars (chars a)) (p ∷ args)) ≡ quote_chars (chars p) ++ tail args
unfolding join_spaces tail
joined p [] = sym (append-nil (quote_chars (chars p)))
joined p (a ∷ args) = ap (λ t. quote_chars (chars p) ++ space ∷ t) (joined a args)

-- The command line is the program, written as an argument, and behind it a text that the rules of
-- the C runtime divide into exactly the arguments that were given, whatever they hold.
pub command_line_parses :
    (spec : SpawnSpec)
    → (rest : List Char) × ((chars (windows_command_line spec)
          ≡ quote_chars (chars spec.program) ++ rest)
        × (parse rest ≡ map chars spec.args))
unfolding windows_command_line parse
command_line_parses spec = (
  tail spec.args,
  (
    chars-of_chars _ ∙ joined spec.program spec.args,
    arguments-tail (suc (length (tail spec.args))) spec.args (omega (arith, length-tail spec.args)),
  ),
)
