-- ===== src/Redaction/Clean.antt =====
-- What redaction leaves: no needle and no marker, for every text. The inner loop ends by itself,
-- within the fuel that it is given.
use Prim.Native.Char.{Char, code}
use aiohub_plugin_dsh_worksp.Prelude.{
  ℕ, zero, suc, ◌+◌, ◌≤◌, ◌<◌, String, true, false, some, List, [], ◌∷◌, ◌++◌, map, ◌==◌, ◌≡◌, ◌≢◌,
  refl, ap, arith, any, All, length, Option-cases, inl, inr, if◌then◌else◌,
}
use aiohub_plugin_dsh_worksp.Prelude.Text.{chars, chars-of_chars}
use aiohub_plugin_dsh_worksp.Redaction.Search.{
  Pattern, split, occurs, avoids, split-none, split-inv,
}
use aiohub_plugin_dsh_worksp.Redaction.Keeps.{
  IsSafe, drop_value-inv, replace-keeps, replace-clean, redact_marker-keeps,
}
use aiohub_plugin_dsh_worksp.Redaction.{
  mark, drop_value, redact_marker, needles, markers, replace_all, redact_markers, redact_chars,
  redact_text,
}

-- How many characters of the text fit one letter.
pub hits : (ℕ → ℕ) → ℕ → List Char → ℕ
hits fold key [] = 0
hits fold key (c ∷ s) = (if fold (code c) == key then 1 else 0) + hits fold key s

hits-append :
    (fold : ℕ → ℕ) (key : ℕ) (a b : List Char)
    → hits fold key (a ++ b) ≡ hits fold key a + hits fold key b
unfolding hits
hits-append fold key [] b = omega arith
hits-append fold key (c ∷ a) b = omega (arith, hits-append fold key a b)

hits-le-length : (fold : ℕ → ℕ) (key : ℕ) (s : List Char) → hits fold key s ≤ length s
unfolding hits
hits-le-length fold key [] = omega arith
hits-le-length fold key (c ∷ s) = ground (arith, hits-le-length fold key s)

hits_spelled :
    (fold : ℕ → ℕ) (key : ℕ) (m : List Char) (ls : List ℕ)
    → map (λ c. fold (code c)) m ≡ ls
    → any (λ l. l == key) ls ≡ true
    → 0 < hits fold key m
unfolding hits
hits_spelled fold key [] ls e h = ground arith
hits_spelled fold key (c ∷ m) [] e h = cc
hits_spelled fold key (c ∷ m) (l ∷ ls) e h = ground (arith, hits_spelled fold key m ls)

-- A letter of the pattern that the mark does not have: each round of the loop uses one up.
pub record IsLoopSafe (p : Pattern) : Type 0 where
  pub safe : IsSafe p
  pub key : ℕ
  pub has_key : any (λ l. l == key) p.letters ≡ true
  pub spares_key : hits p.fold key mark ≡ 0

hits_next :
    (p : Pattern) (v : IsLoopSafe p) (s : List Char) {b a : List Char}
    → split p s ≡ some (b, a)
    → hits p.fold v.key (b ++ (mark ++ drop_value a)) < hits p.fold v.key s
hits_next p v s {b} {a} h =
    let (m, e, f) = split-inv p s h in
    let (value, cut) = drop_value-inv a in
    omega (
      arith,
      ap (hits p.fold v.key) e,
      ap (hits p.fold v.key) cut,
      hits-append p.fold v.key b (m ++ a),
      hits-append p.fold v.key m a,
      hits-append p.fold v.key value (drop_value a),
      hits-append p.fold v.key b (mark ++ drop_value a),
      hits-append p.fold v.key mark (drop_value a),
      hits_spelled p.fold v.key m p.letters f v.has_key,
      v.spares_key,
    )

-- The inner loop ends with no match left.
redact_marker-clean :
    (f : ℕ) (p : Pattern) (s : List Char) (v : IsLoopSafe p)
    → hits p.fold v.key s < f
    → occurs p (redact_marker f p s) ≡ false
unfolding redact_marker
redact_marker-clean zero p s v h = absurd (omega arith)
redact_marker-clean (suc f) p s v h = elim (Option-cases (split p s)) [
  | inl e ↦ rw (e, redact_marker) (split-none p s e)
  | inr ((b, a), e) ↦
      rw (e, redact_marker)
        (redact_marker-clean f p (b ++ (mark ++ drop_value a)) v (omega (arith, hits_next p v s e)))
]

replace_all-keeps :
    (p : Pattern) (qs : List Pattern) (s : List Char)
    → IsSafe p
    → occurs p s ≡ false
    → occurs p (replace_all qs s) ≡ false
unfolding replace_all
replace_all-keeps p [] s v h = h
replace_all-keeps p (q ∷ qs) s v h =
    replace_all-keeps p qs _ v (replace-keeps (suc (length s)) p q s v h)

redact_markers-keeps :
    (p : Pattern) (qs : List Pattern) (s : List Char)
    → IsSafe p
    → occurs p s ≡ false
    → occurs p (redact_markers qs s) ≡ false
unfolding redact_markers
redact_markers-keeps p [] s v h = h
redact_markers-keeps p (q ∷ qs) s v h =
    redact_markers-keeps p qs _ v (redact_marker-keeps (suc (length s)) p q s v h)

replace_all-clean :
    (ps : List Pattern) (s : List Char)
    → All IsSafe ps
    → All (λ p. occurs p (replace_all ps s) ≡ false) ps
unfolding replace_all
replace_all-clean [] s v = tt
replace_all-clean (p ∷ ps) s v = (
  replace_all-keeps p ps _ v.0 (replace-clean (suc (length s)) p s v.0 (omega arith)),
  replace_all-clean ps _ v.1,
)

redact_markers-clean :
    (ps : List Pattern) (s : List Char)
    → All IsLoopSafe ps
    → All (λ p. occurs p (redact_markers ps s) ≡ false) ps
unfolding redact_markers
redact_markers-clean [] s v = tt
redact_markers-clean (p ∷ ps) s v = (
  redact_markers-keeps p ps _ v.0.safe (
      redact_marker-clean (suc (length s)) p s v.0
        (omega (arith, hits-le-length p.fold v.0.key s))),
  redact_markers-clean ps _ v.1,
)

All-redact_markers :
    (ps qs : List Pattern) (s : List Char)
    → All IsSafe ps
    → All (λ p. occurs p s ≡ false) ps
    → All (λ p. occurs p (redact_markers qs s) ≡ false) ps
All-redact_markers [] qs s v h = tt
All-redact_markers (p ∷ ps) qs s v h =
    (redact_markers-keeps p qs s v.0 h.0, All-redact_markers ps qs s v.1 h.1)

needles-IsSafe : All IsSafe needles
unfolding occurs
needles-IsSafe = (
  record { spelled = λ e. cc; opens = refl; closes = refl; inside = refl },
  (record { spelled = λ e. cc; opens = refl; closes = refl; inside = refl }, tt),
)

loop_safe :
    (p : Pattern) (key : ℕ)
    → p.letters ≢ []
    → (avoids p "[" ≡ true) × (avoids p "]" ≡ true)
    → occurs p (chars "redacted") ≡ false
    → any (λ l. l == key) p.letters ≡ true
    → hits p.fold key mark ≡ 0
    → IsLoopSafe p
loop_safe p key spelled (opens, closes) inside has_key spares_key = record {
  safe = record { spelled = spelled; opens = opens; closes = closes; inside = inside };
  key = key;
  has_key = has_key;
  spares_key = spares_key;
}

markers-IsLoopSafe : All IsLoopSafe markers
unfolding occurs hits
markers-IsLoopSafe = (
  loop_safe _ b'=' (λ e. cc) (refl, refl) refl refl refl,
  (
    loop_safe _ b'=' (λ e. cc) (refl, refl) refl refl refl,
    (
      loop_safe _ b'=' (λ e. cc) (refl, refl) refl refl refl,
      (
        loop_safe _ b'=' (λ e. cc) (refl, refl) refl refl refl,
        (
          loop_safe _ b'=' (λ e. cc) (refl, refl) refl refl refl,
          (
            loop_safe _ b'=' (λ e. cc) (refl, refl) refl refl refl,
            (loop_safe _ b' ' (λ e. cc) (refl, refl) refl refl refl, tt),
          ),
        ),
      ),
    ),
  ),
)

pub redact_chars-clean :
    (s : List Char)
    → All (λ p. occurs p (redact_chars s) ≡ false) needles
      × All (λ p. occurs p (redact_chars s) ≡ false) markers
unfolding redact_chars
redact_chars-clean s = (
  All-redact_markers needles markers (replace_all needles s) needles-IsSafe
      (replace_all-clean needles s needles-IsSafe),
  redact_markers-clean markers (replace_all needles s) markers-IsLoopSafe,
)

-- The redacted text holds neither of the two needles and none of the seven markers, these in any
-- mixture of cases: for every text, the inner loop ends and leaves no match.
pub redact_text-clean :
    (text : String)
    → All (λ p. occurs p (chars (redact_text text)) ≡ false) needles
      × All (λ p. occurs p (chars (redact_text text)) ≡ false) markers
unfolding redact_text
redact_text-clean text =
    rw (chars-of_chars (redact_chars (chars text))) (redact_chars-clean (chars text))
