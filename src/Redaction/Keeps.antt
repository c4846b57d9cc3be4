-- ===== src/Redaction/Keeps.antt =====
-- One pattern redacted: the other patterns stay absent, and so does the needle of `str::replace`.
use Prim.Native.Char.{Char, code}
use aiohub_plugin_dsh_worksp.Prelude.{
  ℕ, zero, suc, ◌<◌, true, false, ◌||◌, some, List, [], ◌∷◌, ◌++◌, map, ◌≡◌, ◌≢◌, refl, sym, ap,
  ◌∙◌, arith, length, length-append, Option-cases, Bool-cases, inl, inr,
}
use aiohub_plugin_dsh_worksp.Prelude.Text.{chars}
use aiohub_plugin_dsh_worksp.Redaction.Search.{
  Pattern, split, occurs, avoids, split-none, split-inv, split-before, occurs-append_left,
  occurs-append_right, occurs-avoids,
}
use aiohub_plugin_dsh_worksp.Redaction.{mark, drop_value, replace, redact_marker, is_terminator}

-- The mark neither holds nor completes a match of the pattern.
pub record IsSafe (p : Pattern) : Type 0 where
  pub spelled : p.letters ≢ []
  pub opens : avoids p "[" ≡ true
  pub closes : avoids p "]" ≡ true
  pub inside : occurs p (chars "redacted") ≡ false

pub occurs-mark :
    (p : Pattern) (x y : List Char)
    → IsSafe p
    → occurs p (x ++ (mark ++ y)) ≡ (occurs p x || occurs p y)
occurs-mark p x y v =
    occurs-avoids p x (chars "redacted" ++ "]" ∷ y) "[" v.spelled v.opens
    ∙ ground (arith, occurs-avoids p (chars "redacted") y "]" v.spelled v.closes, v.inside)

pub drop_value-inv : (a : List Char) → (v : List Char) × (a ≡ v ++ drop_value a)
unfolding drop_value
drop_value-inv [] = ([], refl)
drop_value-inv (c ∷ a) =
    let (v, cut) = drop_value-inv a in
    elim (Bool-cases (is_terminator (code c))) [
      | inl e ↦ ([], rw e)
      | inr e ↦ (c ∷ v, rw e (ap (◌∷◌ c) cut))
    ]

occurs-parts :
    (p q : Pattern) (s : List Char) {b a : List Char}
    → split q s ≡ some (b, a)
    → occurs p s ≡ false
    → (occurs p b ≡ false) × (occurs p a ≡ false)
occurs-parts p q s {b} {a} h clean =
    let (m, e, f) = split-inv q s h in
    let whole : occurs p (b ++ (m ++ a)) ≡ false = ap (occurs p) (sym e) ∙ clean in
    (
      occurs-append_left p b (m ++ a) whole,
      occurs-append_right p m a (occurs-append_right p b (m ++ a) whole),
    )

-- Redaction of one pattern makes no match of another.
pub replace-keeps :
    (f : ℕ) (p q : Pattern) (s : List Char)
    → IsSafe p
    → occurs p s ≡ false
    → occurs p (replace f q s) ≡ false
unfolding replace
replace-keeps zero p q s v h = h
replace-keeps (suc f) p q s v h = elim (Option-cases (split q s)) [
  | inl e ↦ rw (e, replace) h
  | inr ((b, a), e) ↦
      let (hb, ha) = occurs-parts p q s e h in
      rw (e, replace)
        (occurs-mark p b (replace f q a) v ∙ ground (arith, hb, replace-keeps f p q a v ha))
]

pub redact_marker-keeps :
    (f : ℕ) (p q : Pattern) (s : List Char)
    → IsSafe p
    → occurs p s ≡ false
    → occurs p (redact_marker f q s) ≡ false
unfolding redact_marker
redact_marker-keeps zero p q s v h = h
redact_marker-keeps (suc f) p q s v h = elim (Option-cases (split q s)) [
  | inl e ↦ rw (e, redact_marker) h
  | inr ((b, a), e) ↦
      let (hb, ha) = occurs-parts p q s e h in
      let (value, cut) = drop_value-inv a in
      let rest = occurs-append_right p value (drop_value a) (ap (occurs p) (sym cut) ∙ ha) in
      rw (e, redact_marker)
        (redact_marker-keeps f p q _ v
          (occurs-mark p b (drop_value a) v ∙ ground (arith, hb, rest)))
]

spelled_length :
    (p : Pattern) (m : List Char)
    → map (λ c. p.fold (code c)) m ≡ p.letters
    → p.letters ≢ []
    → 0 < length m
spelled_length p [] f n = absurd (n (sym f))
spelled_length p (c ∷ m) f n = omega arith

split-length :
    (p : Pattern) (s : List Char) {b a : List Char}
    → p.letters ≢ []
    → split p s ≡ some (b, a)
    → length a < length s
split-length p s {b} {a} n h =
    let (m, e, f) = split-inv p s h in
    let filled : 0 < length m = spelled_length p m f n in
    omega (arith, ap length e, length-append b (m ++ a), length-append m a)

-- `str::replace` leaves no match.
pub replace-clean :
    (f : ℕ) (p : Pattern) (s : List Char)
    → IsSafe p
    → length s < f
    → occurs p (replace f p s) ≡ false
unfolding replace
replace-clean zero p s v h = absurd (omega arith)
replace-clean (suc f) p s v h = elim (Option-cases (split p s)) [
  | inl e ↦ rw (e, replace) (split-none p s e)
  | inr ((b, a), e) ↦
      let shorter = split-length p s v.spelled e in
      rw (e, replace)
        (occurs-mark p b (replace f p a) v
          ∙ ground
              (arith, split-before p s v.spelled e, replace-clean f p a v (omega (arith, shorter))))
]
