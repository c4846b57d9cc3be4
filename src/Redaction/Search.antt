-- ===== src/Redaction/Search.antt =====
-- Substring search: the first match of a pattern, and whether there is one.
use Prim.Native.Char.{Char, code}
use aiohub_plugin_dsh_worksp.Prelude.{
  ℕ, Bool, true, false, ◌||◌, Option, none, some, List, [], ◌∷◌, ◌++◌, ◌==◌, ◌≡◌, ◌≢◌, refl, ap,
  arith, if◌then◌else◌, Option-cases, inl, inr, any, is_some, map, not,
}

-- The letters of a pattern are compared with the folded code points of the text.
pub record Pattern : Type 0 where
  pub fold : ℕ → ℕ
  pub letters : List ℕ

-- The text behind a match at its start.
unfoldable pub strip : (ℕ → ℕ) → List ℕ → List Char → Option (List Char)
strip fold [] s = some s
strip fold (p ∷ ps) [] = none
strip fold (p ∷ ps) (c ∷ s) =
    let rest = strip fold ps s in if fold (code c) == p then rest else none

abbrev extend : Char → Option (List Char × List Char) → Option (List Char × List Char)
extend c none = none
extend c (some (before, after)) = some (c ∷ before, after)

abbrev at_start :
    Option (List Char) → Option (List Char × List Char) → Option (List Char × List Char)
at_start none later = later
at_start (some after) later = some ([], after)

-- `str::find`: what stands before the first match, and what behind it.
unfoldable pub split : Pattern → List Char → Option (List Char × List Char)
unfolding strip
split p [] = at_start (strip p.fold p.letters []) none
split p (c ∷ s) = at_start (strip p.fold p.letters (c ∷ s)) (extend c (split p s))

-- The pattern occurs in the text.
unfoldable pub occurs : Pattern → List Char → Bool
unfolding strip
occurs p [] = is_some (strip p.fold p.letters [])
occurs p (c ∷ s) = is_some (strip p.fold p.letters (c ∷ s)) || occurs p s

pub split-none : (p : Pattern) (s : List Char) → split p s ≡ none → occurs p s ≡ false
unfolding split occurs
split-none p [] h = ground arith
split-none p (c ∷ s) h = ground (arith, split-none p s)

pub none-split : (p : Pattern) (s : List Char) → occurs p s ≡ false → split p s ≡ none
unfolding split occurs
none-split p [] h = ground arith
none-split p (c ∷ s) h = ground (arith, none-split p s)

pub strip-inv :
    (fold : ℕ → ℕ) (ps : List ℕ) (s : List Char) {r : List Char}
    → strip fold ps s ≡ some r
    → (m : List Char) × (s ≡ m ++ r) × (map (λ c. fold (code c)) m ≡ ps)
unfolding strip
strip-inv fold [] s h = ([], ground arith, refl)
strip-inv fold (p ∷ ps) [] h = cc
strip-inv fold (p ∷ ps) (c ∷ s) {r} h =
    let inner : strip fold ps s ≡ some r = ground arith in
    let (m, e, f) = strip-inv fold ps s inner in (c ∷ m, ground arith, ground arith)

strip-append :
    (fold : ℕ → ℕ) (ps : List ℕ) (a b : List Char)
    → is_some (strip fold ps a) ≡ true
    → is_some (strip fold ps (a ++ b)) ≡ true
unfolding strip
strip-append fold [] a b h = refl
strip-append fold (p ∷ ps) [] b h = ground arith
strip-append fold (p ∷ ps) (c ∷ a) b h = ground (arith, strip-append fold ps a b)

pub occurs-append_right :
    (p : Pattern) (a b : List Char) → occurs p (a ++ b) ≡ false → occurs p b ≡ false
unfolding occurs
occurs-append_right p [] b h = h
occurs-append_right p (c ∷ a) b h = occurs-append_right p a b (ground arith)

occurs-nil :
    (p : Pattern) (b : List Char) → is_some (strip p.fold p.letters []) ≡ true → occurs p b ≡ true
unfolding occurs
occurs-nil p [] h = h
occurs-nil p (c ∷ b) h = ground (arith, strip-append p.fold p.letters [] (c ∷ b))

pub occurs-append_left :
    (p : Pattern) (a b : List Char) → occurs p (a ++ b) ≡ false → occurs p a ≡ false
unfolding occurs
occurs-append_left p [] b h = ground (arith, occurs-nil p b)
occurs-append_left p (c ∷ a) b h =
    ground (arith, strip-append p.fold p.letters (c ∷ a) b, occurs-append_left p a b)

-- The parts of a split: the match is spelled like the pattern, and the part before it is clean.
pub split-inv :
    (p : Pattern) (s : List Char) {b a : List Char}
    → split p s ≡ some (b, a)
    → (m : List Char) × (s ≡ b ++ (m ++ a)) × (map (λ c. p.fold (code c)) m ≡ p.letters)
unfolding split
split-inv p [] h = elim (Option-cases (strip p.fold p.letters [])) [
  | inl e ↦ absurd (ground arith)
  | inr (r, e) ↦ let (m, spelled, f) = strip-inv p.fold p.letters [] e in (m, ground arith, f)
]
split-inv p (c ∷ s) h = elim (Option-cases (strip p.fold p.letters (c ∷ s))) [
  | inl e ↦ elim (Option-cases (split p s)) [
    | inl e' ↦ absurd (ground arith)
    | inr ((b', a'), e') ↦ let (m, spelled, f) = split-inv p s e' in (m, ground arith, f)
  ]
  | inr (r, e) ↦ let (m, spelled, f) = strip-inv p.fold p.letters (c ∷ s) e in (m, ground arith, f)
]

pub strip-nil : (fold : ℕ → ℕ) (ps : List ℕ) → ps ≢ [] → is_some (strip fold ps []) ≡ false
unfolding strip
strip-nil fold [] n = absurd (n refl)
strip-nil fold (p ∷ ps) n = refl

strip-shorter :
    (p : Pattern) (s a b : List Char)
    → strip p.fold p.letters s ≡ none
    → s ≡ a ++ b
    → is_some (strip p.fold p.letters a) ≡ false
strip-shorter p s a b h e = ground (arith, strip-append p.fold p.letters a b)

-- No match starts before the first one.
pub split-before :
    (p : Pattern) (s : List Char) {b a : List Char}
    → p.letters ≢ []
    → split p s ≡ some (b, a)
    → occurs p b ≡ false
unfolding split occurs
split-before p [] n h = elim (Option-cases (strip p.fold p.letters [])) [
  | inl e ↦ absurd (ground arith)
  | inr (r, e) ↦ absurd (ground (arith, strip-nil p.fold p.letters n))
]
split-before p (c ∷ s) {b} n h = elim (Option-cases (strip p.fold p.letters (c ∷ s))) [
  | inl e ↦ elim (Option-cases (split p s)) [
    | inl e' ↦ absurd (ground arith)
    | inr ((b', a'), e') ↦
        let (m, spelled, f) = split-inv p s e' in
        let same_b : b ≡ c ∷ b' = ground arith in
        let here = strip-shorter p (c ∷ s) (c ∷ b') (m ++ a') e (ap (◌∷◌ c) spelled) in
        rw same_b (ground (arith, here, split-before p s n e'))
  ]
  | inr (r, e) ↦ let same_b : b ≡ [] = ground arith in rw same_b (strip-nil p.fold p.letters n)
]

-- A character that no letter of the pattern fits.
abbrev pub avoids : Pattern → Char → Bool
avoids p d = not (any (λ l. p.fold (code d) == l) p.letters)

strip-avoids :
    (fold : ℕ → ℕ) (ps : List ℕ) (a b : List Char) (d : Char)
    → any (λ l. fold (code d) == l) ps ≡ false
    → is_some (strip fold ps (a ++ d ∷ b)) ≡ is_some (strip fold ps a)
unfolding strip
strip-avoids fold [] a b d h = refl
strip-avoids fold (p ∷ ps) [] b d h = ground arith
strip-avoids fold (p ∷ ps) (c ∷ a) b d h = ground (arith, strip-avoids fold ps a b d)

-- No match runs over such a character.
pub occurs-avoids :
    (p : Pattern) (a b : List Char) (d : Char)
    → p.letters ≢ []
    → avoids p d ≡ true
    → occurs p (a ++ d ∷ b) ≡ (occurs p a || occurs p b)
unfolding occurs
occurs-avoids p [] b d n h =
    ground (arith, strip-avoids p.fold p.letters [] b d, strip-nil p.fold p.letters n)
occurs-avoids p (c ∷ a) b d n h =
    ground (arith, strip-avoids p.fold p.letters (c ∷ a) b d, occurs-avoids p a b d n h)
