-- ===== src/Prelude/Text.antt =====
-- Text: `format!` as concatenation of parts, the decimal form of a number, and the characters of a
-- text as a list.
use Prim.Native.Nat.{ℕ, zero, suc, ◌+◌, ◌*◌, ◌-◌, ◌/◌, ◌%◌, ◌<◌}
use Prim.Native.Char.{Char, code}
use Prim.Native.String.{String, ◌++◌}
use mathlib.Core.Path.{◌≡◌, refl, ap, sym, ◌∙◌}
use mathlib.Core.List.{List, [], ◌∷◌}
use mathlib.Core.Bool.{Bool, true, false, ◌||◌}
use aiohub_plugin_dsh_worksp.Prelude.Tests.{◌==◌, if◌then◌else◌}
use native.Mathlib.Omega.{arith}
use text.Mathlib.TextLemmas.{append_cancel_left, append-nil}

abbrev pub chars : String → List Char
chars String.[] = []
chars (String.◌∷◌ c s) = c ∷ chars s

abbrev pub of_chars : List Char → String
of_chars [] = String.[]
of_chars (c ∷ cs) = String.◌∷◌ c (of_chars cs)

pub chars-of_chars : (cs : List Char) → chars (of_chars cs) ≡ cs
chars-of_chars [] = refl
chars-of_chars (c ∷ cs) = rw (chars-of_chars cs)

-- `format!`: the parts one after the other.
unfoldable pub format : List String → String
format [] = ""
format (s ∷ ss) = s ++ format ss

digit : ℕ → Char
digit zero = "0"
digit (suc zero) = "1"
digit (suc (suc zero)) = "2"
digit (suc (suc (suc zero))) = "3"
digit (suc (suc (suc (suc zero)))) = "4"
digit (suc (suc (suc (suc (suc zero))))) = "5"
digit (suc (suc (suc (suc (suc (suc zero)))))) = "6"
digit (suc (suc (suc (suc (suc (suc (suc zero))))))) = "7"
digit (suc (suc (suc (suc (suc (suc (suc (suc zero)))))))) = "8"
digit _ = "9"

code-digit : (d : ℕ) → d < 10 → code (digit d) - 48 ≡ d
unfolding digit
code-digit zero h = refl
code-digit (suc zero) h = refl
code-digit (suc (suc zero)) h = refl
code-digit (suc (suc (suc zero))) h = refl
code-digit (suc (suc (suc (suc zero)))) h = refl
code-digit (suc (suc (suc (suc (suc zero))))) h = refl
code-digit (suc (suc (suc (suc (suc (suc zero)))))) h = refl
code-digit (suc (suc (suc (suc (suc (suc (suc zero))))))) h = refl
code-digit (suc (suc (suc (suc (suc (suc (suc (suc zero)))))))) h = refl
code-digit (suc (suc (suc (suc (suc (suc (suc (suc (suc zero))))))))) h = refl
code-digit (suc (suc (suc (suc (suc (suc (suc (suc (suc (suc d)))))))))) h = absurd (omega arith)

dec_loop : ℕ → ℕ → String → String
dec_loop zero n acc = acc
dec_loop (suc f) n acc = elim (n / 10) [
  | zero ↦ String.◌∷◌ (digit (n % 10)) acc
  | suc m ↦ dec_loop f (suc m) (String.◌∷◌ (digit (n % 10)) acc)
]

-- The decimal form of a number, as `Display` writes it.
unfoldable pub dec : ℕ → String
unfolding dec_loop digit
dec n = dec_loop (suc n) n ""

value : ℕ → String → ℕ
value a String.[] = a
value a (String.◌∷◌ c s) = value (a * 10 + (code c - 48)) s

value-digit :
    (q n : ℕ) (s : String) → q ≡ n / 10 → value q (String.◌∷◌ (digit (n % 10)) s) ≡ value n s
unfolding value
value-digit q n s e = ap (λ k. value k s) (omega (arith, code-digit (n % 10) (omega arith)))

value-dec_loop :
    (f n q : ℕ) (acc : String) → n < f → q ≡ n / 10 → value 0 (dec_loop f n acc) ≡ value n acc
unfolding dec_loop
value-dec_loop zero n q acc h e = elim h [ ]
value-dec_loop (suc f) n zero acc h e = rw (← e, dec_loop) (value-digit 0 n acc e)
value-dec_loop (suc f) n (suc q) acc h e =
    rw (← e, dec_loop)
      (value-dec_loop f (suc q) (suc q / 10) _ (omega arith) refl ∙ value-digit (suc q) n acc e)

value-dec : (n : ℕ) → value 0 (dec n) ≡ n
unfolding dec value
value-dec n = value-dec_loop (suc n) n (n / 10) "" (omega arith) refl

-- Two numbers with the same decimal form are the same.
pub dec-injective : (m n : ℕ) → dec m ≡ dec n → m ≡ n
dec-injective m n e = sym (value-dec m) ∙ ap (value 0) e ∙ value-dec n

-- So are the numbers of two identifiers with a common stem.
pub format-dec-injective :
    (stem : String) (m n : ℕ) → format (stem ∷ dec m ∷ []) ≡ format (stem ∷ dec n ∷ []) → m ≡ n
unfolding format
format-dec-injective stem m n e =
    dec-injective m n
      (sym (append-nil (dec m)) ∙ append_cancel_left stem _ _ e ∙ append-nil (dec n))

dec_test : format ("lease-" ∷ dec 1042 ∷ []) ≡ "lease-1042"
unfolding format dec
dec_test = refl

-- `str::starts_with`: the prefix comes first.
unfoldable pub starts_with : String → String → Bool
starts_with String.[] t = true
starts_with (String.◌∷◌ c s) String.[] = false
starts_with (String.◌∷◌ c s) (String.◌∷◌ d t) = if code c == code d then starts_with s t else false

-- `str::contains`: some position starts with the needle.
unfoldable pub contains : String → String → Bool
unfolding starts_with
contains needle String.[] = starts_with needle ""
contains needle (String.◌∷◌ c s) = starts_with needle (String.◌∷◌ c s) || contains needle s
