-- ===== src/Ordered/Order.antt =====
-- Keys with a strict total order, and the orders of texts and pairs.
use Prim.Native.Char.{code}
use text.Mathlib.TextEquality.{Char-path}
use aiohub_plugin_dsh_worksp.Prelude.{
  String, Bool, true, false, not, ◌&&◌, ◌||◌, ◌≡◌, refl, ◌↔◌, ltb, ◌==◌, if◌then◌else◌, arith,
}

pub record Ord {ℓ} (K : Type ℓ) : Type ℓ where
  pub lt : K → K → Bool
  pub lt_irrefl : (a : K) → lt a a ≡ false
  pub lt_trans : (a b c : K) → lt a b ≡ true → lt b c ≡ true → lt a c ≡ true
  pub lt_total : (a b : K) → lt a b ≡ false → lt b a ≡ false → a ≡ b

-- `==` on keys, from the order.
abbrev pub same {ℓ} : {K : Type ℓ} ⦃o : Ord K⦄ → K → K → Bool
same ⦃o⦄ a b = not (o.lt a b) && not (o.lt b a)

pub same_iff {ℓ} : {K : Type ℓ} ⦃o : Ord K⦄ (a b : K) → (same a b ≡ true) ↔ (a ≡ b)
same_iff ⦃o⦄ a b =
    (λ h. o.lt_total a b (ground arith) (ground arith), λ e. rw e (rw (o.lt_irrefl b)))

-- Texts in the order of their bytes, which is that of their code points.
unfoldable pub text_lt : String → String → Bool
text_lt s String.[] = false
text_lt String.[] (String.◌∷◌ d t) = true
text_lt (String.◌∷◌ c s) (String.◌∷◌ d t) =
    let rest = text_lt s t in
    if ltb (code c) (code d) then true else if code c == code d then rest else false

pub text_lt_irrefl : (s : String) → text_lt s s ≡ false
unfolding text_lt
text_lt_irrefl String.[] = refl
text_lt_irrefl (String.◌∷◌ c s) = ground (arith, text_lt_irrefl s)

pub text_lt_trans : (s t u : String) → text_lt s t ≡ true → text_lt t u ≡ true → text_lt s u ≡ true
unfolding text_lt
text_lt_trans s t String.[] h k = k
text_lt_trans s String.[] (String.◌∷◌ e u) h k = ground arith
text_lt_trans String.[] (String.◌∷◌ d t) (String.◌∷◌ e u) h k = refl
text_lt_trans (String.◌∷◌ c s) (String.◌∷◌ d t) (String.◌∷◌ e u) h k =
    ground (arith, text_lt_trans s t u)

pub text_lt_total : (s t : String) → text_lt s t ≡ false → text_lt t s ≡ false → s ≡ t
unfolding text_lt
text_lt_total String.[] String.[] h k = refl
text_lt_total String.[] (String.◌∷◌ d t) h k = ground arith
text_lt_total (String.◌∷◌ c s) String.[] h k = ground arith
text_lt_total (String.◌∷◌ c s) (String.◌∷◌ d t) h k =
    ground (arith, Char-path c d, text_lt_total s t)

instance abbrev pub text_ord : Ord String
text_ord = record {
  lt = text_lt;
  lt_irrefl = text_lt_irrefl;
  lt_trans = text_lt_trans;
  lt_total = text_lt_total;
}

-- Pairs of texts, the first text first.
unfoldable pub pair_lt : String × String → String × String → Bool
pair_lt (a, b) (c, d) = text_lt a c || (not (text_lt c a) && text_lt b d)

pub pair_lt_irrefl : (a : String × String) → pair_lt a a ≡ false
unfolding pair_lt
pair_lt_irrefl (a, b) = ground (arith, text_lt_irrefl a, text_lt_irrefl b)

pub pair_lt_trans :
    (x y z : String × String) → pair_lt x y ≡ true → pair_lt y z ≡ true → pair_lt x z ≡ true
unfolding pair_lt
pair_lt_trans (a, b) (c, d) (e, f) h k = ground (
  arith,
  text_lt_trans a c e,
  text_lt_trans b d f,
  text_lt_trans c e a,
  text_lt_trans e a c,
  text_lt_total a c,
  text_lt_total c e,
  text_lt_irrefl a,
  text_lt_irrefl c,
)

pub pair_lt_total : (x y : String × String) → pair_lt x y ≡ false → pair_lt y x ≡ false → x ≡ y
unfolding pair_lt
pair_lt_total (a, b) (c, d) h k = ground (arith, text_lt_total a c, text_lt_total b d)

instance abbrev pub pair_ord : Ord (String × String)
pair_ord = record {
  lt = pair_lt;
  lt_irrefl = pair_lt_irrefl;
  lt_trans = pair_lt_trans;
  lt_total = pair_lt_total;
}
