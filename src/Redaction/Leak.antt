-- ===== src/Redaction/Leak.antt =====
-- A credential that redaction leaves behind: the markers are taken in order, so the scheme of
-- `authorization=Bearer TOKEN` goes with the sixth marker, and the seventh finds nothing.
use Prim.Native.Char.{Char}
use aiohub_plugin_dsh_worksp.Prelude.{ℕ, suc, false, List, [], ◌∷◌, ◌++◌, ◌≡◌, refl, ap, ◌∙◌, some}
use aiohub_plugin_dsh_worksp.Prelude.Text.{chars}
use aiohub_plugin_dsh_worksp.Redaction.Search.{Pattern, split, occurs, none-split}
use aiohub_plugin_dsh_worksp.Redaction.Unchanged.{IsClean, replace_all-id}
use aiohub_plugin_dsh_worksp.Redaction.{
  marker, mark, redact_marker, needles, markers, replace_all, redact_markers, redact_chars,
  drop_value,
}

skip :
    (p : Pattern) (ps : List Pattern) (s : List Char)
    → occurs p s ≡ false
    → redact_markers (p ∷ ps) s ≡ redact_markers ps s
unfolding redact_markers redact_marker
skip p ps s h = rw (none-split p s h, redact_marker)

redact_marker-once :
    (f : ℕ) (p : Pattern) (s : List Char) {b a : List Char}
    → split p s ≡ some (b, a)
    → occurs p (b ++ (mark ++ drop_value a)) ≡ false
    → redact_marker (suc (suc f)) p s ≡ b ++ (mark ++ drop_value a)
unfolding redact_marker
redact_marker-once f p s {b} {a} e h =
    rw (e, redact_marker) (rw (none-split p (b ++ (mark ++ drop_value a)) h, redact_marker))

authorization_hit :
    (token : List Char)
    → occurs (marker "authorization=") token ≡ false
    → redact_markers
        (marker "authorization=" ∷ marker "bearer " ∷ [])
        (chars "authorization=Bearer " ++ token)
      ≡ redact_markers (marker "bearer " ∷ []) (chars "[redacted] " ++ token)
unfolding redact_markers split occurs drop_value
authorization_hit token h = ap (redact_markers (marker "bearer " ∷ [])) (
    redact_marker-once _ (marker "authorization=") (chars "authorization=Bearer " ++ token) {b = []}
      {a = chars "Bearer " ++ token} refl h)

-- The text `authorization=Bearer TOKEN`, whose token has no needle and no marker in it, is redacted to
-- `[redacted] TOKEN`: the token stays readable.
pub bearer_leaks :
    (token : List Char)
    → IsClean token
    → redact_chars (chars "authorization=Bearer " ++ token) ≡ chars "[redacted] " ++ token
unfolding redact_chars
bearer_leaks token clean =
    ap (redact_markers markers) (needles_kept)
    ∙ (skip (marker "api_key=") _ sent (unfold occurs in clean.1.0)
        ∙ (skip (marker "client_secret=") _ sent (unfold occurs in clean.1.1.0)
            ∙ (skip (marker "token=") _ sent (unfold occurs in clean.1.1.1.0)
                ∙ (skip (marker "password=") _ sent (unfold occurs in clean.1.1.1.1.0)
                    ∙ (skip (marker "secret=") _ sent (unfold occurs in clean.1.1.1.1.1.0)
                        ∙ (authorization_hit token clean.1.1.1.1.1.1.0
                            ∙ skip (marker "bearer ") [] left
                                (unfold occurs in clean.1.1.1.1.1.1.1.0)
                            ∙ nothing_left))))))
  where
    sent : List Char
    sent = chars "authorization=Bearer " ++ token

    left : List Char
    left = chars "[redacted] " ++ token

    nothing_left : redact_markers [] left ≡ left
    nothing_left = unfold redact_markers in refl

    needles_kept : replace_all needles sent ≡ sent
    needles_kept = replace_all-id needles sent (unfold occurs in clean.0)
