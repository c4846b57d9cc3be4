-- ===== src/Redaction/Examples.antt =====
-- Redaction of concrete texts, and the theorems at them.
use aiohub_plugin_dsh_worksp.Prelude.{false, ◌≡◌, refl, All}
use aiohub_plugin_dsh_worksp.Prelude.Text.{chars}
use aiohub_plugin_dsh_worksp.Redaction.Search.{occurs, split}
use aiohub_plugin_dsh_worksp.Redaction.Clean.{redact_text-clean}
use aiohub_plugin_dsh_worksp.Redaction.Unchanged.{IsClean, redact_text-id}
use aiohub_plugin_dsh_worksp.Redaction.Leak.{bearer_leaks}
use aiohub_plugin_dsh_worksp.Redaction.{
  needles, markers, replace, replace_all, redact_marker, redact_markers, redact_chars, redact_text,
}

redact_tests :
    (redact_text "GET /?Token=s3cr3t, x" ≡ "GET /?[redacted], x")
    × (redact_text "Authorization: Bearer a.b.c; q" ≡ "Authorization: [redacted]; q")
    × (redact_text "abc123 and top-secret" ≡ "[redacted] and [redacted]")
    × (redact_text "token=token=password=1 2" ≡ "[redacted] 2")
unfolding redact_text redact_chars replace_all replace redact_markers redact_marker split
redact_tests = (refl, refl, refl, refl)

redact_text-clean_example :
    All (λ p. occurs p (chars (redact_text "TOKEN=1 token=2")) ≡ false) needles
    × All (λ p. occurs p (chars (redact_text "TOKEN=1 token=2")) ≡ false) markers
redact_text-clean_example = redact_text-clean "TOKEN=1 token=2"

plain : IsClean (chars "exit status: 3")
unfolding occurs
plain = ((refl, (refl, tt)), (refl, (refl, (refl, (refl, (refl, (refl, (refl, tt))))))))

redact_text-id_example : redact_text "exit status: 3" ≡ "exit status: 3"
redact_text-id_example = redact_text-id "exit status: 3" plain

s3cr3t-IsClean : IsClean (chars "s3cr3t")
unfolding occurs
s3cr3t-IsClean = ((refl, (refl, tt)), (refl, (refl, (refl, (refl, (refl, (refl, (refl, tt))))))))

bearer_leaks_example :
    redact_chars (chars "authorization=Bearer s3cr3t") ≡ chars "[redacted] s3cr3t"
bearer_leaks_example = bearer_leaks (chars "s3cr3t") s3cr3t-IsClean
