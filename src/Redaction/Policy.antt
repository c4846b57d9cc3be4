-- ===== src/Redaction/Policy.antt =====
-- crates/supervisor/src/supervisor.rs, `RedactionPolicy`: which variables, headers and parts of a URL
-- are hidden. Names are compared as the lists of their code points, folded to one case.
use Prim.Native.Char.{code}
use aiohub_plugin_dsh_worksp.Prelude.{
  ℕ, ◌-◌, String, Bool, true, false, ◌&&◌, ◌||◌, none, some, List, [], ◌∷◌, map, any, ◌==◌, leb,
  str_eq, ◌≡◌, refl, if◌then◌else◌,
}
use aiohub_plugin_dsh_worksp.Prelude.Text.{chars, of_chars, format}
use aiohub_plugin_dsh_worksp.Redaction.{to_lower, needle}
use aiohub_plugin_dsh_worksp.Redaction.Search.{Pattern, split, occurs}

-- A set of names is a list without order.
pub record RedactionPolicy : Type 0 where
  pub secret_environment_variables : List String
  pub censored_environment_variables : List String
  pub censored_header_names : List String

abbrev pub default_secret_environment : List String
default_secret_environment =
    "AIOHUB_CLIENT_SECRET" ∷ "AIOHUB_API_KEY" ∷ "AIOHUB_TOKEN" ∷ "AUTHORIZATION" ∷ "API_KEY" ∷ []

abbrev pub default_censored_headers : List String
default_censored_headers = "authorization" ∷ "proxy-authorization" ∷ "x-api-key" ∷ []

abbrev pub default_policy : RedactionPolicy
default_policy = record {
  secret_environment_variables = default_secret_environment;
  censored_environment_variables = "CENSORED" ∷ [];
  censored_header_names = default_censored_headers;
}

-- `to_ascii_uppercase` on a code point.
abbrev to_upper : ℕ → ℕ
to_upper c = if leb b'a' c && leb c b'z' then c - 32 else c

plugin_data : Pattern
plugin_data = record { fold = to_upper; letters = map code (chars "PLUGIN_DATA") }

pub is_censored : RedactionPolicy → String → Bool
unfolding plugin_data
is_censored policy key =
    any (str_eq key) policy.secret_environment_variables
    || any (str_eq key) policy.censored_environment_variables
    || occurs plugin_data (chars key)

abbrev hidden : String
hidden = "[redacted]"

unfoldable pub redact_env : RedactionPolicy → List (String × String) → List (String × String)
unfolding is_censored
redact_env policy [] = []
redact_env policy ((key, value) ∷ entries) =
    (key, if is_censored policy key then hidden else value) ∷ redact_env policy entries

same_codes : List ℕ → List ℕ → Bool
same_codes [] [] = true
same_codes [] (d ∷ ds) = false
same_codes (c ∷ cs) [] = false
same_codes (c ∷ cs) (d ∷ ds) = c == d && same_codes cs ds

-- The set contains `name.to_ascii_lowercase()`.
pub is_header : RedactionPolicy → String → Bool
unfolding same_codes
is_header policy name =
    any (λ header. same_codes (map (λ c. to_lower (code c)) (chars name)) (map code (chars header)))
      policy.censored_header_names

unfoldable pub redact_header : RedactionPolicy → String → String → String × String
unfolding is_header
redact_header policy name value = (name, if is_header policy name then hidden else value)

-- `split_once('?')`.
unfoldable pub redact_url : String → String
redact_url url = elim (split (needle "?") (chars url)) [
  | some (before, after) ↦ format (of_chars before ∷ "?[redacted]" ∷ [])
  | none ↦ url
]

policy_tests :
    (redact_env default_policy (("My_Plugin_Data", "/d") ∷ ("HOME", "/h") ∷ [])
      ≡ ("My_Plugin_Data", "[redacted]") ∷ ("HOME", "/h") ∷ [])
    × (redact_header default_policy "X-Api-Key" "k" ≡ ("X-Api-Key", "[redacted]"))
    × (redact_url "/a?b=c" ≡ "/a?[redacted]")
unfolding redact_env redact_header redact_url occurs split format
policy_tests = (refl, refl, refl)
