-- ===== src/Generate/Examples.antt =====
-- Two generated files, a check and a commit on them.
use aiohub_plugin_dsh_worksp.Prelude.{
  arith, ok, true, String, false, Option, none, some, List, [], ◌∷◌, err, ◌≡◌, refl, str_eq,
  if◌then◌else◌,
}
use aiohub_plugin_dsh_worksp.Prelude.Text.{format}
use aiohub_plugin_dsh_worksp.Files.{Files, works, fails, rename}
use aiohub_plugin_dsh_worksp.Generate.{
  StagedArtifact, noop_hook, commit_staged_artifacts, commit_from,
}
use mathlib.Core.Option.{map as option_map}
use aiohub_plugin_dsh_worksp.Json.{
  arr, cons, nil, find, Json, null, bool, str, obj, end, member, get,
}
use aiohub_plugin_dsh_worksp.Ordered.{insert}
use aiohub_plugin_dsh_worksp.Ordered.Order.{text_lt}
use aiohub_plugin_dsh_worksp.Generate.Names.{join_schema_types}
use aiohub_plugin_dsh_worksp.Generate.Types.{RenderEnv, ts_node, ts_type_on, ts_type}
use aiohub_plugin_dsh_worksp.Generate.Types.Terminates.{ts_type_solves, ts_type_terminates}
use aiohub_plugin_dsh_worksp.Generate.Canonical.{canonicalize, IsCanonical}
use aiohub_plugin_dsh_worksp.Generate.Canonical.Sorted.{canonicalize-IsCanonical, last_value}
use aiohub_plugin_dsh_worksp.Generate.Commit.{AllOrNone, commit_staged_artifacts-AllOrNone}

abbrev one : StagedArtifact
one = record { target = "one"; replacement = "0.new"; backup = some "0.old" }

abbrev two : StagedArtifact
two = record { target = "two"; replacement = "1.new"; backup = none }

abbrev on_disk : List (String × String) → String → Option String
on_disk [] path = none
on_disk ((name, text) ∷ files) path = if str_eq name path then some text else on_disk files path

-- The second rename of a commit fails.
abbrev broken : Files
broken = record {
  contents =
      on_disk (("one", "old") ∷ ("0.new", "new") ∷ ("0.old", "old") ∷ ("1.new", "new too") ∷ []);
  dirs = λ dir. false;
  modes = λ path. 420;
  faults = works ∷ fails "disk full" ∷ [];
}

commit_staged_artifacts-AllOrNone_example :
    AllOrNone broken.contents []
      (one ∷ two ∷ [])
      (commit_staged_artifacts noop_hook (one ∷ two ∷ []) broken)
commit_staged_artifacts-AllOrNone_example =
    commit_staged_artifacts-AllOrNone noop_hook (one ∷ two ∷ []) broken
      (((refl, refl), refl), ((tt, refl), tt))
      ((
        (
          (
            ((refl, refl, refl), (refl, refl, refl), tt),
            ((refl, refl, tt), (refl, refl, tt), (refl, refl, tt)),
          ),
          tt,
        ),
        (tt, tt),
      ))

-- The commit fails at the second file, and the first one is as before.
rolled_back :
    ((commit_staged_artifacts noop_hook (one ∷ two ∷ []) broken).0
      ≡ err "replace generated artifact two: disk full")
    × ((commit_staged_artifacts noop_hook (one ∷ two ∷ []) broken).1.contents "one" ≡ some "old")
unfolding commit_staged_artifacts commit_from rename format
rolled_back = (refl, refl)

abbrev schema : Json
schema = obj (
    member "type" (str "object")
      (member "properties" (obj (member "b" null (member "a" (bool true) end))) end))

canonicalize-IsCanonical_example :
    IsCanonical (canonicalize schema)
    × (canonicalize (canonicalize schema) ≡ canonicalize schema)
    × ((k : String) → get (canonicalize schema) k ≡ option_map canonicalize (last_value schema k))
canonicalize-IsCanonical_example = canonicalize-IsCanonical schema

schema_sorted :
    canonicalize schema
    ≡ obj (
        member "properties"
          (obj (member "a" (bool true) (member "b" null end)))
          (member "type" (str "object") end))
unfolding canonicalize insert text_lt
schema_sorted = refl

-- Texts without characters that JSON escapes.
instance abbrev quotes : RenderEnv
quotes = record {
  string_json = λ s. format ("\"" ∷ s ∷ "\"" ∷ []);
  display_json = λ v. "";
  debug_text = λ s. format ("\"" ∷ s ∷ "\"" ∷ []);
}

abbrev nullable : Json
nullable = obj (member "type" (arr (cons (str "string") (cons (str "null") nil))) end)

ts_type_terminates_example :
    (ts_type_on (ok "never reached") 5 nullable 0 ≡ ts_type nullable 0)
    × (ts_type nullable 0 ≡ ts_node ts_type nullable 0)
    × (ts_type nullable 0 ≡ ts_type nullable 0)
ts_type_terminates_example =
    ts_type_terminates (ok "never reached") 5 nullable 0 ts_type (omega arith) ts_type_solves

nullable_string : ts_type nullable 0 ≡ ok "string | null"
unfolding ts_type ts_type_on ts_node find format join_schema_types
nullable_string = refl
