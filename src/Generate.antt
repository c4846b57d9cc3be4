-- ===== src/Generate.antt =====
-- crates/protocol/src/generate.rs: the options of the generator, its check for drift, and how it
-- replaces the generated files, all or none.

pub mod Rollback
pub mod Commit
pub mod Canonical
pub mod Names
pub mod Types
pub mod Examples
use aiohub_plugin_dsh_worksp.Prelude.{
  ℕ, zero, suc, ◌+◌, String, Bool, true, false, not, ◌&&◌, Option, none, some, is_some, List, [],
  ◌∷◌, Result, ok, err, map, str_eq, unwrap_or, if◌then◌else◌,
}
use aiohub_plugin_dsh_worksp.Prelude.Text.{format, dec}
use aiohub_plugin_dsh_worksp.Files.{
  Files, IoError, not_found, failed, display_io, Task, read, create_new, write, sync_all, rename,
  remove_file, or_else, throw, pure, ◌>>=◌, ◌>>◌,
}
use aiohub_plugin_dsh_worksp.Paths.{join}

pub record Artifact : Type 0 where
  pub relative_path : String
  pub text : String

pub record Options : Type 0 where
  pub check : Bool
  pub output_root : String

-- What the generator takes from outside: the root of the repository where the crate is nested under
-- one, and `{:?}` on a text.
pub record GenerateEnv : Type 0 where
  pub default_output_root : Option String
  pub debug_text : String → String

-- `CommitHook::before_replace`; an index is asked for once, so its answers are a function.
abbrev pub CommitHook : Type 0
CommitHook = ℕ → String → Result String (Unit {0})

abbrev pub noop_hook : CommitHook
noop_hook index path = ok tt

module _ ⦃env : GenerateEnv⦄ where
  open env use {default_output_root, debug_text}

  unexpected : String → Result String Options
  unexpected argument = err (
      format (
        "usage: generate [--check] [--output-root PATH]; unexpected argument: "
        ∷ debug_text argument
        ∷ []))

  -- The loop over the arguments.
  options_from : String → Bool → Option String → List String → Result String Options
  unfolding unexpected
  options_from default check root [] =
      ok (record { check = check; output_root = unwrap_or root default })
  options_from default check root (argument ∷ []) =
      if str_eq argument "--check" && not check
      then ok (record { check = true; output_root = unwrap_or root default })
      else if str_eq argument "--output-root" && not (is_some root)
      then err "usage: generate [--check] [--output-root PATH]; --output-root requires PATH"
      else unexpected argument
  options_from default check root (argument ∷ value ∷ rest) =
      elim (str_eq argument "--check" && not check) [
        | true ↦ options_from default true root (value ∷ rest)
        | false ↦ elim (str_eq argument "--output-root" && not (is_some root)) [
          | true ↦ options_from default check (some value) rest
          | false ↦ unexpected argument
        ]
      ]

  unfoldable pub parse_options : List String → Result String Options
  unfolding options_from
  parse_options arguments = elim default_output_root [
    | none ↦ err "protocol crate is not nested under the repository root"
    | some root ↦ options_from root false none arguments
  ]

-- `join(", ")`.
unfoldable pub join_commas : List String → String
join_commas [] = ""
join_commas (s ∷ []) = s
join_commas (s ∷ t ∷ ss) = format (s ∷ ", " ∷ join_commas (t ∷ ss) ∷ [])

same_text : Artifact → Result IoError String → Bool
same_text artifact (ok current) = str_eq current artifact.text
same_text artifact (err e) = false

-- The artifacts that are not on disk as they would be generated.
unfoldable pub drifted : String → List Artifact → Files → List String × Files
unfolding same_text
drifted root [] s = ([], s)
drifted root (artifact ∷ artifacts) s =
    let (current, t) = read (join root artifact.relative_path) s in
    let (rest, u) = drifted root artifacts t in
    (if same_text artifact current then rest else artifact.relative_path ∷ rest, u)

drift_error : List String × Files → Result String (Unit {0}) × Files
unfolding join_commas
drift_error ([], s) = (ok tt, s)
drift_error (path ∷ paths, s) = (
  err (
      format (
        "generated protocol drift: "
        ∷ join_commas (path ∷ paths)
        ∷ "\nrun `bun run generate:protocol` to refresh artifacts"
        ∷ [])),
  s,
)

-- The branch of `run` under `--check`.
unfoldable pub check_drift : String → List Artifact → Task String (Unit {0})
unfolding drift_error
check_drift root artifacts s = drift_error (drifted root artifacts s)

pub record StagedArtifact : Type 0 where
  pub target : String
  pub replacement : String
  pub backup : Option String

abbrev at_path : String → String → IoError → String
at_path what path e = format (what ∷ " " ∷ path ∷ ": " ∷ display_io e ∷ [])

-- A new file with the default mode.
unfoldable pub write_synced_file : String → String → Task String (Unit {0})
write_synced_file path text =
    or_else (at_path "create staged artifact" path) (create_new path 420)
    >> or_else (at_path "write staged artifact" path) (write path text)
    >> or_else (at_path "sync staged artifact" path) (sync_all path)

-- The copy of what is replaced, where there is something.
back_up : String → String → Result IoError String → Task String (Option String)
unfolding write_synced_file
back_up target path (ok text) = write_synced_file path text >>= λ u. pure (some path)
back_up target path (err not_found) = pure none
back_up target path (err (failed message)) =
    throw (at_path "read existing generated artifact" target (failed message))

stage_artifact : String → String → ℕ → Artifact → Task String StagedArtifact
unfolding back_up
stage_artifact root staging index artifact =
    let target = join root artifact.relative_path in
    let replacement = join staging (format (dec index ∷ ".new" ∷ [])) in
    write_synced_file replacement artifact.text >>= λ u.
    (λ s.
      let (r, t) = read target s in
      back_up target (join staging (format (dec index ∷ ".old" ∷ []))) r t)
    >>= λ backup. pure (record { target = target; replacement = replacement; backup = backup })

-- `stage_artifacts`, from an index on.
unfoldable pub stage_artifacts :
    String → String → ℕ → List Artifact → Task String (List StagedArtifact)
unfolding stage_artifact
stage_artifacts root staging index [] = pure []
stage_artifacts root staging index (artifact ∷ artifacts) =
    stage_artifact root staging index artifact >>= λ staged.
    stage_artifacts root staging (suc index) artifacts >>= λ rest. pure (staged ∷ rest)

restore : String → Option String → Files → Result IoError (Unit {0}) × Files
restore target none = remove_file target
restore target (some backup) = rename backup target

note : String → Result IoError (Unit {0}) → List String → List String
note target (ok done) failures = failures
note target (err e) failures = format (target ∷ ": " ∷ display_io e ∷ []) ∷ failures

-- The loop of `rollback_artifacts` over what was committed, the last first, and its failures.
unfoldable pub rollback_artifacts : List StagedArtifact → Files → List String × Files
unfolding restore note
rollback_artifacts [] s = ([], s)
rollback_artifacts (a ∷ committed) s =
    let (r, t) = restore a.target a.backup s in
    let (failures, u) = rollback_artifacts committed t in (note a.target r failures, u)

abbrev pub after_rollback : String → List String × Files → Result String (Unit {0}) × Files
after_rollback error ([], s) = (err error, s)
after_rollback error (failure ∷ failures, s) = (
  err (
      format (
        error
        ∷ "; protocol artifact rollback also failed: "
        ∷ join_commas (failure ∷ failures)
        ∷ [])),
  s,
)

-- The hook, and the rename of one artifact.
unfoldable pub replace_artifact : CommitHook → ℕ → StagedArtifact → Task String (Unit {0})
replace_artifact hook index a =
    (λ s. (hook index a.target, s))
    >> or_else (at_path "replace generated artifact" a.target) (rename a.replacement a.target)

-- `commit_staged_artifacts`: what was committed, the last first, and what is left from an index on.
unfoldable pub commit_from :
    CommitHook → List StagedArtifact → ℕ → List StagedArtifact → Task String (Unit {0})
unfolding rollback_artifacts replace_artifact
commit_from hook committed index [] s = (ok tt, s)
commit_from hook committed index (a ∷ rest) s =
    let (r, t) = replace_artifact hook index a s in
    elim r [
      | ok done ↦ commit_from hook (a ∷ committed) (suc index) rest t
      | err error ↦ after_rollback error (rollback_artifacts committed t)
    ]

unfoldable pub commit_staged_artifacts : CommitHook → List StagedArtifact → Task String (Unit {0})
unfolding commit_from
commit_staged_artifacts hook artifacts = commit_from hook [] 0 artifacts
