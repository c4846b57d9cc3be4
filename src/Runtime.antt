-- ===== src/Runtime.antt =====
-- crates/supervisor/src/runtime.rs: the lock file of the bundled DSH runtime is the frozen release's,
-- and the files of the runtime lie below its root. Its `PlatformTarget` is in Platform.antt.
pub mod Frozen
pub mod Layout
mod Checks
pub mod Examples
use aiohub_plugin_dsh_worksp.Prelude.{
  ℕ, String, Bool, true, false, not, ◌||◌, Option, none, some, List, [], ◌∷◌, Result, ok, err,
  ◌>>=◌, ◌>>◌, map_err, any, ◌==◌, str_eq, if◌then◌else◌,
}
use aiohub_plugin_dsh_worksp.Prelude.Text.{format}
use aiohub_plugin_dsh_worksp.Json.{Json}
use aiohub_plugin_dsh_worksp.Ordered.{contains, keys}
use aiohub_plugin_dsh_worksp.Ordered.Order.{text_ord}
use aiohub_plugin_dsh_worksp.Files.{Files, IoError, Task, read, or_else, check}
use aiohub_plugin_dsh_worksp.Files
use aiohub_plugin_dsh_worksp.Paths.{join}
use aiohub_plugin_dsh_worksp.Platform.{
  PlatformTarget, win32_x64, linux_x64, darwin_arm64, linux_arm64, as_str, try_from,
}

abbrev pub dsh_version : String
dsh_version = "0.1.2-alpha.5"

abbrev pub dsh_tag : String
dsh_tag = "dsh-v0.1.2-alpha.5"

abbrev pub dsh_commit : String
dsh_commit = "db6bdc3576c2d4e7c965e8e3ed0c2a731eed87f5"

abbrev pub dsh_contract_hash : String
dsh_contract_hash = "96af8af6cdb538da2cd13c53eb4dd640f0ca233aab68b209d82fc744e01da519"

pub data RuntimeValidationError : Type 0 where
  lock platform path_escape : String → RuntimeValidationError
  io : IoError → RuntimeValidationError

-- The trait: a platform, or its name.
pub record RuntimePlatform (P : Type 0) : Type 0 where
  pub resolve : P → Result RuntimeValidationError PlatformTarget

instance abbrev pub target_platform : RuntimePlatform PlatformTarget
target_platform = record { resolve = λ p. ok p }

instance abbrev pub named_platform : RuntimePlatform String
named_platform = record { resolve = λ name. map_err platform (try_from name) }

pub record RuntimeToolchain : Type 0 where
  pub node : String
  pub pnpm : String
  pub python : String
  pub rust : String

pub record RuntimeSource : Type 0 where
  pub kind : String
  pub tag : String
  pub commit : String

pub record OfficialWheel : Type 0 where
  pub status : Option String

pub record LicenseResult : Type 0 where
  pub spdx : String

pub record RuntimeLockV1 : Type 0 where
  pub schema_version : ℕ
  pub version : String
  pub tag : String
  pub commit : String
  pub published_at : Option String
  pub source : RuntimeSource
  pub official_wheel : Option OfficialWheel
  pub license : Option String
  pub license_result : LicenseResult
  pub cyclonedx_path : Option String
  pub profile_version : String
  pub contract_hash : String
  pub aio_semver_range : String
  pub toolchain : RuntimeToolchain
  pub platform : Option String
  pub platforms : List (String × Json)

pub record ValidatedRuntime : Type 0 where
  pub platform : PlatformTarget

unfoldable pub architecture : ValidatedRuntime → String
architecture v = elim v.platform [
  | win32_x64 ↦ "x64"
  | linux_x64 ↦ "x64"
  | darwin_arm64 ↦ "arm64"
  | linux_arm64 ↦ "arm64"
]

-- `std::path::Component`.
pub data Component : Type 0 where
  prefix normal : String → Component
  root_dir cur_dir parent_dir : Component

-- What is not in the repository: serde's format of the lock, `{:?}` on a text, and the path
-- operations of the standard library; links are followed as the directory tree has them.
pub record RuntimeTree : Type 0 where
  pub read_lock : String → Result String RuntimeLockV1
  pub debug_text : String → String
  pub components : String → List Component
  pub path_starts_with : String → String → Bool
  pub canonicalize : String → Result IoError String
  pub is_file : String → Bool

-- `if bad { return Err(e) }`.
abbrev pub refuse_if : {E : Type 0} → Bool → E → Result E (Unit {0})
refuse_if bad e = if bad then err e else ok tt

unfoldable pub validate_toolchain : RuntimeLockV1 → Result RuntimeValidationError (Unit {0})
validate_toolchain l =
    refuse_if
      (not (str_eq l.toolchain.node "24")
        || not (str_eq l.toolchain.pnpm "11.7.0")
        || not (str_eq l.toolchain.python "3.10")
        || not (str_eq l.toolchain.rust "1.89.0"))
      (lock "toolchain is not pinned")

unfoldable pub validate_source : RuntimeLockV1 → Result RuntimeValidationError (Unit {0})
validate_source l =
    refuse_if
      (not (str_eq l.source.kind "project-built-from-official-source")
        || not (str_eq l.source.tag dsh_tag)
        || not (str_eq l.source.commit dsh_commit))
      (lock "runtime source is not the frozen alpha.5 source")

-- `value.parse::<Spdx>()` succeeds.
unfoldable pub is_spdx : String → Bool
is_spdx value = str_eq value "MIT" || str_eq value "Apache-2.0"

named : Option String → String → Bool
named none name = false
named (some other) name = str_eq other name

-- The lock has the platform among its `platforms`, or is the lock of that one.
unfoldable pub offers : RuntimeLockV1 → PlatformTarget → Bool
unfolding named
offers l p = contains (as_str p) (keys l.platforms) || named l.platform (as_str p)

abbrev pub is_normal : Component → Bool
is_normal (normal name) = true
is_normal _ = false

module _ ⦃tree : RuntimeTree⦄ where
  open tree use {read_lock, debug_text, components, path_starts_with, canonicalize, is_file}

  -- What `RuntimeValidator::validate` does once the lock is read.
  unfoldable pub check_lock :
      PlatformTarget → RuntimeLockV1 → Result RuntimeValidationError ValidatedRuntime
  unfolding validate_toolchain validate_source
  check_lock p l =
      refuse_if
        (not (l.schema_version == 1)
          || not (str_eq l.version dsh_version)
          || not (str_eq l.tag dsh_tag)
          || not (str_eq l.commit dsh_commit))
        (lock "not the frozen alpha.5 release")
      >> refuse_if (not (str_eq l.contract_hash dsh_contract_hash)) (lock "contract hash mismatch")
      >> refuse_if (not (str_eq l.profile_version "dsh-runtime-profile-v1"))
          (lock "profile version mismatch")
      >> refuse_if (not (str_eq l.aio_semver_range ">=0.7.0-alpha.4"))
          (lock "AIO compatibility range mismatch")
      >> validate_toolchain l
      >> validate_source l
      >> refuse_if (not (is_spdx l.license_result.spdx))
          (lock (format ("unsupported license " ∷ debug_text l.license_result.spdx ∷ [])))
      >> refuse_if (not (offers l p)) (platform (as_str p))
      >> ok (record { platform = p })

  -- `RuntimeValidator::validate`.
  unfoldable pub validate :
      {P : Type 0} ⦃which : RuntimePlatform P⦄
      → String
      → P
      → Task RuntimeValidationError ValidatedRuntime
  unfolding check_lock
  validate ⦃which⦄ lock_path p = Files.◌>>=◌ (check (which.resolve p)) λ target.
      Files.◌>>=◌ (or_else io (read lock_path))
        λ raw. check (map_err lock (read_lock raw) >>= check_lock target)

  -- One turn of the loop of `validate_layout_against_root`.
  unfoldable pub check_file : String → String → Result RuntimeValidationError (Unit {0})
  check_file root file =
      refuse_if (any (λ c. not (is_normal c)) (components file)) (path_escape file)
      >> (map_err io (canonicalize (join root file)) >>= λ canonical.
          refuse_if (not (path_starts_with canonical root)) (path_escape file)
          >> refuse_if (not (is_file canonical))
              (lock (format ("runtime file missing: " ∷ file ∷ []))))

  unfoldable pub check_files : String → List String → Result RuntimeValidationError (Unit {0})
  check_files root [] = ok tt
  check_files root (file ∷ files) = check_file root file >> check_files root files

  -- `validate_layout_against_root`, which `ValidatedRuntime::validate_layout` calls.
  unfoldable pub validate_layout : String → List String → Result RuntimeValidationError (Unit {0})
  validate_layout runtime_root files =
      map_err io (canonicalize runtime_root) >>= λ root. check_files root files
