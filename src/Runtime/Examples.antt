-- ===== src/Runtime/Examples.antt =====
-- The theorems at the frozen release's lock and a small directory tree.
use aiohub_plugin_dsh_worksp.Prelude.{
  String, true, false, none, some, [], ◌∷◌, ok, err, ◌≡◌, refl, ◌↔◌, str_eq, if◌then◌else◌, All,
}
use aiohub_plugin_dsh_worksp.Prelude.Text.{starts_with, format}
use aiohub_plugin_dsh_worksp.Ordered.{contains}
use aiohub_plugin_dsh_worksp.Ordered.Order.{text_lt}
use aiohub_plugin_dsh_worksp.Files.{Files, read}
use aiohub_plugin_dsh_worksp.Platform.{linux_x64}
use aiohub_plugin_dsh_worksp.Runtime.{
  target_platform, path_escape, is_spdx, check_files, check_file, RuntimeTree, RuntimeLockV1,
  ValidatedRuntime, normal, parent_dir, offers, validate, validate_layout, dsh_version, dsh_tag,
  dsh_commit, dsh_contract_hash,
}
use aiohub_plugin_dsh_worksp.Runtime.Frozen.{IsFrozen, validate_iff}
use aiohub_plugin_dsh_worksp.Runtime.Layout.{IsInside, layout_iff}

abbrev pub frozen_lock : RuntimeLockV1
frozen_lock = record {
  schema_version = 1;
  version = dsh_version;
  tag = dsh_tag;
  commit = dsh_commit;
  published_at = none;
  source = record {
    kind = "project-built-from-official-source";
    tag = dsh_tag;
    commit = dsh_commit;
  };
  official_wheel = none;
  license = some "MIT";
  license_result = record { spdx = "MIT" };
  cyclonedx_path = none;
  profile_version = "dsh-runtime-profile-v1";
  contract_hash = dsh_contract_hash;
  aio_semver_range = ">=0.7.0-alpha.4";
  toolchain = record { node = "24"; pnpm = "11.7.0"; python = "3.10"; rust = "1.89.0" };
  platform = some "linux-x64";
  platforms = [];
}

instance abbrev pub small_tree : RuntimeTree
small_tree = record {
  read_lock = λ text. if str_eq text "lock" then ok frozen_lock else err "not a lock";
  debug_text = λ text. text;
  components = λ path. if str_eq path ".." then parent_dir ∷ [] else normal path ∷ [];
  path_starts_with = λ path root. starts_with root path;
  canonicalize = λ path. ok path;
  is_file = λ path. str_eq path "/r/dsh";
}

abbrev pub disk : Files
disk = record {
  contents = λ path. if str_eq path "/lock" then some "lock" else none;
  dirs = λ path. false;
  modes = λ path. 0;
  faults = [];
}

validate_iff_example :
    ((validate "/lock" linux_x64 disk).0 ≡ ok (record { platform = linux_x64 })) ↔ (
      IsFrozen frozen_lock
      × (offers frozen_lock linux_x64 ≡ true)
      × (◌≡◌ {A = ValidatedRuntime}
          (record { platform = linux_x64 })
          (record { platform = linux_x64 })))
validate_iff_example =
    validate_iff "/lock" linux_x64 disk linux_x64 "lock" frozen_lock
      (record { platform = linux_x64 }) refl refl refl refl

layout_iff_example : (validate_layout "/r" ("dsh" ∷ []) ≡ ok tt) ↔ (
    (canonical : String) × (small_tree.canonicalize "/r" ≡ ok canonical)
    × All (IsInside canonical) ("dsh" ∷ []))
layout_iff_example = layout_iff "/r" ("dsh" ∷ [])

-- The lock passes and a file below the root too, a path out of the root does not.
accepts :
    ((validate "/lock" linux_x64 disk).0 ≡ ok (record { platform = linux_x64 }))
    × (validate_layout "/r" ("dsh" ∷ []) ≡ ok tt)
    × (validate_layout "/r" (".." ∷ []) ≡ err (path_escape ".."))
unfolding validate read offers is_spdx contains text_lt validate_layout check_files check_file
    format starts_with
accepts = (refl, refl, refl)
