-- ===== src/Platform.antt =====
-- Platforms: crates/supervisor/src/runtime.rs (`PlatformTarget`), supervisor.rs (its protocol form),
-- sandbox_status.rs, and the runtime files that crates/supervisor/src/main.rs requires.
use aiohub_plugin_dsh_worksp.Prelude.{
  String, Option, none, some, List, [], ◌∷◌, Result, ok, err, str_eq, if◌then◌else◌, ◌≡◌, refl,
}
use aiohub_plugin_dsh_worksp.Prelude.Text.{format}
use aiohub_plugin_dsh_worksp.Protocol.Initialize.{
  PlatformKey, SandboxBackend, bwrap, landlock, seatbelt, restricted_token, SandboxLevel, full,
  partial,
}

pub data PlatformTarget : Type 0 where
  win32_x64 linux_x64 darwin_arm64 linux_arm64 : PlatformTarget

abbrev pub as_str : PlatformTarget → String
as_str win32_x64 = "win32-x64"
as_str linux_x64 = "linux-x64"
as_str darwin_arm64 = "darwin-arm64"
as_str linux_arm64 = "linux-arm64"

-- `TryFrom<&str>`; the error is the text of `RuntimeValidationError::Platform`.
unfoldable pub try_from : String → Result String PlatformTarget
try_from value =
    if str_eq value "win32-x64"
    then ok win32_x64
    else if str_eq value "linux-x64"
    then ok linux_x64
    else if str_eq value "darwin-arm64"
    then ok darwin_arm64
    else if str_eq value "linux-arm64"
    then ok linux_arm64
    else err (format ("unsupported platform " ∷ value ∷ []))

abbrev pub into_protocol : PlatformTarget → PlatformKey
into_protocol win32_x64 = PlatformKey.win32_x64
into_protocol linux_x64 = PlatformKey.linux_x64
into_protocol darwin_arm64 = PlatformKey.darwin_arm64
into_protocol linux_arm64 = PlatformKey.linux_arm64

abbrev pub architecture : PlatformTarget → String
architecture win32_x64 = "x64"
architecture linux_x64 = "x64"
architecture darwin_arm64 = "arm64"
architecture linux_arm64 = "arm64"

pub record SandboxStatus : Type 0 where
  pub level : SandboxLevel
  pub backend : SandboxBackend
  pub fallback_backend : Option SandboxBackend
  pub reason : Option String

linux_sandbox : SandboxStatus
linux_sandbox = record {
  level = partial;
  backend = bwrap;
  fallback_backend = some landlock;
  reason = some "bwrap preferred; landlock fallback";
}

unfoldable pub for_platform : PlatformTarget → SandboxStatus
unfolding linux_sandbox
for_platform linux_x64 = linux_sandbox
for_platform linux_arm64 = linux_sandbox
for_platform darwin_arm64 = record {
  level = full;
  backend = seatbelt;
  fallback_backend = none;
  reason = none;
}
for_platform win32_x64 = record {
  level = partial;
  backend = restricted_token;
  fallback_backend = none;
  reason = some "restricted token plus ACL";
}

unfoldable pub required_runtime_files : PlatformTarget → List String
required_runtime_files win32_x64 =
    "deepseek-harness-sdk-runtime-win-x64.exe" ∷ "deepseek-harness-sdk-runtime-win-x64-rg.exe" ∷ []
required_runtime_files linux_x64 =
    "deepseek-harness-sdk-runtime-linux-x64" ∷ "deepseek-harness-sdk-runtime-linux-x64-rg" ∷ []
required_runtime_files darwin_arm64 =
    "deepseek-harness-sdk-runtime-macos-arm64" ∷ "deepseek-harness-sdk-runtime-macos-arm64-rg" ∷ []
required_runtime_files linux_arm64 =
    "deepseek-harness-sdk-runtime-linux-arm64" ∷ "deepseek-harness-sdk-runtime-linux-arm64-rg" ∷ []

-- A platform is read back from its name.
pub try_from-as_str : (p : PlatformTarget) → try_from (as_str p) ≡ ok p
unfolding try_from
try_from-as_str win32_x64 = refl
try_from-as_str linux_x64 = refl
try_from-as_str darwin_arm64 = refl
try_from-as_str linux_arm64 = refl
