-- ===== src/Protocol/Initialize.antt =====
-- crates/protocol/src/messages.rs: what two endpoints tell one another when they connect.
-- `u16` and `String` are numbers and texts.
use aiohub_plugin_dsh_worksp.Prelude.{ℕ, String, Bool, Option, List}

pub record ProtocolVersion : Type 0 where
  pub major : ℕ
  pub minor : ℕ

abbrev pub current_protocol_version : ProtocolVersion
current_protocol_version = record { major = 1; minor = 0 }

pub record RuntimeProvenance : Type 0 where
  pub component : String
  pub version : String
  pub build_id : String
  pub source_revision : Option String

pub data PlatformKey : Type 0 where
  win32_x64 linux_x64 darwin_arm64 linux_arm64 : PlatformKey

pub data SandboxBackend : Type 0 where
  bwrap landlock seatbelt restricted_token : SandboxBackend

pub data SandboxLevel : Type 0 where
  full partial : SandboxLevel

pub record SandboxStatus : Type 0 where
  pub level : SandboxLevel
  pub backend : SandboxBackend
  pub reason : Option String

pub record PlatformFacts : Type 0 where
  pub platform : PlatformKey
  pub architecture : String
  pub sandbox : SandboxStatus

pub record InitializeRequest : Type 0 where
  pub protocol_version : ProtocolVersion
  pub contract_hash : String
  pub runtime : RuntimeProvenance
  pub platform : PlatformFacts
  pub stable_capabilities : List String
  pub required_stable_capabilities : List String
  pub experimental_capabilities : List String

pub record InitializeResult : Type 0 where
  pub protocol_version : ProtocolVersion
  pub contract_hash : String
  pub runtime : RuntimeProvenance
  pub platform : PlatformFacts
  pub stable_capabilities : List String
  pub experimental_capabilities : List String

pub data Endpoint : Type 0 where
  local_end remote_end : Endpoint

pub data CompatibilityIssue : Type 0 where
  major_version : (ours theirs : ℕ) → CompatibilityIssue
  contract_hash : (ours theirs : String) → CompatibilityIssue
  missing_stable_capability : Endpoint → (capability : String) → CompatibilityIssue

pub data ProtocolError : Type 0 where
  incompatible_contract : List CompatibilityIssue → ProtocolError

pub data ShutdownReason : Type 0 where
  plugin_disabled aio_exit user_stop : ShutdownReason

pub record ShutdownRequest : Type 0 where
  pub reason : ShutdownReason

pub record ShutdownResult : Type 0 where
  pub accepted : Bool

pub record PongResult : Type 0 where
  pub seq : ℕ
