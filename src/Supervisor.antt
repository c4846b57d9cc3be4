-- ===== src/Supervisor.antt =====
-- crates/supervisor/src/supervisor.rs: the supervisor's configuration, its state and its errors.
pub mod Startup
pub mod Api
pub mod Serve
mod Examples
use aiohub_plugin_dsh_worksp.Prelude.{
  ℕ, String, Bool, false, Option, none, List, [], ◌∷◌, Result, err, ok, map_err, if◌then◌else◌,
}
use aiohub_plugin_dsh_worksp.Prelude.Text.{format}
pub use aiohub_plugin_dsh_worksp.Files.{display_io}
use aiohub_plugin_dsh_worksp.Files.{Files, IoError, Act, Task}
use aiohub_plugin_dsh_worksp.Home
use aiohub_plugin_dsh_worksp.Home.{DshHomeLayout, HomeError, unsafe_name}
use aiohub_plugin_dsh_worksp.Platform.{PlatformTarget}
use aiohub_plugin_dsh_worksp.Process.{ManagedProcess, SpawnSpec, ProcessPolicy, default_policy}
use aiohub_plugin_dsh_worksp.Protocol.Initialize.{ProtocolError, incompatible_contract}
use aiohub_plugin_dsh_worksp.Redaction.Policy.{RedactionPolicy}
use aiohub_plugin_dsh_worksp.Runtime
use aiohub_plugin_dsh_worksp.Runtime.{RuntimeValidationError, lock, platform, path_escape}

pub record SupervisorConfig : Type 0 where
  pub plugin_data_dir : String
  pub runtime_lock_path : String
  pub runtime_root : String
  pub platform : PlatformTarget
  pub host_api_version : ℕ
  pub prewarm : Bool
  pub telemetry_enabled : Bool
  pub redaction : RedactionPolicy

pub data SupervisorOwner : Type 0 where
  stopped starting ready busy stopping crashed unavailable : SupervisorOwner

pub record StartupFlags : Type 0 where
  pub fail_at_credentials : Bool
  pub fail_at_child_settlement : Bool
  pub fail_at_protocol : Bool
  pub child : Option SpawnSpec

abbrev pub default_flags : StartupFlags
default_flags = record {
  fail_at_credentials = false;
  fail_at_child_settlement = false;
  fail_at_protocol = false;
  child = none;
}

pub data SupervisorError : Type 0 where
  runtime : RuntimeValidationError → SupervisorError
  home : HomeError → SupervisorError
  protocol : ProtocolError → SupervisorError
  frame config : String → SupervisorError
  io : IoError → SupervisorError
  state_poisoned : SupervisorError
  startup : (step : String) → SupervisorError

abbrev pub display_runtime : RuntimeValidationError → String
display_runtime (lock e) = format ("runtime lock is invalid: " ∷ e ∷ [])
display_runtime (platform e) = format ("runtime platform invalid: " ∷ e ∷ [])
display_runtime (path_escape e) = format ("runtime path escapes its root: " ∷ e ∷ [])
display_runtime (Runtime.io e) = format ("io error: " ∷ display_io e ∷ [])

abbrev display_home : HomeError → String
display_home (unsafe_name e) = format ("unsafe secret file name: " ∷ e ∷ [])
display_home (Home.io e) = format ("io error: " ∷ display_io e ∷ [])

abbrev pub display_protocol : ProtocolError → String
display_protocol (incompatible_contract issues) = "incompatible protocol contract"

-- Its `Display`.
unfoldable pub display : SupervisorError → String
display (runtime e) = format ("runtime validation failed: " ∷ display_runtime e ∷ [])
display (home e) = format ("home layout failed: " ∷ display_home e ∷ [])
display (frame e) = format ("invalid input frame: " ∷ e ∷ [])
display (io e) = format ("io error: " ∷ display_io e ∷ [])
display (config e) = format ("supervisor configuration invalid: " ∷ e ∷ [])
display (protocol e) = format ("protocol error: " ∷ display_protocol e ∷ [])
display state_poisoned = "supervisor state poisoned"
display (startup step) = format ("initialization failed at step " ∷ step ∷ [])

-- `SupervisorState`.
pub record SupervisorState : Type 0 where
  pub owner : SupervisorOwner
  pub home : Option DshHomeLayout
  pub child : Option ManagedProcess

abbrev pub default_state : SupervisorState
default_state = record { owner = stopped; home = none; child = none }

-- The mutex of the state is poisoned once a thread has panicked that held it.
pub record Supervisor : Type 0 where
  pub config : SupervisorConfig
  pub backend : ProcessPolicy
  pub state : SupervisorState
  pub poisoned : Bool

-- The supervisor and what it acts on: the state of the operating system's processes, and the disk.
pub record World (W : Type 0) : Type 0 where
  pub supervisor : Supervisor
  pub os : W
  pub disk : Files

abbrev pub Run : Type 0 → Type 0 → Type 0
Run W A = Act (World W) SupervisorError A

module _ {W A : Type 0} where
  -- An operation on the disk.
  abbrev pub on_disk : {D : Type 0} → (D → SupervisorError) → Task D A → Run W A
  on_disk f m w = let (r, t) = m w.disk in (map_err f r, record w { disk = t })

  -- An operation on processes.
  abbrev pub on_os : Act W IoError A → Run W A
  on_os m w = let (r, v) = m w.os in (map_err io r, record w { os = v })

module _ {W : Type 0} where
  abbrev pub update : (SupervisorState → SupervisorState) → World W → World W
  update f w = record w { supervisor = record w.supervisor { state = f w.supervisor.state } }

  abbrev pub set_owner : SupervisorOwner → World W → World W
  set_owner owner = update (λ s. record s { owner = owner })

-- `owner`.
unfoldable pub owner : Supervisor → SupervisorOwner
owner s = if s.poisoned then unavailable else s.state.owner
