-- ===== src/Driver/State.antt =====
-- crates/supervisor/src/main.rs: the driver's data, and what it takes from outside the repository
-- or from another component.
use aiohub_plugin_dsh_worksp.Prelude.{ℕ, String, Bool, Option, none, List, [], ◌∷◌, Result}
use aiohub_plugin_dsh_worksp.Json.{Json}
use aiohub_plugin_dsh_worksp.Files.{Files, IoError}
pub use aiohub_plugin_dsh_worksp.Supervisor.{SupervisorError, protocol, display, display_protocol}
use aiohub_plugin_dsh_worksp.Lifecycle.{LifecycleMachine}
use aiohub_plugin_dsh_worksp.Platform.{PlatformTarget}
use aiohub_plugin_dsh_worksp.Protocol.Initialize.{InitializeRequest, InitializeResult}
use aiohub_plugin_dsh_worksp.Protocol.Session.{ControllerLease}
use aiohub_plugin_dsh_worksp.Protocol.Envelope.{
  Envelope, CommandPayload, ResponsePayload, NotificationPayload,
}

pub data MainError : Type 0 where
  config : String → MainError
  io : IoError → MainError
  supervisor : SupervisorError → MainError

pub record LeaseRecord : Type 0 where
  pub lease : ControllerLease
  pub view_id : String

-- `InterruptedTurnKey`: a session and a turn, in the derived order.
abbrev pub InterruptedTurnKey : Type 0
InterruptedTurnKey = String × String

pub record ResidentHostCommand : Type 0 where
  pub id : ℕ
  pub method : String
  pub params : Json

pub record CommandOutcome : Type 0 where
  pub frames : List String
  pub exit_code : Option ℕ

-- `CommandOutcome::frame`.
abbrev pub frame_outcome : String → CommandOutcome
frame_outcome line = record { frames = line ∷ []; exit_code = none }

pub record SessionEventSpec : Type 0 where
  pub seq : ℕ
  pub message_id : String
  pub correlation_id : Option String
  pub generation_id : String
  pub session_id : Option String
  pub turn_id : Option String
  pub kind : String
  pub payload : Json

-- What is written as one line of output.
pub data Frame : Type 0 where
  response : Envelope ResponsePayload → Frame
  notification : Envelope NotificationPayload → Frame

-- One run of the pinned DSH runtime.
pub record RuntimeCall : Type 0 where
  pub executable : String
  pub prompt : String
  pub workspace : String
  pub dsh_home : String
  pub api_key : String
  pub base_url : String

pub data RuntimeOutput : Type 0 where
  -- The exit status is success or not; `stdout` is an error where it is not UTF-8.
  exited : (success : Bool) → (stdout : Result String String) → (stderr : String) → RuntimeOutput
  not_spawned : String → RuntimeOutput

-- What is not in the repository: serde_json and its derived formats, the child process of a coding
-- turn, which may change the disk, `str::trim`, and the contract hash that the build includes. Errors
-- are their texts.
pub record Environment : Type 0 where
  pub frame_text : Frame → Result String String
  pub value_text : Json → String
  pub read_value : String → Result String Json
  pub read_command : String → Result String (Envelope CommandPayload)
  pub read_host_command : String → Result String ResidentHostCommand
  pub ledger_text : List InterruptedTurnKey → Result String String
  pub read_ledger : String → Result String (List InterruptedTurnKey)
  pub run_runtime : RuntimeCall → Files → RuntimeOutput × Files
  pub trim : String → String
  pub build_hash : String

-- The supervisor component, as the driver uses it; it acts on the driver's file system.
pub record SupervisorApi (Sup : Type 0) : Type 0 where
  pub validate_runtime_layout :
      Sup → List String → Files → Result SupervisorError (Unit {0}) × Files
  pub initialize :
      Sup → InitializeRequest → Files → Result SupervisorError InitializeResult × Sup × Files

-- `StdioDriver`, with the file system that it writes to. Its `redaction` field is used only through
-- `redact_text`, which reads no field of the policy.
pub record Driver (Sup : Type 0) : Type 0 where
  pub supervisor : Sup
  pub platform : PlatformTarget
  pub lifecycle : LifecycleMachine
  pub crash_token : Option String
  pub controller_leases : List (String × LeaseRecord)
  pub interrupted_turns_path : String
  pub interrupted_turns : List InterruptedTurnKey
  pub runtime_executable : String
  pub dsh_home : String
  pub next_lease_id : ℕ  -- u64, wraps
  pub next_wire_error_id : ℕ  -- u64, saturates
  pub initialized : Bool
  pub disk : Files
