-- ===== src/Protocol/Session.antt =====
-- crates/protocol/src/messages.rs: session commands, their results, and runtime events.
use aiohub_plugin_dsh_worksp.Prelude.{ℕ, String, Bool, Option, List}
use aiohub_plugin_dsh_worksp.Json.{Json}

pub data LeaseMode : Type 0 where
  controller observer : LeaseMode

pub record AcquireSessionRequest : Type 0 where
  pub session_id : String
  pub view_id : String
  pub requested_mode : LeaseMode

pub record TransferControllerRequest : Type 0 where
  pub session_id : String
  pub lease_id : String
  pub target_view_id : String

pub record SubmitPromptRequest : Type 0 where
  pub session_id : String
  pub lease_id : String
  pub turn_id : String
  pub input : Json

pub record CancelRequest : Type 0 where
  pub session_id : String
  pub lease_id : String
  pub turn_id : String

pub record SteerRequest : Type 0 where
  pub session_id : String
  pub lease_id : String
  pub turn_id : String
  pub input : Json

pub record SnapshotRequest : Type 0 where
  pub session_id : String
  pub cursor : Option String

pub data SessionCommand : Type 0 where
  acquire : AcquireSessionRequest → SessionCommand
  transfer_controller : TransferControllerRequest → SessionCommand
  submit_prompt : SubmitPromptRequest → SessionCommand
  cancel : CancelRequest → SessionCommand
  steer : SteerRequest → SessionCommand
  snapshot : SnapshotRequest → SessionCommand

pub record ControllerLease : Type 0 where
  pub domain_generation_id : String
  pub contract_hash : String
  pub session_id : String
  pub lease_id : String
  pub mode : LeaseMode

pub record CommandAccepted : Type 0 where
  pub accepted : Bool

pub record RuntimeEvent : Type 0 where
  pub kind : String
  pub session_id : Option String
  pub turn_id : Option String
  pub payload : Json

pub record SessionSnapshot : Type 0 where
  pub domain_generation_id : String
  pub contract_hash : String
  pub session_id : String
  pub cursor : String
  pub seq : ℕ
  pub durable_facts : List RuntimeEvent

pub data SessionResult : Type 0 where
  lease : ControllerLease → SessionResult
  snapshot : SessionSnapshot → SessionResult
  accepted : CommandAccepted → SessionResult

pub data SessionNotification : Type 0 where
  event : RuntimeEvent → SessionNotification
  snapshot : SessionSnapshot → SessionNotification
