-- ===== src/Protocol/Envelope.antt =====
-- crates/protocol/src/messages.rs: the payloads of each direction, and the envelope round them.
use aiohub_plugin_dsh_worksp.Prelude.{ℕ, String, Option, none, some, [], ◌∷◌}
use aiohub_plugin_dsh_worksp.Prelude.Text.{format, dec}
use aiohub_plugin_dsh_worksp.Protocol.Initialize.{
  ProtocolVersion, current_protocol_version, InitializeRequest, InitializeResult, ProtocolError,
  ShutdownRequest, ShutdownResult, PongResult,
}
use aiohub_plugin_dsh_worksp.Protocol.Session.{SessionCommand, SessionResult, SessionNotification}
use aiohub_plugin_dsh_worksp.Protocol.Interaction.{
  InteractionRequest, InteractionResponse, InteractionResolved,
}

pub data CommandPayload : Type 0 where
  initialize : InitializeRequest → CommandPayload
  ping : CommandPayload
  shutdown : ShutdownRequest → CommandPayload
  session : SessionCommand → CommandPayload
  interaction : InteractionResponse → CommandPayload

pub data ResponsePayload : Type 0 where
  initialize : InitializeResult → ResponsePayload
  pong : PongResult → ResponsePayload
  shutdown : ShutdownResult → ResponsePayload
  session : SessionResult → ResponsePayload
  error : ProtocolError → ResponsePayload

pub data RuntimeState : Type 0 where
  stopped starting ready busy stopping crashed unavailable : RuntimeState

pub record RuntimeStateNotification : Type 0 where
  pub state : RuntimeState

pub record OverloadNotification : Type 0 where
  pub queue : String
  pub dropped_disposable : ℕ

pub record ResyncNotification : Type 0 where
  pub session_id : String
  pub cursor : Option String
  pub reason : String

pub data NotificationPayload : Type 0 where
  state : RuntimeStateNotification → NotificationPayload
  session : SessionNotification → NotificationPayload
  interaction : InteractionRequest → NotificationPayload
  interaction_resolved : InteractionResolved → NotificationPayload
  overload : OverloadNotification → NotificationPayload
  resync : ResyncNotification → NotificationPayload

pub data InteractionPayload : Type 0 where
  request : InteractionRequest → InteractionPayload
  response : InteractionResponse → InteractionPayload
  resolved : InteractionResolved → InteractionPayload

pub record Envelope (T : Type 0) : Type 0 where
  pub protocol_version : ProtocolVersion
  pub contract_hash : String
  pub domain_generation_id : String
  pub seq : ℕ
  pub message_id : String
  pub correlation_id : Option String
  pub payload : T

-- `Envelope::new`. The build's `CONTRACT_HASH` is an argument.
unfoldable pub new : {T : Type 0} → String → String → ℕ → T → Envelope T
new build_hash generation seq payload = record {
  protocol_version = current_protocol_version;
  contract_hash = build_hash;
  domain_generation_id = generation;
  seq = seq;
  message_id = format ("message-" ∷ dec seq ∷ []);
  correlation_id = none;
  payload = payload;
}

unfoldable pub with_correlation_id : {T : Type 0} → Envelope T → String → Envelope T
with_correlation_id e correlation_id = record e { correlation_id = some correlation_id }
