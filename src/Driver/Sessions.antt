-- ===== src/Driver/Sessions.antt =====
-- crates/supervisor/src/main.rs: session commands, from their gates to their handlers.
pub mod Gates
use aiohub_plugin_dsh_worksp.Prelude.{
  String, not, Option, none, some, [], ◌∷◌, Result, str_eq, if◌then◌else◌,
}
use aiohub_plugin_dsh_worksp.Prelude.Text.{format}
use aiohub_plugin_dsh_worksp.Protocol.Session.{
  SessionCommand, acquire, transfer_controller, submit_prompt, cancel, steer, snapshot,
  SnapshotRequest,
}
use aiohub_plugin_dsh_worksp.Protocol.Session
use aiohub_plugin_dsh_worksp.Protocol.Envelope.{Envelope, CommandPayload, ResponsePayload}
use aiohub_plugin_dsh_worksp.Driver.State.{Environment, Driver, MainError, CommandOutcome}
use aiohub_plugin_dsh_worksp.Driver.Frames.{
  framed, dsh_contract_hash, current_generation, error_event_frame, response_frame, reject_command,
}
use aiohub_plugin_dsh_worksp.Driver.Step.{Step}
use aiohub_plugin_dsh_worksp.Driver.Leases.{handle_acquire, handle_transfer}
use aiohub_plugin_dsh_worksp.Driver.Mutations.{handle_accepting_mutation}
use aiohub_plugin_dsh_worksp.Driver.Turns.{handle_submit_like}

abbrev pub session_id_for_command : SessionCommand → Option String
session_id_for_command (acquire r) = some r.session_id
session_id_for_command (transfer_controller r) = some r.session_id
session_id_for_command (submit_prompt r) = some r.session_id
session_id_for_command (cancel r) = some r.session_id
session_id_for_command (steer r) = some r.session_id
session_id_for_command (snapshot r) = some r.session_id

abbrev pub lease_id_for_command : SessionCommand → Option String
lease_id_for_command (acquire r) = none
lease_id_for_command (transfer_controller r) = some r.lease_id
lease_id_for_command (submit_prompt r) = some r.lease_id
lease_id_for_command (cancel r) = some r.lease_id
lease_id_for_command (steer r) = some r.lease_id
lease_id_for_command (snapshot r) = none

abbrev pub turn_id_for_command : SessionCommand → Option String
turn_id_for_command (acquire r) = none
turn_id_for_command (transfer_controller r) = none
turn_id_for_command (submit_prompt r) = some r.turn_id
turn_id_for_command (cancel r) = some r.turn_id
turn_id_for_command (steer r) = some r.turn_id
turn_id_for_command (snapshot r) = none

module _ ⦃env : Environment⦄ where
  not_initialized : Envelope CommandPayload → Result MainError CommandOutcome
  not_initialized e = framed (
      error_event_frame e.seq (format (e.message_id ∷ ":error" ∷ [])) e.correlation_id
        e.domain_generation_id "not-initialized" "initialize must complete before session commands")

module _ ⦃env : Environment⦄ {Sup : Type 0} where
  snapshot_answer : Driver Sup → Envelope CommandPayload → SnapshotRequest → Result MainError String
  snapshot_answer d e r = response_frame d e (
      ResponsePayload.session (
        Session.SessionResult.snapshot (record {
          domain_generation_id = current_generation d;
          contract_hash = dsh_contract_hash;
          session_id = r.session_id;
          cursor = "cursor-0";
          seq = e.seq;
          durable_facts = [];
        })))

  unfoldable pub dispatch : Envelope CommandPayload → SessionCommand → Step Sup CommandOutcome
  unfolding snapshot_answer
  dispatch e (acquire r) d = handle_acquire d e r
  dispatch e (transfer_controller r) d =
      handle_transfer d e r.session_id r.lease_id r.target_view_id
  dispatch e (submit_prompt r) d =
      handle_submit_like e r.session_id r.lease_id r.turn_id r.input "submit-prompt" d
  dispatch e (cancel r) d =
      (handle_accepting_mutation d e r.session_id r.lease_id (some r.turn_id) "cancel-requested", d)
  dispatch e (steer r) d = handle_submit_like e r.session_id r.lease_id r.turn_id r.input "steer" d
  dispatch e (snapshot r) d = (framed (snapshot_answer d e r), d)

  stale_generation :
      Driver Sup → Envelope CommandPayload → SessionCommand → Result MainError CommandOutcome
  stale_generation d e command =
      reject_command d e (session_id_for_command command) (lease_id_for_command command)
        (turn_id_for_command command) "stale-generation"
        (format (
          "expected domainGenerationId "
          ∷ current_generation d
          ∷ ", received "
          ∷ e.domain_generation_id
          ∷ []))

  unfoldable pub handle_session_command :
      Envelope CommandPayload → SessionCommand → Step Sup CommandOutcome
  unfolding not_initialized stale_generation
  handle_session_command e command d =
      if not d.initialized
      then (not_initialized e, d)
      else if not (str_eq e.domain_generation_id (current_generation d))
      then (stale_generation d e command, d)
      else dispatch e command d
