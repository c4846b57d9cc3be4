-- ===== src/Driver/Frames.antt =====
-- crates/supervisor/src/main.rs: the frames that the driver writes. A frame that cannot be
-- serialised is a `MainError::Config`.
pub use aiohub_plugin_dsh_worksp.Runtime.{dsh_contract_hash}
use aiohub_plugin_dsh_worksp.Prelude.{
  ℕ, String, false, Option, none, some, [], ◌∷◌, Result, ok, err, map_err, ◌>>=◌, unwrap_or,
}
use aiohub_plugin_dsh_worksp.Prelude.Text.{format}
use aiohub_plugin_dsh_worksp.Json.{Json, null, str, json}
use aiohub_plugin_dsh_worksp.Redaction.{redact_text}
use aiohub_plugin_dsh_worksp.Protocol.Initialize.{current_protocol_version}
use aiohub_plugin_dsh_worksp.Protocol.Session.{LeaseMode, controller, observer, accepted, event}
use aiohub_plugin_dsh_worksp.Protocol.Envelope.{
  Envelope, CommandPayload, ResponsePayload, NotificationPayload, RuntimeState,
}
use aiohub_plugin_dsh_worksp.Driver.State.{
  Environment, Driver, MainError, config, CommandOutcome, frame_outcome, SessionEventSpec, response,
  notification,
}

abbrev pub opt : Option String → Json
opt none = null
opt (some s) = str s

-- The derived `Serialize` of `LeaseMode`.
abbrev pub mode_json : LeaseMode → Json
mode_json controller = str "controller"
mode_json observer = str "observer"

abbrev pub framed : Result MainError String → Result MainError CommandOutcome
framed (ok line) = ok (frame_outcome line)
framed (err e) = err e

module _ {Sup : Type 0} where
  unfoldable pub current_generation : Driver Sup → String
  current_generation d = unwrap_or d.lifecycle.domain_generation_id "connection-stopped"

module _ ⦃env : Environment⦄ where
  unfoldable pub session_event_frame : SessionEventSpec → Result MainError String
  session_event_frame e = map_err config (
      env.frame_text (
        notification (record {
          protocol_version = current_protocol_version;
          contract_hash = dsh_contract_hash;
          domain_generation_id = e.generation_id;
          seq = e.seq;
          message_id = e.message_id;
          correlation_id = e.correlation_id;
          payload = NotificationPayload.session (
              event (record {
                kind = e.kind;
                session_id = e.session_id;
                turn_id = e.turn_id;
                payload = e.payload;
              }));
        })))

  unfoldable pub error_event_frame :
      ℕ → String → Option String → String → String → String → Result MainError String
  error_event_frame seq message_id correlation_id generation_id code message =
      session_event_frame (record {
        seq = seq;
        message_id = message_id;
        correlation_id = correlation_id;
        generation_id = generation_id;
        session_id = none;
        turn_id = none;
        kind = "error";
        payload = json (("code", str code) ∷ ("message", str (redact_text message)) ∷ []);
      })

  unfoldable pub state_frame :
      ℕ → String → Option String → String → RuntimeState → Result MainError String
  state_frame seq message_id correlation_id generation_id state = map_err config (
      env.frame_text (
        notification (record {
          protocol_version = current_protocol_version;
          contract_hash = dsh_contract_hash;
          domain_generation_id = generation_id;
          seq = seq;
          message_id = message_id;
          correlation_id = correlation_id;
          payload = NotificationPayload.state (record { state = state });
        })))

  unfoldable pub response_frame_with_generation :
      ℕ → String → Option String → String → ResponsePayload → Result MainError String
  response_frame_with_generation seq message_id correlation_id generation_id payload =
      map_err config (
        env.frame_text (
          response (record {
            protocol_version = current_protocol_version;
            contract_hash = dsh_contract_hash;
            domain_generation_id = generation_id;
            seq = seq;
            message_id = message_id;
            correlation_id = correlation_id;
            payload = payload;
          })))

  module _ {Sup : Type 0} where
    unfoldable pub response_frame :
        Driver Sup → Envelope CommandPayload → ResponsePayload → Result MainError String
    response_frame d e payload =
        response_frame_with_generation e.seq (format (e.message_id ∷ ":response" ∷ []))
          e.correlation_id (current_generation d) payload

    -- The answer `accepted: false`, and an event that says why.
    unfoldable pub reject_command :
        Driver Sup
        → Envelope CommandPayload
        → Option String
        → Option String
        → Option String
        → String
        → String
        → Result MainError CommandOutcome
    reject_command d e session_id lease_id turn_id code message = do
      answer ← response_frame d e (ResponsePayload.session (accepted (record { accepted = false })))
      reason ← session_event_frame (record {
        seq = e.seq;
        message_id = format (e.message_id ∷ ":rejected" ∷ []);
        correlation_id = e.correlation_id;
        generation_id = current_generation d;
        session_id = session_id;
        turn_id = turn_id;
        kind = "command-rejected";
        payload = json (
            ("code", str code)
            ∷ ("message", str (redact_text message))
            ∷ ("leaseId", opt lease_id)
            ∷ ("receivedDomainGenerationId", str e.domain_generation_id)
            ∷ []);
      })
      ok (record { frames = answer ∷ reason ∷ []; exit_code = none })
