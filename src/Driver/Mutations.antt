-- ===== src/Driver/Mutations.antt =====
-- crates/supervisor/src/main.rs: commands that need the controller lease of their session.
pub mod Unheld
use aiohub_plugin_dsh_worksp.Prelude.{
  String, Bool, true, false, not, Option, none, some, [], ◌∷◌, Result, ok, ◌>>=◌, str_eq,
  if◌then◌else◌,
}
use aiohub_plugin_dsh_worksp.Prelude.Text.{format}
use aiohub_plugin_dsh_worksp.Ordered.{get}
use aiohub_plugin_dsh_worksp.Ordered.Order.{text_ord}
use aiohub_plugin_dsh_worksp.Json.{str, json}
use aiohub_plugin_dsh_worksp.Protocol.Session.{LeaseMode, controller, observer, accepted}
use aiohub_plugin_dsh_worksp.Protocol.Envelope.{Envelope, CommandPayload, ResponsePayload}
use aiohub_plugin_dsh_worksp.Driver.State.{
  Environment, Driver, LeaseRecord, MainError, CommandOutcome,
}
use aiohub_plugin_dsh_worksp.Driver.Frames.{
  current_generation, session_event_frame, response_frame, reject_command,
}

-- A rejection in place of what would follow.
abbrev pub or_rejected :
    Option CommandOutcome → Result MainError CommandOutcome → Result MainError CommandOutcome
or_rejected none r = r
or_rejected (some rejected) r = ok rejected

module _ {Sup : Type 0} where
  module _ ⦃env : Environment⦄ where
    -- A lease that is missing or another than the active one: the rejection that answers it.
    lease_error :
        Option LeaseRecord
        → Driver Sup
        → Envelope CommandPayload
        → String
        → String
        → Option String
        → Result MainError (Option CommandOutcome)
    lease_error none d e session_id lease_id turn_id = do
      rejected ←
          reject_command d e (some session_id) (some lease_id) turn_id "unknown-lease"
            "no controller lease exists for the requested session"
      ok (some rejected)
    lease_error (some active) d e session_id lease_id turn_id =
        if not (str_eq active.lease.lease_id lease_id)
        then (do
          rejected ←
              reject_command d e (some session_id) (some lease_id) turn_id "stale-lease"
                "leaseId does not match the active controller lease"
          ok (some rejected))
        else ok none

    unfoldable pub validate_controller_lease :
        Driver Sup
        → Envelope CommandPayload
        → String
        → String
        → Option String
        → Result MainError (Option CommandOutcome)
    unfolding lease_error
    validate_controller_lease d e session_id lease_id turn_id =
        lease_error (get session_id d.controller_leases) d e session_id lease_id turn_id

    accept :
        Driver Sup
        → Envelope CommandPayload
        → String
        → String
        → Option String
        → String
        → Result MainError CommandOutcome
    accept d e session_id lease_id turn_id event_kind = do
      answer ← response_frame d e (ResponsePayload.session (accepted (record { accepted = true })))
      event ← session_event_frame (record {
        seq = e.seq;
        message_id = format (event_kind ∷ "-" ∷ session_id ∷ []);
        correlation_id = e.correlation_id;
        generation_id = current_generation d;
        session_id = some session_id;
        turn_id = turn_id;
        kind = event_kind;
        payload = json (("leaseId", str lease_id) ∷ []);
      })
      ok (record { frames = answer ∷ event ∷ []; exit_code = none })

    unfoldable pub handle_accepting_mutation :
        Driver Sup
        → Envelope CommandPayload
        → String
        → String
        → Option String
        → String
        → Result MainError CommandOutcome
    unfolding accept validate_controller_lease
    handle_accepting_mutation d e session_id lease_id turn_id event_kind = do
      rejected ← validate_controller_lease d e session_id lease_id turn_id
      or_rejected rejected (accept d e session_id lease_id turn_id event_kind)
