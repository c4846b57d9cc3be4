-- ===== src/Driver/Turns/Outcomes.antt =====
-- crates/supervisor/src/main.rs: the frames that end a turn.
use aiohub_plugin_dsh_worksp.Prelude.{ℕ, String, true, none, some, [], ◌∷◌, Result, ok, ◌>>=◌}
use aiohub_plugin_dsh_worksp.Prelude.Text.{format}
use aiohub_plugin_dsh_worksp.Json.{uint, str, json}
use aiohub_plugin_dsh_worksp.Protocol.Session.{accepted}
use aiohub_plugin_dsh_worksp.Protocol.Envelope.{Envelope, CommandPayload, ResponsePayload, crashed}
use aiohub_plugin_dsh_worksp.Driver.State.{Environment, Driver, MainError, CommandOutcome}
use aiohub_plugin_dsh_worksp.Driver.Frames.{
  framed, current_generation, session_event_frame, error_event_frame, state_frame, response_frame,
}

abbrev pub crash_exit_code : ℕ
crash_exit_code = 86

module _ ⦃env : Environment⦄ {Sup : Type 0} where
  unfoldable pub turn_error :
      Driver Sup
      → Envelope CommandPayload
      → String
      → String
      → String
      → Result MainError CommandOutcome
  turn_error d e turn_id code message = framed (
      error_event_frame e.seq (format ("turn-error-" ∷ turn_id ∷ [])) e.correlation_id
        (current_generation d) code message)

  unfoldable pub turn_completed :
      Driver Sup
      → Envelope CommandPayload
      → String
      → String
      → String
      → String
      → Result MainError CommandOutcome
  turn_completed d e session_id lease_id turn_id output = do
    answer ← response_frame d e (ResponsePayload.session (accepted (record { accepted = true })))
    completed ← session_event_frame (record {
      seq = e.seq;
      message_id = format ("turn-completed-" ∷ turn_id ∷ []);
      correlation_id = e.correlation_id;
      generation_id = current_generation d;
      session_id = some session_id;
      turn_id = some turn_id;
      kind = "turn-completed";
      payload = json (("leaseId", str lease_id) ∷ ("output", str output) ∷ []);
    })
    ok (record { frames = answer ∷ completed ∷ []; exit_code = none })

  -- The two frames after a crash, and the exit code.
  unfoldable pub crash_frames :
      Driver Sup → Envelope CommandPayload → String → String → Result MainError CommandOutcome
  crash_frames d e session_id turn_id = do
    turn_event ← session_event_frame (record {
      seq = e.seq;
      message_id = format ("turn-interrupted-" ∷ turn_id ∷ []);
      correlation_id = e.correlation_id;
      generation_id = current_generation d;
      session_id = some session_id;
      turn_id = some turn_id;
      kind = "turn-interrupted";
      payload = json (("reason", str "crash-inject") ∷ ("replayedEffects", uint 0) ∷ []);
    })
    state ← state_frame e.seq "state:crashed" e.correlation_id (current_generation d) crashed
    ok (record { frames = turn_event ∷ state ∷ []; exit_code = some crash_exit_code })
