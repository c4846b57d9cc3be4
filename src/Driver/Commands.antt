-- ===== src/Driver/Commands.antt =====
-- crates/supervisor/src/main.rs: one command envelope, from its gates to its handler.
pub mod Invariant
use aiohub_plugin_dsh_worksp.Prelude.{
  ℕ, String, true, Option, none, some, List, [], ◌∷◌, ◌++◌, Result, ok, err, ◌>>=◌, if◌then◌else◌,
}
use aiohub_plugin_dsh_worksp.Prelude.Text.{format}
use aiohub_plugin_dsh_worksp.Json.{str, json}
use aiohub_plugin_dsh_worksp.Lifecycle.{apply}
use aiohub_plugin_dsh_worksp.Lifecycle.Events.{demand_start, dsh_quiescent, start_failed}
use aiohub_plugin_dsh_worksp.Platform.{required_runtime_files}
use aiohub_plugin_dsh_worksp.Protocol.Initialize.{InitializeRequest, InitializeResult}
use aiohub_plugin_dsh_worksp.Protocol.Envelope.{
  Envelope, CommandPayload, initialize, ping, shutdown, session, interaction, ResponsePayload,
  stopped, ready,
}
use aiohub_plugin_dsh_worksp.Files.{Files}
use aiohub_plugin_dsh_worksp.Driver.State.{
  Environment, SupervisorApi, Driver, LeaseRecord, SupervisorError, protocol, display, MainError,
  CommandOutcome,
}
use aiohub_plugin_dsh_worksp.Driver.Frames.{
  framed, mode_json, current_generation, session_event_frame, error_event_frame, state_frame,
  response_frame_with_generation, response_frame, reject_command,
}
use aiohub_plugin_dsh_worksp.Driver.Step.{Step}
use aiohub_plugin_dsh_worksp.Driver.Sessions.{handle_session_command}

module _ ⦃env : Environment⦄ where
  -- The leases' releases, in the order of their sessions.
  released :
      String → ℕ → Option String → List (String × LeaseRecord) → Result MainError (List String)
  released generation seq correlation_id [] = ok []
  released generation seq correlation_id ((session_id, r) ∷ rest) = do
    first ← session_event_frame (record {
      seq = seq;
      message_id = format ("shutdown-release-" ∷ session_id ∷ []);
      correlation_id = correlation_id;
      generation_id = generation;
      session_id = some session_id;
      turn_id = none;
      kind = "lease-released";
      payload = json (
          ("leaseId", str r.lease.lease_id)
          ∷ ("mode", mode_json r.lease.mode)
          ∷ ("releasedBy", str "shutdown")
          ∷ ("viewId", str r.view_id)
          ∷ []);
    })
    others ← released generation seq correlation_id rest
    ok (first ∷ others)

  initialize_error :
      SupervisorError → Envelope CommandPayload → String → Result MainError CommandOutcome
  initialize_error (protocol p) e generation = framed (
      response_frame_with_generation e.seq (format (e.message_id ∷ ":response" ∷ []))
        e.correlation_id generation (ResponsePayload.error p))
  initialize_error other e generation = framed (
      error_event_frame e.seq (format (e.message_id ∷ ":error" ∷ [])) e.correlation_id generation
        "initialize-failed" (display other))

module _ ⦃env : Environment⦄ {Sup : Type 0} where
  shutdown_frames : Driver Sup → ℕ → Option String → Result MainError CommandOutcome
  unfolding released
  shutdown_frames d seq correlation_id = do
    releases ← released (current_generation d) seq correlation_id d.controller_leases
    last ← state_frame seq "shutdown:stopped" correlation_id (current_generation d) stopped
    ok (record { frames = releases ++ last ∷ []; exit_code = some 0 })

  unfoldable pub handle_shutdown : ℕ → Option String → Step Sup CommandOutcome
  unfolding shutdown_frames
  handle_shutdown seq correlation_id d =
      (shutdown_frames d seq correlation_id, record d { controller_leases = [] })

  concluded :
      Result SupervisorError InitializeResult
      → Envelope CommandPayload
      → String
      → Step Sup CommandOutcome
  unfolding initialize_error
  concluded (ok result) e generation d = (
    framed (
        state_frame e.seq (format (e.message_id ∷ ":ready" ∷ [])) e.correlation_id generation
          ready),
    record d { initialized = true; lifecycle = (apply d.lifecycle (dsh_quiescent 0 0)).0 },
  )
  concluded (err e') e generation d = (
    initialize_error e' e generation,
    record d { lifecycle = (apply d.lifecycle start_failed).0 },
  )

module _ ⦃env : Environment⦄ {Sup : Type 0} ⦃api : SupervisorApi Sup⦄ where
  initialize_after :
      Sup
      → InitializeRequest
      → Result SupervisorError (Unit {0}) × Files
      → Result SupervisorError InitializeResult × Sup × Files
  initialize_after s request (ok valid, files) = api.initialize s request files
  initialize_after s request (err e, files) = (err e, s, files)

  start_supervisor :
      Driver Sup → InitializeRequest → Result SupervisorError InitializeResult × Sup × Files
  unfolding initialize_after
  start_supervisor d request =
      initialize_after d.supervisor request
        (api.validate_runtime_layout d.supervisor (required_runtime_files d.platform) d.disk)

  unfoldable pub handle_initialize :
      Envelope CommandPayload → InitializeRequest → Step Sup CommandOutcome
  unfolding start_supervisor concluded
  handle_initialize e request d =
      if d.initialized
      then (
        framed (
            error_event_frame e.seq (format (e.message_id ∷ ":error" ∷ [])) e.correlation_id
              e.domain_generation_id "already-initialized"
              "initialize may only succeed once per stdio connection"),
        d,
      )
      else let demanded = record d { lifecycle = (apply d.lifecycle demand_start).0 } in
        let (result, s, files) = start_supervisor demanded request in
        concluded result e (current_generation demanded)
          (record demanded { supervisor = s; disk = files })

  by_payload : CommandPayload → Envelope CommandPayload → Step Sup CommandOutcome
  by_payload (initialize request) e d = handle_initialize e request d
  by_payload ping e d =
      (framed (response_frame d e (ResponsePayload.pong (record { seq = e.seq }))), d)
  by_payload (shutdown request) e d = handle_shutdown e.seq e.correlation_id d
  by_payload (session command) e d = handle_session_command e command d
  by_payload (interaction r) e d = (
    reject_command d e (some r.session_id) (some r.lease_id) none "unsupported-interaction"
        "interaction responses are not available before the bridge is wired",
    d,
  )

  unfoldable pub handle_command : Envelope CommandPayload → Step Sup CommandOutcome
  unfolding by_payload
  handle_command e d = by_payload e.payload e d
