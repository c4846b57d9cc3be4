-- ===== src/Driver/Turns.antt =====
-- crates/supervisor/src/main.rs: prompts and steering, which may run a coding turn.
pub mod Outcomes
pub mod Refused
pub mod Untouched
pub mod Replay
use aiohub_plugin_dsh_worksp.Prelude.{
  ℕ, String, Bool, true, false, not, ◌||◌, Option, none, some, [], ◌∷◌, Result, ok, str_eq, map_err,
  ok_or, if◌then◌else◌, is_some,
}
use aiohub_plugin_dsh_worksp.Prelude.Text.{format, starts_with}
use aiohub_plugin_dsh_worksp.Json.{Json, uint, str, as_str, json}
use aiohub_plugin_dsh_worksp.Json
use aiohub_plugin_dsh_worksp.Files.{Io, create_dir_all}
use aiohub_plugin_dsh_worksp.Redaction.{redact_text}
use aiohub_plugin_dsh_worksp.Lifecycle.{apply}
use aiohub_plugin_dsh_worksp.Lifecycle.Events.{child_exited}
use aiohub_plugin_dsh_worksp.Protocol.Session.{accepted}
use aiohub_plugin_dsh_worksp.Protocol.Envelope.{Envelope, CommandPayload, ResponsePayload, crashed}
use aiohub_plugin_dsh_worksp.Driver.State.{
  Environment, Driver, MainError, config, CommandOutcome, frame_outcome, RuntimeCall, RuntimeOutput,
  exited, not_spawned,
}
use aiohub_plugin_dsh_worksp.Driver.Frames.{
  current_generation, session_event_frame, error_event_frame, state_frame, response_frame,
  reject_command,
}
use Outcomes.{turn_error, turn_completed, crash_frames}
use aiohub_plugin_dsh_worksp.Driver.Step.{asks, Step, pure, lift, on_disk, ◌>>=◌, ◌>>◌}
use aiohub_plugin_dsh_worksp.Driver.Mutations.{validate_controller_lease, handle_accepting_mutation}
use aiohub_plugin_dsh_worksp.Driver.Ledger.{is_interrupted_turn, record_interrupted_turn}

abbrev non_empty : Option String → Option String
non_empty none = none
non_empty (some s) = if str_eq s "" then none else some s

abbrev pub text_field : Json → String → Option String
text_field value name = elim (Json.get value name) [ none ↦ none | some v ↦ as_str v ]

unfoldable pub required_json_string : Json → String → Result MainError String
required_json_string value name =
    ok_or (non_empty (text_field value name))
      (config (format ("missing required coding turn field " ∷ name ∷ [])))

abbrev is_text : Option String → String → Bool
is_text none expected = false
is_text (some token) expected = str_eq token expected

abbrev is_loopback : String → Bool
is_loopback url = starts_with "http://127.0.0.1:" url || starts_with "http://localhost:" url

module _ {Sup : Type 0} where
  unfoldable pub should_crash : Driver Sup → Json → Bool
  should_crash d input = elim d.crash_token [
    | none ↦ false
    | some expected ↦ is_text (text_field input "crashToken") expected
  ]

module _ ⦃env : Environment⦄ where
  -- `Command::output`; a child that cannot be spawned is one of its outputs.
  run_child : RuntimeCall → Io RuntimeOutput
  run_child call files = let (output, after) = env.run_runtime call files in (ok output, after)

module _ ⦃env : Environment⦄ {Sup : Type 0} where
  turn_ended :
      RuntimeOutput → Envelope CommandPayload → String → String → String → Step Sup CommandOutcome
  turn_ended (exited true stdout stderr) e session_id lease_id turn_id = do
    text ← lift (map_err (λ m. config (format ("runtime stdout was not UTF-8: " ∷ m ∷ []))) stdout)
    asks (λ d. turn_completed d e session_id lease_id turn_id (env.trim text))
  turn_ended (exited false stdout stderr) e session_id lease_id turn_id =
      asks (λ d. turn_error d e turn_id "runtime-turn-failed" (env.trim (redact_text stderr)))
  turn_ended (not_spawned message) e session_id lease_id turn_id =
      asks (λ d. turn_error d e turn_id "runtime-spawn-failed" message)

  -- The turn itself: its provider is on this machine, and its directories can be made.
  run_turn :
      Envelope CommandPayload → String → String → String → RuntimeCall → Step Sup CommandOutcome
  unfolding turn_ended run_child
  run_turn e session_id lease_id turn_id call =
      if not (is_loopback call.base_url)
      then asks (λ d.
        turn_error d e turn_id "provider-not-loopback"
          "native release E2E provider must use loopback")
      else (do
        on_disk (create_dir_all call.dsh_home)
        on_disk (create_dir_all call.workspace)
        output ← on_disk (run_child call)
        turn_ended output e session_id lease_id turn_id)

  unfoldable pub handle_coding_turn :
      Envelope CommandPayload → String → String → String → Json → Step Sup CommandOutcome
  unfolding run_turn required_json_string
  handle_coding_turn e session_id lease_id turn_id input d =
      (do
        prompt ← lift (required_json_string input "prompt")
        workspace ← lift (required_json_string input "workspace")
        provider ← lift (ok_or (Json.get input "provider") (config "missing provider"))
        base_url ← lift (required_json_string provider "baseUrl")
        api_key ← lift (required_json_string provider "apiKey")
        run_turn e session_id lease_id turn_id (record {
          executable = d.runtime_executable;
          prompt = prompt;
          workspace = workspace;
          dsh_home = d.dsh_home;
          api_key = api_key;
          base_url = base_url;
        }))
        d

  exit_active : String → Step Sup (Unit {0})
  exit_active turn_id d =
      (ok tt, record d { lifecycle = (apply d.lifecycle (child_exited (some turn_id))).0 })

  crash_turn : Envelope CommandPayload → String → String → Step Sup CommandOutcome
  unfolding exit_active
  crash_turn e session_id turn_id = do
    record_interrupted_turn session_id turn_id
    exit_active turn_id
    asks (λ d. crash_frames d e session_id turn_id)

  -- What follows a lease that holds.
  submit :
      Envelope CommandPayload → String → String → String → Json → String → Step Sup CommandOutcome
  unfolding crash_turn
  submit e session_id lease_id turn_id input event_kind d =
      if is_interrupted_turn d session_id turn_id
      then (
        reject_command d e (some session_id) (some lease_id) (some turn_id) "interrupted-turn"
            "turn was already interrupted before completion; retry with a new turnId",
        d,
      )
      else if should_crash d input
      then crash_turn e session_id turn_id d
      else if is_some (Json.get input "provider")
      then handle_coding_turn e session_id lease_id turn_id input d
      else (handle_accepting_mutation d e session_id lease_id (some turn_id) event_kind, d)

  abbrev pub or_rejected_with :
      Option CommandOutcome → Step Sup CommandOutcome → Step Sup CommandOutcome
  or_rejected_with none step = step
  or_rejected_with (some rejected) step = pure rejected

  unfoldable pub handle_submit_like :
      Envelope CommandPayload → String → String → String → Json → String → Step Sup CommandOutcome
  unfolding submit validate_controller_lease
  handle_submit_like e session_id lease_id turn_id input event_kind d =
      (do
        rejected ← lift (validate_controller_lease d e session_id lease_id (some turn_id))
        or_rejected_with rejected (submit e session_id lease_id turn_id input event_kind))
        d
