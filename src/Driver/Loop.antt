-- ===== src/Driver/Loop.antt =====
-- crates/supervisor/src/main.rs: a line of input that is no command, and the main loop. The input is
-- a list of lines or read errors; writing to the output is taken to work.
pub mod Started
use aiohub_plugin_dsh_worksp.Prelude.{
  ℕ, String, Option, none, some, List, [], ◌∷◌, ◌++◌, Result, ok, err, if◌then◌else◌, str_eq,
  unwrap_or, and_then,
}
use aiohub_plugin_dsh_worksp.Prelude.Text.{format, dec}
use aiohub_plugin_dsh_worksp.Words.{saturating_add}
use aiohub_plugin_dsh_worksp.Json.{Json, as_str, as_u64}
use aiohub_plugin_dsh_worksp.Json
use aiohub_plugin_dsh_worksp.Files.{IoError}
use aiohub_plugin_dsh_worksp.Protocol.Envelope.{Envelope, CommandPayload}
use aiohub_plugin_dsh_worksp.Driver.State.{
  Environment, SupervisorApi, Driver, MainError, io, CommandOutcome, ResidentHostCommand,
}
use aiohub_plugin_dsh_worksp.Driver.Frames.{framed, current_generation, error_event_frame}
use aiohub_plugin_dsh_worksp.Driver.Step.{Step}
use aiohub_plugin_dsh_worksp.Driver.Commands.{handle_command}
use aiohub_plugin_dsh_worksp.Driver.Resident.{handle_resident_host_command}

pub record WireFrameContext : Type 0 where
  pub seq : ℕ
  pub message_id : Option String
  pub correlation_id : Option String

context_of : Result String Json → WireFrameContext
context_of (err e) = record { seq = 0; message_id = none; correlation_id = none }
context_of (ok value) = record {
  seq = unwrap_or (and_then (Json.get value "seq") as_u64) 0;
  message_id = and_then (Json.get value "messageId") as_str;
  correlation_id = and_then (Json.get value "correlationId") as_str;
}

module _ ⦃env : Environment⦄ where
  unfoldable pub extract_wire_frame_context : String → WireFrameContext
  unfolding context_of
  extract_wire_frame_context raw = context_of (env.read_value raw)

  module _ {Sup : Type 0} where
    -- The id of an error that names no message, and the counter after it.
    base_message_id : Option String → Driver Sup → String × Driver Sup
    base_message_id (some id) d = (id, d)
    base_message_id none d = (
      format ("wire-error-" ∷ dec d.next_wire_error_id ∷ []),
      record d { next_wire_error_id = saturating_add d.next_wire_error_id 1 },
    )

    unfoldable pub wire_error_frame : String → String → Step Sup String
    unfolding base_message_id
    wire_error_frame raw error d =
        let context = extract_wire_frame_context raw in
        let (base, e) = base_message_id context.message_id d in
        (
          error_event_frame context.seq (format (base ∷ ":error" ∷ [])) context.correlation_id
              (current_generation e) "invalid-command-frame"
              (format ("command frame rejected: " ∷ error ∷ [])),
          e,
        )

-- The exit code or the error of the loop, the lines that it wrote, and the driver.
abbrev pub Ended : Type 0 → Type 0
Ended Sup = (Result MainError ℕ × List String) × Driver Sup

-- After an answer: its frames go out, and an exit code ends the loop.
proceed :
    {Sup : Type 0}
    → Result MainError CommandOutcome × Driver Sup
    → (Driver Sup → Ended Sup)
    → Ended Sup
proceed (err e, d) rest = ((err e, []), d)
proceed (ok outcome, d) rest = elim outcome.exit_code [
  | some code ↦ ((ok code, outcome.frames), d)
  | none ↦ let ((r, lines), last) = rest d in ((r, outcome.frames ++ lines), last)
]

module _ ⦃env : Environment⦄ {Sup : Type 0} ⦃api : SupervisorApi Sup⦄ where
  answer_host : Result String ResidentHostCommand → String → String → Step Sup CommandOutcome
  unfolding wire_error_frame
  answer_host (ok command) line error d = handle_resident_host_command command d
  answer_host (err e) line error d =
      let (r, after) = wire_error_frame line error d in (framed r, after)

  answer : Result String (Envelope CommandPayload) → String → Step Sup CommandOutcome
  unfolding answer_host
  answer (ok command) line d = handle_command command d
  answer (err error) line d = answer_host (env.read_host_command line) line error d

  unfoldable pub answer_line : String → Step Sup CommandOutcome
  unfolding answer
  answer_line line d = answer (env.read_command line) line d

  unfoldable pub run : List (Result IoError String) → Driver Sup → Ended Sup
  unfolding proceed answer_line
  run [] d = ((ok 0, []), d)
  run (err e ∷ rest) d = ((err (io e), []), d)
  run (ok line ∷ rest) d =
      if str_eq (env.trim line) ""
      then run rest d
      else proceed (answer_line (env.trim line) d) (λ after. run rest after)
