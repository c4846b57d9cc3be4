-- ===== src/Supervisor/Serve.antt =====
-- crates/supervisor/src/supervisor.rs: the supervisor's own loop over lines of input.
use aiohub_plugin_dsh_worksp.Prelude.{
  String, Option, none, some, List, [], ◌∷◌, ◌++◌, Result, ok, err, map_err,
}
use aiohub_plugin_dsh_worksp.Files.{IoError, check, throw, pure, ◌>>=◌}
use aiohub_plugin_dsh_worksp.Process.{ProcessOs}
use aiohub_plugin_dsh_worksp.Protocol.Initialize.{InitializeResult}
use aiohub_plugin_dsh_worksp.Protocol.Envelope.{
  Envelope, CommandPayload, initialize, ping, shutdown, session, interaction, ResponsePayload,
}
use aiohub_plugin_dsh_worksp.Runtime.{RuntimeTree, dsh_contract_hash}
use aiohub_plugin_dsh_worksp.Supervisor.{SupervisorError, protocol, frame, io, startup, World, Run}
use aiohub_plugin_dsh_worksp.Supervisor.Startup
use aiohub_plugin_dsh_worksp.Driver.State.{Environment, response}

pub data HandleOutcome : Type 0 where
  write : String → HandleOutcome
  exit : HandleOutcome

module _ {W : Type 0} where
  -- The response to an initialisation: an error of the protocol is one, another ends the loop.
  answer_initialize :
      Result SupervisorError InitializeResult × World W
      → Result SupervisorError ResponsePayload × World W
  answer_initialize (ok result, w) = (ok (ResponsePayload.initialize result), w)
  answer_initialize (err (protocol e), w) = (ok (ResponsePayload.error e), w)
  answer_initialize (err e, w) = (err e, w)

module _ {W : Type 0} ⦃os : ProcessOs W⦄ ⦃tree : RuntimeTree⦄ where
  answer : Envelope CommandPayload → CommandPayload → Run W (Option ResponsePayload)
  unfolding answer_initialize
  answer e ping w = pure (some (ResponsePayload.pong (record { seq = e.seq }))) w
  answer e (shutdown request) w = pure none w
  answer e (initialize request) w =
      ((λ v. answer_initialize (Startup.initialize request v)) >>= λ r. pure (some r)) w
  answer e (session command) w = throw (startup "unimplemented-command") w
  answer e (interaction r) w = throw (startup "unimplemented-command") w

module _ {W : Type 0} ⦃env : Environment⦄ where
  reply : Envelope CommandPayload → Option ResponsePayload → Run W HandleOutcome
  reply e none = pure exit
  reply e (some payload) =
      check (
        map_err frame (
          env.frame_text (
            response (record {
              protocol_version = record { major = 1; minor = 0 };
              contract_hash = dsh_contract_hash;
              domain_generation_id = e.domain_generation_id;
              seq = e.seq;
              message_id = e.message_id;
              correlation_id = e.correlation_id;
              payload = payload;
            }))))
      >>= λ text. pure (write text)

module _ {W : Type 0} ⦃os : ProcessOs W⦄ ⦃tree : RuntimeTree⦄ ⦃env : Environment⦄ where
  unfoldable pub parse_and_handle : String → Run W HandleOutcome
  unfolding answer reply
  parse_and_handle line = check (map_err frame (env.read_command (env.trim line))) >>= λ e.
      answer e e.payload >>= λ payload. reply e payload

  -- The lines that are read, as far as they come; the lines that are written stand beside the end.
  unfoldable pub run :
      List (Result IoError String)
      → World W
      → (Result SupervisorError (Unit {0}) × List String) × World W
  run [] w = ((ok tt, []), w)
  run (err e ∷ rest) w = ((err (io e), []), w)
  run (ok line ∷ rest) w =
      let (r, v) = parse_and_handle line w in
      elim r [
        | ok (write text) ↦ let ((end, lines), u) = run rest v in ((end, text ∷ lines), u)
        | ok exit ↦ ((ok tt, []), v)
        | err e ↦ ((err e, []), v)
      ]

  unfoldable pub run_step :
      String → List String → World W → (Result SupervisorError (Unit {0}) × List String) × World W
  run_step line output w =
      let (r, v) = parse_and_handle line w in
      elim r [
        | ok (write text) ↦ ((ok tt, output ++ text ∷ []), v)
        | ok exit ↦ ((ok tt, output), v)
        | err e ↦ ((err e, output), v)
      ]
