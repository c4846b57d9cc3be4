-- ===== src/Driver/Loop/Started.antt =====
-- The main loop after initialisation.
use aiohub_plugin_dsh_worksp.Prelude.{
  String, true, Option, none, some, List, [], ◌∷◌, ◌≡◌, refl, ap, ◌∙◌, if-cases, Result, ok, err,
  str_eq,
}
use aiohub_plugin_dsh_worksp.Files.{IoError}
use aiohub_plugin_dsh_worksp.Protocol.Envelope.{Envelope, CommandPayload}
use aiohub_plugin_dsh_worksp.Driver.State.{
  Environment, SupervisorApi, Driver, MainError, CommandOutcome, ResidentHostCommand,
}
use aiohub_plugin_dsh_worksp.Driver.Leases.Exclusive.{start_of}
use aiohub_plugin_dsh_worksp.Driver.Commands.Invariant.{command-start}
use aiohub_plugin_dsh_worksp.Driver.Resident.Started.{resident-start}
use aiohub_plugin_dsh_worksp.Driver.Loop.{
  Ended, base_message_id, wire_error_frame, answer_host, answer, answer_line, proceed, run,
}

module _ ⦃env : Environment⦄ {Sup : Type 0} where
  base-start : (o : Option String) (d : Driver Sup) → start_of (base_message_id o d).1 ≡ start_of d
  unfolding base_message_id
  base-start none d = refl
  base-start (some id) d = refl

  wire_error-start :
      (raw error : String) (d : Driver Sup) → start_of (wire_error_frame raw error d).1 ≡ start_of d
  unfolding wire_error_frame
  wire_error-start raw error d = base-start _ d

module _ ⦃env : Environment⦄ {Sup : Type 0} ⦃api : SupervisorApi Sup⦄ where
  answer_host-start :
      (r : Result String ResidentHostCommand) (line error : String) (d : Driver Sup)
      → d.initialized ≡ true
      → start_of (answer_host r line error d).1 ≡ start_of d
  unfolding answer_host
  answer_host-start (ok c) line error d h = resident-start c d h
  answer_host-start (err e) line error d h = wire_error-start line error d

  answer-start :
      (r : Result String (Envelope CommandPayload)) (line : String) (d : Driver Sup)
      → d.initialized ≡ true
      → start_of (answer r line d).1 ≡ start_of d
  unfolding answer
  answer-start (ok c) line d h = command-start c d h
  answer-start (err e) line d h = answer_host-start (env.read_host_command line) line e d h

  proceed-start :
      (x : Result MainError CommandOutcome × Driver Sup) (rest : Driver Sup → Ended Sup)
      (d : Driver Sup)
      → d.initialized ≡ true
      → start_of x.1 ≡ start_of d
      → ((e : Driver Sup) → e.initialized ≡ true → start_of (rest e).1 ≡ start_of e)
      → start_of (proceed x rest).1 ≡ start_of d
  unfolding proceed
  proceed-start (err e, after) rest d h same k = same
  proceed-start (ok outcome, after) rest d h same k =
      elim outcome.exit_code
        as (λ o.
          start_of (proceed (ok (record outcome { exit_code = o }), after) rest).1 ≡ start_of d) [
            | some code ↦ same
            | none ↦ k after (ap (λ x. x.0) same ∙ h) ∙ same
          ]

  run-start :
      (lines : List (Result IoError String)) (d : Driver Sup)
      → d.initialized ≡ true
      → start_of (run lines d).1 ≡ start_of d
  unfolding run answer_line
  run-start [] d h = refl
  run-start (err e ∷ lines) d h = refl
  run-start (ok line ∷ lines) d h =
      if-cases (λ (x : Ended Sup). start_of x.1 ≡ start_of d) (str_eq (env.trim line) "") _ _
        (λ blank. run-start lines d h)
        (λ full.
          proceed-start (answer_line (env.trim line) d) (λ after. run lines after) d h
            (answer-start (env.read_command (env.trim line)) (env.trim line) d h)
            (λ e i. run-start lines e i))

  -- Once the driver is initialised, no input to the main loop, of whatever length, well formed or
  -- not, from a plain or a resident host, undoes it or changes the supervisor.
  pub run_initialized :
      (lines : List (Result IoError String)) (d : Driver Sup)
      → d.initialized ≡ true
      → ((run lines d).1.initialized ≡ true) × ((run lines d).1.supervisor ≡ d.supervisor)
  run_initialized lines d h =
      (ap (λ x. x.0) (run-start lines d h) ∙ h, ap (λ x. x.1) (run-start lines d h))
