-- ===== src/Driver/Turns/Untouched.antt =====
-- What prompts and steering leave alone: all of the driver but its disk, its ledger and its
-- lifecycle.
use aiohub_plugin_dsh_worksp.Prelude.{
  String, true, false, Option, none, some, List, [], ◌∷◌, ◌≡◌, refl, if-cases, Result, ok, map_err,
  not, ok_or, is_some,
}
use aiohub_plugin_dsh_worksp.Json.{Json}
use aiohub_plugin_dsh_worksp.Json
use aiohub_plugin_dsh_worksp.Files.{Files, create_dir_all}
use aiohub_plugin_dsh_worksp.Lifecycle.{LifecycleMachine, apply}
use aiohub_plugin_dsh_worksp.Lifecycle.Events.{child_exited}
use aiohub_plugin_dsh_worksp.Protocol.Envelope.{Envelope, CommandPayload}
use aiohub_plugin_dsh_worksp.Driver.State.{
  Environment, Driver, MainError, config, CommandOutcome, InterruptedTurnKey, RuntimeCall,
  RuntimeOutput, exited, not_spawned,
}
use aiohub_plugin_dsh_worksp.Driver.Step.{Step}
use aiohub_plugin_dsh_worksp.Driver.Step.Kept.{
  Kept, bind-Kept, lift-Kept, asks-Kept, if-Kept, on_disk-Kept,
}
use aiohub_plugin_dsh_worksp.Prelude.Text.{format}
use aiohub_plugin_dsh_worksp.Driver.Mutations.{validate_controller_lease}
use aiohub_plugin_dsh_worksp.Driver.Turns.Outcomes.{turn_error, turn_completed, crash_frames}
use aiohub_plugin_dsh_worksp.Driver.Ledger.{is_interrupted_turn}
use aiohub_plugin_dsh_worksp.Driver.Ledger.Durable.{record-Kept}
use aiohub_plugin_dsh_worksp.Driver.Turns.{
  is_loopback, required_json_string, turn_ended, run_child, run_turn, handle_coding_turn,
  exit_active, crash_turn, should_crash, submit, or_rejected_with, handle_submit_like,
}

-- A part of the driver that does not depend on those three.
pub record IsApart {Sup X : Type 0} (f : Driver Sup → X) : Type 0 where
  pub disk : (d : Driver Sup) (disk : Files) → f (record d { disk = disk }) ≡ f d
  pub turns :
      (d : Driver Sup) (turns : List InterruptedTurnKey)
      → f (record d { interrupted_turns = turns }) ≡ f d
  pub lifecycle : (d : Driver Sup) (m : LifecycleMachine) → f (record d { lifecycle = m }) ≡ f d

module _ ⦃env : Environment⦄ {Sup X : Type 0} (f : Driver Sup → X) (apart : IsApart f) where
  turn_ended-Kept :
      (o : RuntimeOutput) (e : Envelope CommandPayload) (s l t : String)
      → Kept f (turn_ended o e s l t)
  unfolding turn_ended
  turn_ended-Kept (exited true stdout stderr) e s l t =
      bind-Kept f
        (lift-Kept f
          (map_err (λ m. config (format ("runtime stdout was not UTF-8: " ∷ m ∷ []))) stdout))
        (λ text. asks-Kept f (λ d. turn_completed d e s l t (env.trim text)))
  turn_ended-Kept (exited false stdout stderr) e s l t = record { kept = λ d. refl }
  turn_ended-Kept (not_spawned message) e s l t = record { kept = λ d. refl }

  run_turn-Kept :
      (e : Envelope CommandPayload) (s l t : String) (call : RuntimeCall)
      → Kept f (run_turn e s l t call)
  unfolding run_turn
  run_turn-Kept e s l t call =
      if-Kept f (not (is_loopback call.base_url))
        (asks-Kept f (λ d.
          turn_error d e t "provider-not-loopback" "native release E2E provider must use loopback"))
        (bind-Kept f (on_disk-Kept f apart.disk (create_dir_all call.dsh_home)) (λ made.
          bind-Kept f (on_disk-Kept f apart.disk (create_dir_all call.workspace)) (λ also.
            bind-Kept f (on_disk-Kept f apart.disk (run_child call))
              (λ output. turn_ended-Kept output e s l t))))

  coding_turn-Kept :
      (e : Envelope CommandPayload) (s l t : String) (input : Json)
      → Kept f (handle_coding_turn e s l t input)
  unfolding handle_coding_turn
  coding_turn-Kept e s l t input = record {
    kept = λ d.
        (bind-Kept f (lift-Kept f (required_json_string input "prompt")) (λ prompt.
            bind-Kept f (lift-Kept f (required_json_string input "workspace")) (λ workspace.
              bind-Kept f
                (lift-Kept f (ok_or (Json.get input "provider") (config "missing provider")))
                (λ provider.
                  bind-Kept f (lift-Kept f (required_json_string provider "baseUrl")) (λ base_url.
                    bind-Kept f (lift-Kept f (required_json_string provider "apiKey")) (λ api_key.
                      run_turn-Kept e s l t (record {
                        executable = d.runtime_executable;
                        prompt = prompt;
                        workspace = workspace;
                        dsh_home = d.dsh_home;
                        api_key = api_key;
                        base_url = base_url;
                      }))))))).kept
          d;
  }

  exit_active-Kept : (t : String) → Kept f (exit_active t)
  unfolding exit_active
  exit_active-Kept t = record {
    kept = λ d. apart.lifecycle d (apply d.lifecycle (child_exited (some t))).0;
  }

  crash_turn-Kept : (e : Envelope CommandPayload) (s t : String) → Kept f (crash_turn e s t)
  unfolding crash_turn
  crash_turn-Kept e s t = bind-Kept f (record-Kept f s t apart.disk apart.turns) (λ recorded.
      bind-Kept f (exit_active-Kept t) (λ exited. asks-Kept f (λ d. crash_frames d e s t)))

  submit-Kept :
      (e : Envelope CommandPayload) (s l t : String) (input : Json) (kind : String)
      → Kept f (submit e s l t input kind)
  unfolding submit
  submit-Kept e s l t input kind = record {
    kept = λ d.
        if-cases (λ (x : Result MainError CommandOutcome × Driver Sup). f x.1 ≡ f d)
          (is_interrupted_turn d s t) _ _ (λ h. refl)
          (λ h.
            if-cases (λ (x : Result MainError CommandOutcome × Driver Sup). f x.1 ≡ f d)
              (should_crash d input) _ _ (λ crash. (crash_turn-Kept e s t).kept d)
              (λ calm.
                if-cases (λ (x : Result MainError CommandOutcome × Driver Sup). f x.1 ≡ f d)
                  (is_some (Json.get input "provider")) _ _
                  (λ p. (coding_turn-Kept e s l t input).kept d) (λ p. refl)));
  }

  or_rejected-Kept :
      (o : Option CommandOutcome) (k : Step Sup CommandOutcome)
      → Kept f k
      → Kept f (or_rejected_with o k)
  or_rejected-Kept none k h = h
  or_rejected-Kept (some rejected) k h = lift-Kept f (ok rejected)

  pub handle_submit_like-Kept :
      (e : Envelope CommandPayload) (s l t : String) (input : Json) (kind : String)
      → Kept f (handle_submit_like e s l t input kind)
  unfolding handle_submit_like
  handle_submit_like-Kept e s l t input kind = record {
    kept = λ d.
        (bind-Kept f (lift-Kept f (validate_controller_lease d e s l (some t)))
            (λ rejected. or_rejected-Kept rejected _ (submit-Kept e s l t input kind))).kept
          d;
  }
