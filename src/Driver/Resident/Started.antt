-- ===== src/Driver/Resident/Started.antt =====
-- Resident host commands after initialisation.
use aiohub_plugin_dsh_worksp.Prelude.{
  ℕ, String, true, ◌≡◌, refl, ap, ◌∙◌, if-cases, Result, ok, err, str_eq,
}
use aiohub_plugin_dsh_worksp.Protocol.Initialize.{InitializeRequest}
use aiohub_plugin_dsh_worksp.Protocol.Session.{SessionCommand}
use aiohub_plugin_dsh_worksp.Driver.State.{
  Environment, SupervisorApi, Driver, MainError, CommandOutcome, ResidentHostCommand,
}
use aiohub_plugin_dsh_worksp.Driver.Step
use aiohub_plugin_dsh_worksp.Driver.Step.{Step}
use aiohub_plugin_dsh_worksp.Driver.Leases.Exclusive.{start_of}
use aiohub_plugin_dsh_worksp.Driver.Host.{host_initialize_request, resident_session_command}
use aiohub_plugin_dsh_worksp.Driver.Commands.{handle_shutdown}
use aiohub_plugin_dsh_worksp.Driver.Commands.Invariant.{initialize-start, command-start}
use aiohub_plugin_dsh_worksp.Driver.Resident.{
  wrap_resident_host_outcome, initialize_for, session_for, by_host_method,
  handle_resident_host_command, is_session_method,
}

module _ ⦃env : Environment⦄ {Sup : Type 0} ⦃api : SupervisorApi Sup⦄ where
  initialize_for-start :
      (r : Result MainError InitializeRequest) (id : ℕ) (d : Driver Sup)
      → d.initialized ≡ true
      → start_of (initialize_for r id d).1 ≡ start_of d
  unfolding initialize_for
  initialize_for-start (ok request) id d h = initialize-start _ request d h
  initialize_for-start (err e) id d h = refl

  session_for-start :
      (r : Result String SessionCommand) (id : ℕ) (d : Driver Sup)
      → d.initialized ≡ true
      → start_of (session_for r id d).1 ≡ start_of d
  unfolding session_for
  session_for-start (ok command) id d h = command-start _ d h
  session_for-start (err message) id d h = refl

  by_host_method-start :
      (c : ResidentHostCommand) (d : Driver Sup)
      → d.initialized ≡ true
      → start_of (by_host_method c d).1 ≡ start_of d
  unfolding by_host_method handle_shutdown
  by_host_method-start c d h =
      if-cases (λ (x : Result MainError CommandOutcome × Driver Sup). start_of x.1 ≡ start_of d)
        (str_eq c.method "initialize") _ _
        (λ i. initialize_for-start (host_initialize_request c.params) c.id d h)
        (λ i.
          if-cases (λ (x : Result MainError CommandOutcome × Driver Sup). start_of x.1 ≡ start_of d)
            (str_eq c.method "shutdown") _ _ (λ s. refl)
            (λ s.
              if-cases
                (λ (x : Result MainError CommandOutcome × Driver Sup). start_of x.1 ≡ start_of d)
                (is_session_method c.method) _ _
                (λ k. session_for-start (resident_session_command c.method c.params) c.id d h)
                (λ k. refl)))

  wrapped :
      (x : Result MainError CommandOutcome × Driver Sup) (id : ℕ)
      → (Step.continue x.0
          (λ outcome. Step.asks (λ d. wrap_resident_host_outcome d id outcome))
          x.1).1
        ≡ x.1
  wrapped (ok outcome, d) id = refl
  wrapped (err e, d) id = refl

  pub resident-start :
      (c : ResidentHostCommand) (d : Driver Sup)
      → d.initialized ≡ true
      → start_of (handle_resident_host_command c d).1 ≡ start_of d
  unfolding handle_resident_host_command
  resident-start c d h =
      ap (λ x. start_of x) (wrapped (by_host_method c d) c.id) ∙ by_host_method-start c d h
