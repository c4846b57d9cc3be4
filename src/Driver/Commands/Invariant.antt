-- ===== src/Driver/Commands/Invariant.antt =====
-- What every command of the driver keeps.
use aiohub_plugin_dsh_worksp.Prelude.{String, true, ◌≡◌, refl, ap, ◌∙◌, if-cases, Result, ok, err}
use aiohub_plugin_dsh_worksp.Protocol.Initialize.{InitializeRequest, InitializeResult}
use aiohub_plugin_dsh_worksp.Protocol.Envelope.{
  Envelope, CommandPayload, initialize, ping, shutdown, session, interaction,
}
use aiohub_plugin_dsh_worksp.Driver.State.{
  Environment, SupervisorApi, Driver, SupervisorError, MainError, CommandOutcome,
}
use aiohub_plugin_dsh_worksp.Driver.Leases.Table.{IsTable-nil}
use aiohub_plugin_dsh_worksp.Driver.Leases.Exclusive.{HasRoom, HasTable, start_of}
use aiohub_plugin_dsh_worksp.Driver.Sessions.Gates.{session-HasTable, session-start}
use aiohub_plugin_dsh_worksp.Driver.Commands.{
  concluded, handle_initialize, handle_shutdown, by_payload, handle_command,
}

module _ ⦃env : Environment⦄ {Sup : Type 0} where
  concluded-HasTable :
      (r : Result SupervisorError InitializeResult) (e : Envelope CommandPayload) (g : String)
      (d : Driver Sup)
      → HasTable d
      → HasTable (concluded r e g d).1
  unfolding concluded
  concluded-HasTable (ok result) e g d t = t
  concluded-HasTable (err e') e g d t = t

module _ ⦃env : Environment⦄ {Sup : Type 0} ⦃api : SupervisorApi Sup⦄ where
  initialize-HasTable :
      (e : Envelope CommandPayload) (request : InitializeRequest) (d : Driver Sup)
      → HasTable d
      → HasTable (handle_initialize e request d).1
  unfolding handle_initialize
  initialize-HasTable e request d t =
      if-cases (λ (x : Result MainError CommandOutcome × Driver Sup). HasTable x.1) d.initialized _
        _ (λ h. t) (λ h. concluded-HasTable _ e _ _ t)

  payload-HasTable :
      (p : CommandPayload) (e : Envelope CommandPayload) (d : Driver Sup)
      → HasRoom d
      → HasTable d
      → HasTable (by_payload p e d).1
  unfolding by_payload handle_shutdown
  payload-HasTable (initialize request) e d room t = initialize-HasTable e request d t
  payload-HasTable ping e d room t = t
  payload-HasTable (shutdown request) e d room t = IsTable-nil d.next_lease_id
  payload-HasTable (session command) e d room t = session-HasTable d e command room t
  payload-HasTable (interaction r) e d room t = t

  -- Every command, on every branch and under any faults, keeps the table of controller leases sound
  -- while the count of leases is below the end of `u64`: each entry stands at its own session, lets
  -- it be controlled and carries a lease that was counted, and no two sessions share a lease.
  pub handle_command-HasTable :
      (e : Envelope CommandPayload) (d : Driver Sup)
      → HasRoom d
      → HasTable d
      → HasTable (handle_command e d).1
  unfolding handle_command
  handle_command-HasTable e d room t = payload-HasTable e.payload e d room t

  pub initialize-start :
      (e : Envelope CommandPayload) (request : InitializeRequest) (d : Driver Sup)
      → d.initialized ≡ true
      → start_of (handle_initialize e request d).1 ≡ start_of d
  unfolding handle_initialize
  initialize-start e request d h = rw h

  payload-start :
      (p : CommandPayload) (e : Envelope CommandPayload) (d : Driver Sup)
      → d.initialized ≡ true
      → start_of (by_payload p e d).1 ≡ start_of d
  unfolding by_payload handle_shutdown
  payload-start (initialize request) e d h = initialize-start e request d h
  payload-start ping e d h = refl
  payload-start (shutdown request) e d h = refl
  payload-start (session command) e d h = session-start d e command
  payload-start (interaction r) e d h = refl

  pub command-start :
      (e : Envelope CommandPayload) (d : Driver Sup)
      → d.initialized ≡ true
      → start_of (handle_command e d).1 ≡ start_of d
  unfolding handle_command
  command-start e d h = payload-start e.payload e d h

  -- Initialisation happens once: after it, no command, another `initialize` included, undoes it or
  -- changes the supervisor.
  initialized_once :
      (e : Envelope CommandPayload) (d : Driver Sup)
      → d.initialized ≡ true
      → ((handle_command e d).1.initialized ≡ true)
        × ((handle_command e d).1.supervisor ≡ d.supervisor)
  unfolding handle_command
  initialized_once e d h = (
    ap (λ x. x.0) (payload-start e.payload e d h) ∙ h,
    ap (λ x. x.1) (payload-start e.payload e d h),
  )
