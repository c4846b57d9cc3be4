-- ===== src/Supervisor/Api.antt =====
-- The supervisor behind the interface that the driver uses.
use aiohub_plugin_dsh_worksp.Prelude.{Result}
use aiohub_plugin_dsh_worksp.Files.{Files}
use aiohub_plugin_dsh_worksp.Process.{ProcessOs}
use aiohub_plugin_dsh_worksp.Protocol.Initialize.{InitializeRequest, InitializeResult}
use aiohub_plugin_dsh_worksp.Runtime.{RuntimeTree}
use aiohub_plugin_dsh_worksp.Supervisor.{Supervisor, SupervisorError, World}
use aiohub_plugin_dsh_worksp.Supervisor.Startup.{initialize, validate_runtime_layout}
use aiohub_plugin_dsh_worksp.Driver.State.{SupervisorApi}

-- A supervisor with the state of the processes beside it.
pub record Running (W : Type 0) : Type 0 where
  pub supervisor : Supervisor
  pub os : W

module _ {W : Type 0} ⦃os : ProcessOs W⦄ ⦃tree : RuntimeTree⦄ where
  unfoldable pub initialize_running :
      Running W
      → InitializeRequest
      → Files
      → Result SupervisorError InitializeResult × Running W × Files
  initialize_running s request disk =
      let world : World W = record { supervisor = s.supervisor; os = s.os; disk = disk } in
      let (r, w) = initialize request world in
      (r, record { supervisor = w.supervisor; os = w.os }, w.disk)

  instance pub supervisor_api : SupervisorApi (Running W)
  supervisor_api = record {
    validate_runtime_layout =
        λ s files disk. validate_runtime_layout s.supervisor.config files disk;
    initialize = initialize_running;
  }
