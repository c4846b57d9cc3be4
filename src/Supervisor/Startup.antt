-- ===== src/Supervisor/Startup.antt =====
-- crates/supervisor/src/supervisor.rs: the startup transaction, its rollback, and what `initialize`
-- makes of them.
pub mod Settles
pub mod Refused
use aiohub_plugin_dsh_worksp.Prelude.{
  ℕ, String, Bool, true, false, not, Option, none, some, List, [], ◌∷◌, Result, ok, err, map_err,
  ◌==◌, if◌then◌else◌,
}
use aiohub_plugin_dsh_worksp.Prelude.Text.{format, dec}
use aiohub_plugin_dsh_worksp.Files.{Files, check, throw, pure, continue, ◌>>=◌, ◌>>◌}
use aiohub_plugin_dsh_worksp.Home.{DshHomeLayout, create, remove}
use aiohub_plugin_dsh_worksp.Platform.{into_protocol}
use aiohub_plugin_dsh_worksp.Platform
use aiohub_plugin_dsh_worksp.Process.{
  ProcessOs, ProcessPolicy, ManagedProcess, SpawnSpec, spawn, terminate_tree, default_policy,
}
use aiohub_plugin_dsh_worksp.Protocol.Initialize.{
  InitializeRequest, InitializeResult, ProtocolError, partial, restricted_token,
}
use aiohub_plugin_dsh_worksp.Protocol.Negotiation.{negotiate_initialize}
use aiohub_plugin_dsh_worksp.Runtime.{
  RuntimeTree, refuse_if, target_platform, dsh_contract_hash, validate, validate_layout,
}
use aiohub_plugin_dsh_worksp.Supervisor.{
  SupervisorConfig, StartupFlags, default_flags, starting, ready, stopped, SupervisorState,
  default_state, Supervisor, SupervisorError, runtime, home, protocol, config, startup,
  state_poisoned, World, Run, on_disk, on_os, update, set_owner,
}

abbrev pub supervisor_capabilities : List String
supervisor_capabilities = "session" ∷ "snapshot" ∷ []

abbrev pub supported_host_api_version : ℕ
supported_host_api_version = 3

unfoldable pub local_initialize_request : SupervisorConfig → InitializeRequest
local_initialize_request c = record {
  protocol_version = record { major = 1; minor = 0 };
  contract_hash = dsh_contract_hash;
  runtime = record {
    component = "aio-dsh-supervisor";
    version = "0.1.0";
    build_id = "project-built";
    source_revision = none;
  };
  platform = record {
    platform = into_protocol c.platform;
    architecture = Platform.architecture c.platform;
    sandbox = record {
      level = partial;
      backend = restricted_token;
      reason = some "supervisor-bootstrap";
    };
  };
  stable_capabilities = supervisor_capabilities;
  required_stable_capabilities = [];
  experimental_capabilities = [];
}

unfoldable pub validate_config : SupervisorConfig → Result SupervisorError (Unit {0})
validate_config c =
    if not (c.host_api_version == supported_host_api_version)
    then err (config (format ("unsupported host API version " ∷ dec c.host_api_version ∷ [])))
    else if c.telemetry_enabled
    then err (config "telemetry must remain disabled")
    else ok tt

module _ {W : Type 0} ⦃os : ProcessOs W⦄ ⦃tree : RuntimeTree⦄ where
  terminate_child : Option ManagedProcess → ProcessPolicy → Run W (Unit {0})
  terminate_child none backend = pure tt
  terminate_child (some p) backend = on_os (terminate_tree backend p default_policy.terminate_grace)

  spawn_child : Option SpawnSpec → Run W (Option ManagedProcess)
  spawn_child none = pure none
  spawn_child (some spec) = on_os (spawn spec) >>= λ p. pure (some p)

  -- An injected failure: the child is ended, the home removed.
  fail_if : Bool → String → Option ManagedProcess → DshHomeLayout → Run W (Unit {0})
  unfolding terminate_child
  fail_if false step child layout w = pure tt w
  fail_if true step child layout w =
      (terminate_child child w.supervisor.backend
          >> on_disk home (remove layout)
          >> throw (startup step))
        w

  -- `execute_startup_transaction`: the home and the child that it would put into the state.
  unfoldable pub execute_startup_transaction :
      SupervisorConfig → StartupFlags → Run W (DshHomeLayout × Option ManagedProcess)
  unfolding fail_if spawn_child
  execute_startup_transaction c flags = check (validate_config c) >>= λ u.
      on_disk runtime (validate c.runtime_lock_path c.platform) >>= λ u.
      on_disk home (create c.plugin_data_dir) >>= λ layout.
      fail_if flags.fail_at_credentials "credentials" none layout >>= λ u.
      spawn_child flags.child >>= λ child.
      fail_if flags.fail_at_child_settlement "child-settlement" child layout >>= λ u.
      fail_if flags.fail_at_protocol "protocol-initialization" child layout >>= λ u.
      check (
        map_err protocol
          (negotiate_initialize (local_initialize_request c) (local_initialize_request c)))
      >>= λ u. pure (layout, child)

  -- The end of `startup_transaction`.
  unfoldable pub close_startup :
      Result SupervisorError (DshHomeLayout × Option ManagedProcess) × World W
      → Result SupervisorError (Unit {0}) × World W
  close_startup (ok (layout, child), w) =
      (ok tt, update (λ s. record s { owner = ready; home = some layout; child = child }) w)
  close_startup (err e, w) = (err e, set_owner stopped w)

  unfoldable pub startup_transaction : StartupFlags → Run W (Unit {0})
  unfolding close_startup
  startup_transaction flags w =
      if w.supervisor.poisoned
      then (err state_poisoned, w)
      else close_startup
          (execute_startup_transaction w.supervisor.config flags (set_owner starting w))

  remove_home : Option DshHomeLayout → Run W (Unit {0})
  remove_home none = pure tt
  remove_home (some layout) = on_disk home (remove layout)

  -- `rollback_startup`: what is taken out of the state stays out, whatever comes of it.
  unfoldable pub rollback_startup : Run W (Unit {0})
  unfolding terminate_child remove_home
  rollback_startup w =
      if w.supervisor.poisoned
      then (err state_poisoned, w)
      else ((λ v.
              terminate_child w.supervisor.state.child w.supervisor.backend
                (update (λ s. record s { child = none }) v))
            >> (λ v. remove_home v.supervisor.state.home (update (λ s. record s { home = none }) v))
            >> (λ v. (ok tt, set_owner stopped v)))
          w

  -- The answer to a request that was negotiated, or the rollback and its error.
  answered : Result ProtocolError InitializeResult → Run W InitializeResult
  unfolding rollback_startup
  answered (ok result) = pure result
  answered (err e) = rollback_startup >> throw (protocol e)

  unfoldable pub initialize : InitializeRequest → Run W InitializeResult
  unfolding startup_transaction answered
  initialize request w =
      (startup_transaction default_flags
          >> answered (negotiate_initialize (local_initialize_request w.supervisor.config) request))
        w

  -- `Supervisor::new`; on Unix the backend is always created.
  unfoldable pub new : SupervisorConfig → W → Files → Result SupervisorError Supervisor × W × Files
  unfolding startup_transaction
  new c os disk =
      let start : Supervisor = record {
        config = c;
        backend = default_policy;
        state = default_state;
        poisoned = false;
      } in
      let world : World W = record { supervisor = start; os = os; disk = disk } in
      let (r, w) =
        (check (validate_config c)
            >> (if c.prewarm then startup_transaction default_flags else pure tt))
          world in
      elim r [ ok done ↦ (ok w.supervisor, w.os, w.disk) | err e ↦ (err e, w.os, w.disk) ]

module _ ⦃tree : RuntimeTree⦄ where
  unfoldable pub validate_runtime_layout :
      SupervisorConfig → List String → Files → Result SupervisorError (Unit {0}) × Files
  validate_runtime_layout c files s =
      let (r, t) = validate c.runtime_lock_path c.platform s in
      elim r [
        | ok valid ↦ (map_err runtime (validate_layout c.runtime_root files), t)
        | err e ↦ (err (runtime e), t)
      ]
