-- ===== src/Supervisor/Startup/Refused.antt =====
-- What a refused initialisation does to the plugin's data.
use aiohub_plugin_dsh_worksp.Prelude.{
  String, true, false, none, [], Result, ok, err, map_err, ◌≡◌, refl, ap, sym, ◌∙◌, subst, ◌>>=◌,
}
use aiohub_plugin_dsh_worksp.Files.{Files, IoError, read, within, found, continue, check}
use aiohub_plugin_dsh_worksp.Home.{create, layout_of}
use aiohub_plugin_dsh_worksp.Home.Removed.{calm, created, there, removed}
use aiohub_plugin_dsh_worksp.Process.{ProcessOs}
use aiohub_plugin_dsh_worksp.Protocol.Initialize.{
  InitializeRequest, InitializeResult, ProtocolError,
}
use aiohub_plugin_dsh_worksp.Protocol.Negotiation.{negotiate_initialize}
use aiohub_plugin_dsh_worksp.Protocol.Negotiation.Symmetry.{negotiate_self}
use aiohub_plugin_dsh_worksp.Runtime.{
  RuntimeTree, ValidatedRuntime, target_platform, validate, check_lock, io, lock,
}
use aiohub_plugin_dsh_worksp.Supervisor.{
  SupervisorConfig, SupervisorError, protocol, World, default_flags, default_state, starting,
  set_owner,
}
use aiohub_plugin_dsh_worksp.Supervisor.Startup.{
  validate_config, local_initialize_request, execute_startup_transaction, startup_transaction,
  rollback_startup, answered, initialize, fail_if, spawn_child, terminate_child, remove_home,
  close_startup,
}

-- A world whose state is not poisoned, and whose disk works.
abbrev calm_world : {W : Type 0} → World W → World W
calm_world w = record w {
  supervisor = record w.supervisor { poisoned = false };
  disk = calm w.disk;
}

calm_is :
    {W : Type 0} (w : World W)
    → w.supervisor.poisoned ≡ false
    → w.disk.faults ≡ []
    → calm_world w ≡ w
calm_is w sound quiet =
    ap (λ b. record w { supervisor = record w.supervisor { poisoned = b }; disk = calm w.disk })
      (sym sound)
    ∙ ap (λ f. record w { disk = record w.disk { faults = f } }) (sym quiet)

module _ ⦃tree : RuntimeTree⦄ where
  validate-calm :
      (path : String) (s : Files) (c : SupervisorConfig)
      → (validate path c.platform (calm s)).1 ≡ calm s
  unfolding validate read
  validate-calm path s c = go (found (s.contents path))
    where
      go :
          (r : Result IoError String)
          → (continue
              (map_err io r)
              (λ raw. check (map_err lock (tree.read_lock raw) >>= check_lock c.platform))
              (calm s)).1
            ≡ calm s
      go (ok raw) = refl
      go (err e) = refl

self_agreed :
    (c : SupervisorConfig)
    → (r : InitializeResult) × (negotiate_initialize
          (local_initialize_request c)
          (local_initialize_request c)
        ≡ ok r)
unfolding local_initialize_request
self_agreed c = negotiate_self (local_initialize_request c) refl

module _ {W : Type 0} where
  -- The data is gone, and the supervisor is as it was made.
  abbrev pub Wiped :
      ProtocolError → String → Result SupervisorError InitializeResult × World W → Type 0
  Wiped e path (r, w) =
      (r ≡ err (protocol e)) × (w.supervisor.state ≡ default_state) × (w.disk.contents path ≡ none)

module _ {W : Type 0} ⦃os : ProcessOs W⦄ ⦃tree : RuntimeTree⦄ where
  executed :
      (w : World W) (c : SupervisorConfig) (v : ValidatedRuntime)
      → validate_config c ≡ ok tt
      → (validate c.runtime_lock_path c.platform (calm w.disk)).0 ≡ ok v
      → execute_startup_transaction c default_flags (calm_world w) ≡ (
        ok (layout_of c.plugin_data_dir, none),
        record (calm_world w) { disk = (create c.plugin_data_dir (calm w.disk)).1 },
      )
  unfolding execute_startup_transaction fail_if spawn_child
  executed w c v proper valid =
      let (made, same, quiet, dirs) = created c.plugin_data_dir w.disk in
      let (r, agreed) = self_agreed c in
      rw (proper, valid, validate-calm c.runtime_lock_path w.disk c, made, agreed) refl

  wiped :
      (w : World W) (request : InitializeRequest) (v : ValidatedRuntime) (e : ProtocolError)
      (path : String)
      → validate_config w.supervisor.config ≡ ok tt
      → (validate w.supervisor.config.runtime_lock_path w.supervisor.config.platform
          (calm w.disk)).0
        ≡ ok v
      → negotiate_initialize (local_initialize_request w.supervisor.config) request ≡ err e
      → within w.supervisor.config.plugin_data_dir path ≡ true
      → Wiped e path (initialize request (calm_world w))
  unfolding initialize startup_transaction close_startup answered rollback_startup terminate_child
      remove_home layout_of
  wiped w request v e path proper valid refused below =
      let dir = w.supervisor.config.plugin_data_dir in
      let (made, same, quiet, dirs) = created dir w.disk in
      let (done, gone) =
        removed (layout_of dir) (create dir (calm w.disk)).1 path quiet (there dir w.disk) below in
      (
        rw (executed (set_owner starting w) w.supervisor.config v proper valid, refused, done) refl,
        rw (executed (set_owner starting w) w.supervisor.config v proper valid, refused, done) refl,
        rw (executed (set_owner starting w) w.supervisor.config v proper valid, refused, done) gone,
      )

  -- On a disk that works, with a configuration and a runtime that are accepted and a state that is not
  -- poisoned, a request that cannot be agreed on is answered by that error, puts the supervisor's state
  -- back to the start, and removes every file at or below the plugin's data directory, whoever wrote it.
  pub refused_wipes :
      (w : World W) (request : InitializeRequest) (v : ValidatedRuntime) (e : ProtocolError)
      (path : String)
      → w.supervisor.poisoned ≡ false
      → w.disk.faults ≡ []
      → validate_config w.supervisor.config ≡ ok tt
      → (validate w.supervisor.config.runtime_lock_path w.supervisor.config.platform w.disk).0
        ≡ ok v
      → negotiate_initialize (local_initialize_request w.supervisor.config) request ≡ err e
      → within w.supervisor.config.plugin_data_dir path ≡ true
      → Wiped e path (initialize request w)
  refused_wipes w request v e path sound quiet proper valid refused below =
      subst (λ u. Wiped e path (initialize request u)) (calm_is w sound quiet)
        (wiped w request v e path proper
          (subst
            (λ (u : World W).
              (validate w.supervisor.config.runtime_lock_path w.supervisor.config.platform u.disk).0
              ≡ ok v)
            (sym (calm_is w sound quiet)) valid)
          refused below)
