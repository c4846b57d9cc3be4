-- ===== src/Supervisor/Startup/Settles.antt =====
-- How the startup transaction leaves the supervisor's state.
use aiohub_plugin_dsh_worksp.Prelude.{
  String, Bool, true, false, Option, none, some, Result, ok, err, map_err, ◌≡◌, refl, ap, ◌∙◌,
  if-cases, arith, is_some,
}
use aiohub_plugin_dsh_worksp.Files.{Files, Act, Task, IoError, pure, continue, ◌>>=◌}
use aiohub_plugin_dsh_worksp.Home.{
  DshHomeLayout, HomeError, create, remove, make_all, entries, layout_of,
}
use aiohub_plugin_dsh_worksp.Process.{ProcessOs, ProcessPolicy, ManagedProcess, SpawnSpec}
use aiohub_plugin_dsh_worksp.Protocol.Initialize.{InitializeResult}
use aiohub_plugin_dsh_worksp.Protocol.Negotiation.{negotiate_initialize}
use aiohub_plugin_dsh_worksp.Runtime.{RuntimeTree, target_platform, validate}
use aiohub_plugin_dsh_worksp.Supervisor.{
  SupervisorConfig, StartupFlags, Supervisor, SupervisorError, runtime, home, protocol, startup,
  World, Run, on_disk, on_os, set_owner, starting, ready, stopped,
}
use aiohub_plugin_dsh_worksp.Supervisor.Startup.{
  validate_config, local_initialize_request, terminate_child, spawn_child, fail_if,
  execute_startup_transaction, close_startup, startup_transaction,
}

-- What is claimed of a value, where there is one.
abbrev pub Ok : {E A : Type 0} → (A → Type 0) → Result E A → Type 0
Ok P (ok a) = P a
Ok P (err e) = Unit

-- Code that leaves the supervisor alone; where it succeeds, its result satisfies `P`.
pub record Apart {W A : Type 0} (P : A → Type 0) (m : Run W A) : Type 0 where
  pub apart : (w : World W) → ((m w).1.supervisor ≡ w.supervisor) × Ok P (m w).0

abbrev Any : {A : Type 0} → A → Type 0
Any a = Unit

Ok-Any : {E A : Type 0} (r : Result E A) → Ok Any r
Ok-Any (ok a) = tt
Ok-Any (err e) = tt

module _ {W A B : Type 0} where
  bind-Apart :
      {P : A → Type 0} {Q : B → Type 0} {m : Run W A} {k : A → Run W B}
      → Apart P m
      → ((a : A) → P a → Apart Q (k a))
      → Apart Q (m >>= k)
  bind-Apart {P} {Q} {m} {k} f g = record { apart = λ w. go (m w) (f.apart w) }
    where
      go :
          {s : Supervisor} (x : Result SupervisorError A × World W)
          → (x.1.supervisor ≡ s) × Ok P x.0
          → ((continue x.0 k x.1).1.supervisor ≡ s) × Ok Q (continue x.0 k x.1).0
      go (ok a, v) (e, p) = let (same, q) = (g a p).apart v in (same ∙ e, q)
      go (err bad, v) (e, p) = (e, tt)

module _ {W A : Type 0} where
  check-Apart :
      (P : A → Type 0) (r : Result SupervisorError A) → Ok P r → Apart P (λ (w : World W). (r, w))
  check-Apart P r h = record { apart = λ w. (refl, h) }

  on_disk-Apart :
      {D : Type 0} (P : A → Type 0) (f : D → SupervisorError) (m : Task D A)
      → ((s : Files) → Ok P (m s).0)
      → Apart {W = W} P (on_disk f m)
  on_disk-Apart {D} P f m h = record { apart = λ w. (refl, mapped (m w.disk).0 (h w.disk)) }
    where
      mapped : (r : Result D A) → Ok P r → Ok P (map_err f r)
      mapped (ok a) p = p
      mapped (err e) p = tt

  on_os-Apart : (m : Act W IoError A) → Apart {W = W} Any (on_os m)
  on_os-Apart m = record { apart = λ w. (refl, Ok-Any _) }

create_made : (dir : String) (s : Files) → Ok (λ layout. layout ≡ layout_of dir) (create dir s).0
unfolding create
create_made dir s = go (make_all (entries (layout_of dir)) s)
  where
    go :
        (x : Result HomeError (Unit {0}) × Files)
        → Ok (λ layout. layout ≡ layout_of dir) (continue x.0 (λ done. pure (layout_of dir)) x.1).0
    go (ok done, t) = refl
    go (err e, t) = tt

-- What the transaction puts into the state.
abbrev pub Prepared :
    SupervisorConfig → StartupFlags → DshHomeLayout × Option ManagedProcess → Type 0
Prepared c flags x = (x.0 ≡ layout_of c.plugin_data_dir) × (is_some x.1 ≡ is_some flags.child)

abbrev agreed : SupervisorConfig → Result SupervisorError InitializeResult
agreed c =
    map_err protocol
      (negotiate_initialize (local_initialize_request c) (local_initialize_request c))

module _ {W : Type 0} ⦃os : ProcessOs W⦄ ⦃tree : RuntimeTree⦄ where
  spawn_child-Apart :
      (spec : Option SpawnSpec)
      → Apart {W = W} (λ child. is_some child ≡ is_some spec) (spawn_child spec)
  unfolding spawn_child
  spawn_child-Apart none = check-Apart _ (ok none) refl
  spawn_child-Apart (some spec) =
      bind-Apart (on_os-Apart _) (λ p u. check-Apart _ (ok (some p)) refl)

  terminate_child-Apart :
      (child : Option ManagedProcess) (backend : ProcessPolicy)
      → Apart {W = W} Any (terminate_child child backend)
  unfolding terminate_child
  terminate_child-Apart none backend = check-Apart _ (ok tt) tt
  terminate_child-Apart (some p) backend = on_os-Apart _

  fail_if-Apart :
      (b : Bool) (step : String) (child : Option ManagedProcess) (layout : DshHomeLayout)
      → Apart {W = W} Any (fail_if b step child layout)
  unfolding fail_if
  fail_if-Apart false step child layout = check-Apart _ (ok tt) tt
  fail_if-Apart true step child layout = record {
    apart = λ w.
        (bind-Apart
            (bind-Apart (terminate_child-Apart child w.supervisor.backend)
              (λ u p. on_disk-Apart Any home (remove layout) (λ s. Ok-Any _)))
            (λ u p. check-Apart Any (err (startup step)) tt)).apart
          w;
  }

  execute-Apart :
      (c : SupervisorConfig) (flags : StartupFlags)
      → Apart {W = W} (Prepared c flags) (execute_startup_transaction c flags)
  unfolding execute_startup_transaction
  execute-Apart c flags =
      bind-Apart (check-Apart Any (validate_config c) (Ok-Any (validate_config c))) λ u p.
        bind-Apart
          (on_disk-Apart Any runtime (validate c.runtime_lock_path c.platform)
            (λ s. Ok-Any (validate c.runtime_lock_path c.platform s).0))
          λ u p.
            bind-Apart
              (on_disk-Apart (λ l. l ≡ layout_of c.plugin_data_dir) home (create c.plugin_data_dir)
                (create_made c.plugin_data_dir))
              λ layout same.
                bind-Apart (fail_if-Apart flags.fail_at_credentials "credentials" none layout)
                  λ u p. bind-Apart (spawn_child-Apart flags.child) λ child spawned.
                    bind-Apart
                      (fail_if-Apart flags.fail_at_child_settlement "child-settlement" child layout)
                      λ u p.
                        bind-Apart
                          (fail_if-Apart flags.fail_at_protocol "protocol-initialization" child
                            layout)
                          λ u p. bind-Apart (check-Apart Any (agreed c) (Ok-Any (agreed c))) λ u p.
                            check-Apart (Prepared c flags) (ok (layout, child)) (same, spawned)

-- A startup that succeeds makes the supervisor ready, with the home under the plugin's data
-- directory, and a child if one was asked for; one that fails stops it and changes nothing else of it.
abbrev pub Settled :
    {W : Type 0} → StartupFlags → Supervisor → Result SupervisorError (Unit {0}) × World W → Type 0
Settled flags s (ok done, w) =
    (w.supervisor.state.owner ≡ ready)
    × (w.supervisor.state.home ≡ some (layout_of s.config.plugin_data_dir))
    × (is_some w.supervisor.state.child ≡ is_some flags.child)
    × (w.supervisor.config ≡ s.config)
Settled flags s (err e, w) = w.supervisor ≡ record s { state = record s.state { owner = stopped } }

module _ {W : Type 0} ⦃os : ProcessOs W⦄ ⦃tree : RuntimeTree⦄ where
  closed :
      (flags : StartupFlags) (s : Supervisor)
      (x : Result SupervisorError (DshHomeLayout × Option ManagedProcess) × World W)
      → (x.1.supervisor ≡ record s { state = record s.state { owner = starting } })
        × Ok (Prepared s.config flags) x.0
      → Settled {W = W} flags s (close_startup x)
  unfolding close_startup
  closed flags s (ok (layout, child), w) (same, (at, spawned)) =
      (refl, ap some at, spawned, ap (λ t. t.config) same)
  closed flags s (err e, w) (same, p) =
      ap {A = Supervisor} (λ t. record t { state = record t.state { owner = stopped } }) same

  -- The startup transaction of a supervisor whose state is not poisoned, whatever fails on the way,
  -- ends ready or stopped.
  pub startup_settles :
      (flags : StartupFlags) (w : World W)
      → w.supervisor.poisoned ≡ false
      → Settled flags w.supervisor (startup_transaction flags w)
  unfolding startup_transaction
  startup_settles flags w sound =
      if-cases (λ (x : Result SupervisorError (Unit {0}) × World W). Settled flags w.supervisor x)
        w.supervisor.poisoned _ _ (λ h. absurd (ground arith))
        (λ h.
          closed flags w.supervisor
            (execute_startup_transaction w.supervisor.config flags (set_owner starting w))
            ((execute-Apart w.supervisor.config flags).apart (set_owner starting w)))
