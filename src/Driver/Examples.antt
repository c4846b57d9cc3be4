-- ===== src/Driver/Examples.antt =====
-- The driver's theorems at a concrete driver: one session, held by one view, and a text format in
-- place of serde's that writes a ledger of one turn of that session.
mod Turns
mod Host
use aiohub_plugin_dsh_worksp.Prelude.{
  String, true, false, Option, none, some, List, [], ◌∷◌, ◌≡◌, refl, sym, ap, ◌∙◌, arith,
  if◌then◌else◌, inl, Result, ok, err, str_eq, str_eq_iff, subst,
}
use aiohub_plugin_dsh_worksp.Prelude.Text.{format, dec}
use aiohub_plugin_dsh_worksp.Words.{from_secs}
use aiohub_plugin_dsh_worksp.Ordered.{get, insert, contains, add}
use aiohub_plugin_dsh_worksp.Ordered.Order.{text_ord, pair_ord, text_lt, pair_lt}
use aiohub_plugin_dsh_worksp.Json.{Json, null, str, json}
use aiohub_plugin_dsh_worksp.Json
use aiohub_plugin_dsh_worksp.Files.{works, head_fault, write, rename, create_dir_all, read}
use aiohub_plugin_dsh_worksp.Paths.{with_extension, parent}
use aiohub_plugin_dsh_worksp.Lifecycle
use aiohub_plugin_dsh_worksp.Platform.{linux_x64}
use aiohub_plugin_dsh_worksp.Protocol.Initialize.{current_protocol_version, user_stop}
use aiohub_plugin_dsh_worksp.Protocol.Session.{controller, AcquireSessionRequest, acquire}
use aiohub_plugin_dsh_worksp.Protocol.Envelope.{Envelope, CommandPayload, ping, session, shutdown}
use aiohub_plugin_dsh_worksp.Supervisor.{config}
use aiohub_plugin_dsh_worksp.Driver.State.{
  Environment, SupervisorApi, Driver, LeaseRecord, InterruptedTurnKey, not_spawned,
}
use aiohub_plugin_dsh_worksp.Driver.Frames.{current_generation, dsh_contract_hash}
use aiohub_plugin_dsh_worksp.Driver.Leases.{issue_lease, handle_acquire, handle_transfer}
use aiohub_plugin_dsh_worksp.Driver.Leases.Table.{IsTable-nil}
use aiohub_plugin_dsh_worksp.Driver.Leases.Exclusive.{
  HasTable, handle_acquire-HasTable, acquire_keeps,
}
use aiohub_plugin_dsh_worksp.Driver.Leases.Handover.{Holds, Moved, transfer_moves}
use aiohub_plugin_dsh_worksp.Driver.Mutations.{handle_accepting_mutation}
use aiohub_plugin_dsh_worksp.Driver.Mutations.Unheld.{Refused, mutation_unheld}
use aiohub_plugin_dsh_worksp.Driver.Step.{on_disk}
use aiohub_plugin_dsh_worksp.Driver.Ledger.{
  replace_ledger, is_interrupted_turn, record_interrupted_turn, load_interrupted_turns,
}
use aiohub_plugin_dsh_worksp.Driver.Ledger.Durable.{temporary, Saved, record-Saved}
use aiohub_plugin_dsh_worksp.Driver.Turns.{should_crash, handle_submit_like}
use aiohub_plugin_dsh_worksp.Driver.Turns.Refused.{submit_unheld, submit_interrupted}
use aiohub_plugin_dsh_worksp.Driver.Turns.Replay.{RoundTrips, crash_not_replayed}
use aiohub_plugin_dsh_worksp.Driver.Sessions.{handle_session_command}
use aiohub_plugin_dsh_worksp.Driver.Sessions.Gates.{session_gate}
use aiohub_plugin_dsh_worksp.Driver.Commands.{handle_command}
use aiohub_plugin_dsh_worksp.Driver.Commands.Invariant.{handle_command-HasTable}

abbrev written : List InterruptedTurnKey → Result String String
written ((s, t) ∷ []) = if str_eq s "main" then ok t else err "another session"
written _ = err "not one turn"

instance abbrev example_env : Environment
example_env = record {
  frame_text = λ frame. ok "frame";
  value_text = λ value. "value";
  read_value = λ text. ok null;
  read_command = λ text. err "no command";
  read_host_command = λ text. err "no command";
  ledger_text = written;
  read_ledger = λ text. ok (("main", text) ∷ []);
  run_runtime = λ call files. (not_spawned "no runtime", files);
  trim = λ text. text;
  build_hash = "hash";
}

written-RoundTrips : RoundTrips example_env
written-RoundTrips [] text h = absurd (ground arith)
written-RoundTrips ((s, t) ∷ []) text h = ground (arith, str_eq_iff s "main")
written-RoundTrips ((s, t) ∷ u ∷ us) text h = absurd (ground arith)

instance abbrev example_api : SupervisorApi Unit
example_api = record {
  validate_runtime_layout = λ s files disk. (ok tt, disk);
  initialize = λ s request disk. (err (config "no runtime"), s, disk);
}

abbrev fresh : Driver Unit
fresh = record {
  supervisor = tt;
  platform = linux_x64;
  lifecycle = Lifecycle.new 7 9 (from_secs 600);
  crash_token = some "boom";
  controller_leases = [];
  interrupted_turns_path = "/d/runtime/interrupted-turns.json";
  interrupted_turns = [];
  runtime_executable = "/r";
  dsh_home = "/d/home";
  next_lease_id = 1;
  next_wire_error_id = 1;
  initialized = true;
  disk = record { contents = λ path. none; dirs = λ path. false; modes = λ path. 0; faults = [] };
}

abbrev envelope : CommandPayload → Envelope CommandPayload
envelope payload = record {
  protocol_version = current_protocol_version;
  contract_hash = dsh_contract_hash;
  domain_generation_id = "connection-stopped";
  seq = 1;
  message_id = "m1";
  correlation_id = none;
  payload = payload;
}

abbrev request : String → AcquireSessionRequest
request view = record { session_id = "main"; view_id = view; requested_mode = controller }

abbrev first : LeaseRecord
first = record {
  lease = record {
    domain_generation_id = "connection-stopped";
    contract_hash = dsh_contract_hash;
    session_id = "main";
    lease_id = "lease-1";
    mode = controller;
  };
  view_id = "view-1";
}

-- The driver after a first view has acquired the session.
abbrev held : Driver Unit
held = record fresh { controller_leases = ("main", first) ∷ []; next_lease_id = 2 }

held_is : (handle_acquire fresh (envelope ping) (request "view-1")).1 ≡ held
unfolding handle_acquire issue_lease get insert format dec current_generation Lifecycle.new
held_is = refl

held-HasTable : HasTable held
held-HasTable =
    subst (λ d. HasTable d) held_is
      (handle_acquire-HasTable fresh (envelope ping) (request "view-1") (omega arith)
        (IsTable-nil 1))

held-get : get "main" held.controller_leases ≡ some first
unfolding get text_lt
held-get = refl

held-Holds : Holds held "main" "lease-1"
held-Holds = (first, (held-get, refl))

abbrev lease_of : Option LeaseRecord → String
lease_of none = ""
lease_of (some r) = r.lease.lease_id

not_held : ¬ Holds held "main" "lease-0"
not_held (r, (g, same)) =
    absurd (ground (arith, ap (str_eq "lease-1") (ap lease_of (sym held-get ∙ g) ∙ same)))

acquire_keeps_example :
    get "main" (handle_acquire held (envelope ping) (request "view-2")).1.controller_leases
    ≡ some first
acquire_keeps_example = acquire_keeps held (envelope ping) (request "view-2") "main" first held-get

transfer_moves_example :
    Moved held (handle_transfer held (envelope ping) "main" "lease-1" "view-2").1 "main" "view-2"
transfer_moves_example =
    transfer_moves held (envelope ping) "main" "view-2" first held-HasTable held-get

mutation_unheld_example :
    Refused held (envelope ping) "main" "lease-0" (some "t1") (
      handle_accepting_mutation held
        (envelope ping)
        "main"
        "lease-0"
        (some "t1")
        "cancel-requested")
mutation_unheld_example =
    mutation_unheld held (envelope ping) "main" "lease-0" (some "t1") "cancel-requested" not_held

submit_unheld_example :
    Refused held
      (envelope ping)
      "main"
      "lease-0"
      (some "t1")
      (handle_submit_like (envelope ping) "main" "lease-0" "t1" null "steer" held).0
    × ((handle_submit_like (envelope ping) "main" "lease-0" "t1" null "steer" held).1 ≡ held)
submit_unheld_example =
    submit_unheld held (envelope ping) "main" "lease-0" "t1" null "steer" not_held

session_gate_example :
    (handle_session_command
      (envelope ping)
      (acquire (request "view-1"))
      (record held { initialized = false })).1
    ≡ record held { initialized = false }
session_gate_example =
    session_gate (record held { initialized = false }) (envelope ping) (acquire (request "view-1"))
      (inl refl)

handle_command-HasTable_example :
    HasTable (handle_command (envelope (session (acquire (request "view-2")))) held).1
handle_command-HasTable_example =
    handle_command-HasTable (envelope (session (acquire (request "view-2")))) held (omega arith)
      held-HasTable
