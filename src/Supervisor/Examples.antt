-- ===== src/Supervisor/Examples.antt =====
-- The theorems at a supervisor on Linux, with a disk that holds the lock and a session.
use aiohub_plugin_dsh_worksp.Prelude.{
  ℕ, String, true, false, none, some, [], ◌∷◌, ok, err, ◌≡◌, refl, str_eq, if◌then◌else◌,
}
use aiohub_plugin_dsh_worksp.Prelude.Text.{format, starts_with}
use aiohub_plugin_dsh_worksp.Files.{Files, fails, within, read}
use aiohub_plugin_dsh_worksp.Ordered.{contains, collect, add}
use aiohub_plugin_dsh_worksp.Ordered.Order.{text_lt}
use aiohub_plugin_dsh_worksp.Platform.{linux_x64}
use aiohub_plugin_dsh_worksp.Process.{default_policy}
use aiohub_plugin_dsh_worksp.Process.Examples.{clock_os}
use aiohub_plugin_dsh_worksp.Protocol.Initialize.{
  InitializeRequest, incompatible_contract, contract_hash,
}
use aiohub_plugin_dsh_worksp.Protocol.Negotiation.{negotiate_initialize}
use aiohub_plugin_dsh_worksp.Redaction.Policy
use aiohub_plugin_dsh_worksp.Runtime.{target_platform, validate, is_spdx, offers, dsh_contract_hash}
use aiohub_plugin_dsh_worksp.Runtime.Examples.{small_tree}
use aiohub_plugin_dsh_worksp.Supervisor.{SupervisorConfig, default_flags, default_state, World}
use aiohub_plugin_dsh_worksp.Supervisor.Startup.{
  validate_config, local_initialize_request, startup_transaction, initialize,
}
use aiohub_plugin_dsh_worksp.Supervisor.Startup.Settles.{Settled, startup_settles}
use aiohub_plugin_dsh_worksp.Supervisor.Startup.Refused.{Wiped, refused_wipes}

abbrev example_config : SupervisorConfig
example_config = record {
  plugin_data_dir = "/p";
  runtime_lock_path = "/lock";
  runtime_root = "/r";
  platform = linux_x64;
  host_api_version = 3;
  prewarm = false;
  telemetry_enabled = false;
  redaction = Policy.default_policy;
}

abbrev session : String
session = "/p/sessions/main.json"

abbrev disk : Files
disk = record {
  contents = λ path.
      if str_eq path "/lock"
      then some "lock"
      else if str_eq path session
      then some "kept"
      else none;
  dirs = λ path. false;
  modes = λ path. 0;
  faults = [];
}

abbrev world : World ℕ
world = record {
  supervisor = record {
    config = example_config;
    backend = default_policy;
    state = default_state;
    poisoned = false;
  };
  os = 0;
  disk = disk;
}

-- A request under another contract.
abbrev foreign : InitializeRequest
foreign = record (local_initialize_request example_config) { contract_hash = "other" }

startup_settles_example : Settled default_flags world.supervisor (
    startup_transaction default_flags
      (record world { disk = record disk { faults = fails "full" ∷ [] } }))
startup_settles_example =
    startup_settles default_flags
      (record world { disk = record disk { faults = fails "full" ∷ [] } }) refl

proper : validate_config example_config ≡ ok tt
unfolding validate_config
proper = refl

valid : (validate "/lock" linux_x64 disk).0 ≡ ok (record { platform = linux_x64 })
unfolding validate read is_spdx offers contains text_lt
valid = refl

refused :
    negotiate_initialize (local_initialize_request example_config) foreign
    ≡ err (incompatible_contract (contract_hash dsh_contract_hash "other" ∷ []))
unfolding negotiate_initialize local_initialize_request collect add contains text_lt
refused = refl

at : within "/p" session ≡ true
unfolding within format starts_with
at = refl

refused_wipes_example :
    Wiped
      (incompatible_contract (contract_hash dsh_contract_hash "other" ∷ []))
      session
      (initialize foreign world)
refused_wipes_example =
    refused_wipes world foreign (record { platform = linux_x64 })
      (incompatible_contract (contract_hash dsh_contract_hash "other" ∷ [])) session refl refl
      proper valid refused at
