-- ===== src/Driver/Entry.antt =====
-- crates/supervisor/src/main.rs: the configuration that is read from the process's environment, and
-- the process from its start to its exit code.
use aiohub_plugin_dsh_worksp.Prelude.{
  ℕ, String, Bool, true, false, ◌||◌, Option, none, some, List, [], ◌∷◌, Result, ok, err, map_err,
  ok_or, unwrap_or, ◌>>=◌, str_eq, if◌then◌else◌,
}
use aiohub_plugin_dsh_worksp.Prelude.Text.{format}
use aiohub_plugin_dsh_worksp.Words.{from_secs}
use aiohub_plugin_dsh_worksp.Files.{Files, IoError}
use aiohub_plugin_dsh_worksp.Lifecycle
use aiohub_plugin_dsh_worksp.Paths.{join}
use aiohub_plugin_dsh_worksp.Process.{ProcessOs}
use aiohub_plugin_dsh_worksp.Redaction.{redact_text}
use aiohub_plugin_dsh_worksp.Redaction.Policy
use aiohub_plugin_dsh_worksp.Runtime.{RuntimeTree, named_platform}
use aiohub_plugin_dsh_worksp.Supervisor.{
  Supervisor, SupervisorConfig, SupervisorError, display_io, display_runtime,
}
use aiohub_plugin_dsh_worksp.Supervisor.Startup
use aiohub_plugin_dsh_worksp.Supervisor.Api.{Running, supervisor_api}
use aiohub_plugin_dsh_worksp.Driver.State.{
  Environment, Driver, InterruptedTurnKey, MainError, config, io, supervisor, display,
}
use aiohub_plugin_dsh_worksp.Driver.Host.{default_host_api_version}
use aiohub_plugin_dsh_worksp.Driver.Ledger.{interrupted_turns_path, load_interrupted_turns}
use aiohub_plugin_dsh_worksp.Driver.Loop.{run}

-- An environment variable.
pub data Variable : Type 0 where
  not_present : Variable
  present not_unicode : String → Variable

-- What the process is started with, and the standard library's parser of a `u16`, whose error is its
-- text.
pub record Started : Type 0 where
  pub variable : String → Variable
  pub current_dir : Result IoError String
  pub parse_u16 : String → Result String ℕ
  pub pid : ℕ
  pub marker : ℕ

-- `std::env::var(…).ok()`, and `var_os`.
abbrev text_of : Variable → Option String
text_of not_present = none
text_of (present v) = some v
text_of (not_unicode v) = none

abbrev os_text_of : Variable → Option String
os_text_of not_present = none
os_text_of (present v) = some v
os_text_of (not_unicode v) = some v

abbrev default_platform : String
default_platform = "win32-x64"

-- `main`'s `Display` of an error.
unfoldable pub display_error : MainError → String
display_error (config message) = message
display_error (io e) = display_io e
display_error (supervisor e) = display e

is_one_of : String → List String → Bool
is_one_of value [] = false
is_one_of value (word ∷ words) = str_eq value word || is_one_of value words

bool_of : String → Variable → Result MainError Bool
unfolding is_one_of
bool_of name not_present = ok false
bool_of name (not_unicode v) =
    err (config (format ("environment variable " ∷ name ∷ " is not valid Unicode" ∷ [])))
bool_of name (present value) =
    if is_one_of value ("1" ∷ "true" ∷ "TRUE" ∷ "True" ∷ [])
    then ok true
    else if is_one_of value ("0" ∷ "false" ∷ "FALSE" ∷ "False" ∷ [])
    then ok false
    else err (config (format ("invalid boolean " ∷ name ∷ "=" ∷ value ∷ [])))

first_of : Option String → Option String → Option String
first_of none other = other
first_of (some v) other = some v

path_or : Option String → Result IoError String → String → Result MainError String
path_or (some path) current_dir relative = ok path
path_or none current_dir relative = map_err io current_dir >>= λ root. ok (join root relative)

version_or : (String → Result String ℕ) → Option String → Result MainError ℕ
version_or parse none = ok default_host_api_version
version_or parse (some value) =
    map_err (λ e. config (format ("invalid AIO_DSH_SUPERVISOR_HOST_API_VERSION: " ∷ e ∷ [])))
      (parse value)

module _ ⦃start : Started⦄ where
  open start use {variable, current_dir, parse_u16, pid, marker}

  unfoldable pub parse_bool_env : String → Result MainError Bool
  unfolding bool_of
  parse_bool_env name = bool_of name (variable name)

  unfoldable pub read_plugin_data_dir : Result MainError String
  unfolding first_of
  read_plugin_data_dir =
      ok_or
        (first_of (os_text_of (variable "AIO_DSH_SUPERVISOR_PLUGIN_DATA_DIR"))
          (os_text_of (variable "AIOHUB_PLUGIN_DATA_DIR")))
        (config
          "missing required environment variable AIO_DSH_SUPERVISOR_PLUGIN_DATA_DIR or AIOHUB_PLUGIN_DATA_DIR")

  unfoldable pub read_release_path : String → String → Result MainError String
  unfolding path_or
  read_release_path name relative = path_or (os_text_of (variable name)) current_dir relative

  unfoldable pub load_config : Result MainError SupervisorConfig
  unfolding version_or
  load_config = do
    platform ←
        map_err (λ e. config (display_runtime e))
          (named_platform.resolve
            (unwrap_or (text_of (variable "AIO_DSH_SUPERVISOR_PLATFORM")) default_platform))
    version ← version_or parse_u16 (text_of (variable "AIO_DSH_SUPERVISOR_HOST_API_VERSION"))
    data_dir ← read_plugin_data_dir
    lock_path ← read_release_path "AIO_DSH_SUPERVISOR_RUNTIME_LOCK_PATH" "runtime-lock.json"
    root ← read_release_path "AIO_DSH_SUPERVISOR_RUNTIME_ROOT" "bin"
    prewarm ← parse_bool_env "AIO_DSH_SUPERVISOR_PREWARM"
    telemetry ← parse_bool_env "AIO_DSH_SUPERVISOR_TELEMETRY"
    ok (record {
      plugin_data_dir = data_dir;
      runtime_lock_path = lock_path;
      runtime_root = root;
      platform = platform;
      host_api_version = version;
      prewarm = prewarm;
      telemetry_enabled = telemetry;
      redaction = Policy.default_policy;
    })

  -- `StdioDriver::new`, once the ledger is loaded.
  unfoldable pub new_driver :
      {Sup : Type 0} → Sup → SupervisorConfig → List InterruptedTurnKey → Files → Driver Sup
  new_driver s c turns disk = record {
    supervisor = s;
    platform = c.platform;
    lifecycle = Lifecycle.new pid marker (from_secs 600);
    crash_token = text_of (variable "AIO_DSH_E2E_CRASH_TOKEN");
    controller_leases = [];
    interrupted_turns_path = interrupted_turns_path c.plugin_data_dir;
    interrupted_turns = turns;
    runtime_executable = join c.runtime_root "deepseek-harness-sdk-runtime-win-x64.exe";
    dsh_home = join (join c.plugin_data_dir "data") "dsh-home";
    next_lease_id = 1;
    next_wire_error_id = 1;
    initialized = false;
    disk = disk;
  }

module _ ⦃start : Started⦄ ⦃env : Environment⦄ {W : Type 0} ⦃os : ProcessOs W⦄
    ⦃tree : RuntimeTree⦄ where
  -- The loop of a driver whose ledger was read, and the disk at its end.
  driven :
      SupervisorConfig
      → Running W
      → List (Result IoError String)
      → Result IoError (List InterruptedTurnKey) × Files
      → (Result MainError ℕ × List String) × Files
  unfolding new_driver
  driven c s input (ok turns, disk) =
      let (ended, last) = run input (new_driver s c turns disk) in (ended, last.disk)
  driven c s input (err e, disk) = ((err (io e), []), disk)

  supervised :
      SupervisorConfig
      → List (Result IoError String)
      → Result SupervisorError Supervisor × W × Files
      → (Result MainError ℕ × List String) × Files
  unfolding driven
  supervised c input (ok s, w, disk) =
      driven c (record { supervisor = s; os = w }) input
        (load_interrupted_turns (interrupted_turns_path c.plugin_data_dir) disk)
  supervised c input (err e, w, disk) = ((err (supervisor e), []), disk)

  configured :
      Result MainError SupervisorConfig
      → List (Result IoError String)
      → W
      → Files
      → (Result MainError ℕ × List String) × Files
  unfolding supervised
  configured (ok c) input w disk = supervised c input (Startup.new c w disk)
  configured (err e) input w disk = ((err e, []), disk)

  -- The `run` of the process: its exit code or error, the lines that it wrote, and the disk.
  unfoldable pub run_process :
      List (Result IoError String) → W → Files → (Result MainError ℕ × List String) × Files
  unfolding configured
  run_process = configured load_config

  -- `main`: the exit code, the lines on the standard output, and those on the standard error.
  unfoldable pub main :
      List (Result IoError String) → W → Files → (ℕ × List String × List String) × Files
  unfolding run_process
  main input w disk =
      let ((r, lines), last) = run_process input w disk in
      elim r [
        | ok code ↦ ((code, lines, []), last)
        | err e ↦ ((1, lines, redact_text (display_error e) ∷ []), last)
      ]
