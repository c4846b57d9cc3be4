-- ===== src/Driver/Host.antt =====
-- crates/supervisor/src/main.rs: what a resident host asks for, read from its JSON parameters.
pub mod Addresses
use aiohub_plugin_dsh_worksp.Prelude.{
  ℕ, String, Option, none, some, [], ◌∷◌, ◌==◌, if◌then◌else◌, Result, ok, err, ok_or, ◌>>=◌,
  unwrap_or, and_then, str_eq,
}
use aiohub_plugin_dsh_worksp.Prelude.Text.{format, dec}
use aiohub_plugin_dsh_worksp.Json.{Json, as_str, as_u64, json}
use aiohub_plugin_dsh_worksp.Json
use aiohub_plugin_dsh_worksp.Protocol.Initialize.{
  InitializeRequest, current_protocol_version, win32_x64, full, restricted_token,
}
use aiohub_plugin_dsh_worksp.Protocol.Session.{
  LeaseMode, controller, observer, SessionCommand, acquire, transfer_controller, submit_prompt,
  cancel, steer, snapshot,
}
use aiohub_plugin_dsh_worksp.Driver.State.{MainError, config}
use aiohub_plugin_dsh_worksp.Driver.Frames.{dsh_contract_hash}

abbrev pub default_host_api_version : ℕ
default_host_api_version = 3

abbrev pub dsh_commit : String
dsh_commit = "db6bdc3576c2d4e7c965e8e3ed0c2a731eed87f5"

abbrev pub text_of : Json → String → Option String
text_of params name = and_then (Json.get params name) as_str

abbrev api_version : Json → ℕ
api_version params =
    unwrap_or
      (and_then
        (and_then (Json.get params "hostContext") (λ context. Json.get context "apiVersion"))
        as_u64)
      default_host_api_version

unfoldable pub host_initialize_request : Json → Result MainError InitializeRequest
host_initialize_request params =
    if api_version params == default_host_api_version
    then ok (record {
      protocol_version = current_protocol_version;
      contract_hash = dsh_contract_hash;
      runtime = record {
        component = "aio-dsh-supervisor";
        version = "0.1.2-alpha.5";
        build_id = "resident-sidecar";
        source_revision = some dsh_commit;
      };
      platform = record {
        platform = win32_x64;
        architecture = "x64";
        sandbox = record { level = full; backend = restricted_token; reason = none };
      };
      stable_capabilities = "session" ∷ "snapshot" ∷ [];
      required_stable_capabilities = [];
      experimental_capabilities = [];
    })
    else err (config (format ("unsupported host API version " ∷ dec (api_version params) ∷ [])))

unfoldable pub required_host_param : Json → String → Result String String
required_host_param params name =
    ok_or (text_of params name) (format ("missing required resident Sidecar param " ∷ name ∷ []))

lease_mode : String → Result String LeaseMode
lease_mode name =
    if str_eq name "controller"
    then ok controller
    else if str_eq name "observer"
    then ok observer
    else err (format ("unsupported lease mode " ∷ name ∷ []))

abbrev input_of : Json → Json
input_of params = unwrap_or (Json.get params "input") (json [])

acquire_command : String → Json → Result String SessionCommand
unfolding lease_mode
acquire_command session_id params = do
  mode ← lease_mode (unwrap_or (text_of params "mode") "controller")
  ok (
      acquire (record {
        session_id = session_id;
        view_id = unwrap_or (text_of params "viewId") "host";
        requested_mode = mode;
      }))

submit_command : String → Json → Result String SessionCommand
submit_command session_id params = do
  lease_id ← required_host_param params "leaseId"
  turn_id ← required_host_param params "turnId"
  ok (
      submit_prompt (record {
        session_id = session_id;
        lease_id = lease_id;
        turn_id = turn_id;
        input = input_of params;
      }))

steer_command : String → Json → Result String SessionCommand
steer_command session_id params = do
  lease_id ← required_host_param params "leaseId"
  turn_id ← required_host_param params "turnId"
  ok (
      steer (record {
        session_id = session_id;
        lease_id = lease_id;
        turn_id = turn_id;
        input = input_of params;
      }))

cancel_command : String → Json → Result String SessionCommand
cancel_command session_id params = do
  lease_id ← required_host_param params "leaseId"
  turn_id ← required_host_param params "turnId"
  ok (cancel (record { session_id = session_id; lease_id = lease_id; turn_id = turn_id }))

transfer_command : String → Json → Result String SessionCommand
transfer_command session_id params = do
  lease_id ← required_host_param params "leaseId"
  target_view_id ← required_host_param params "targetViewId"
  ok (
      transfer_controller
        (record { session_id = session_id; lease_id = lease_id; target_view_id = target_view_id }))

by_method : String → String → Json → Result String SessionCommand
unfolding acquire_command submit_command steer_command cancel_command transfer_command
by_method method session_id params =
    if str_eq method "session.acquire"
    then acquire_command session_id params
    else if str_eq method "session.submitPrompt"
    then submit_command session_id params
    else if str_eq method "session.steer"
    then steer_command session_id params
    else if str_eq method "session.cancel"
    then cancel_command session_id params
    else if str_eq method "session.transferController"
    then transfer_command session_id params
    else if str_eq method "session.snapshot"
    then ok (snapshot (record { session_id = session_id; cursor = text_of params "cursor" }))
    else err (format ("unsupported resident Sidecar method " ∷ method ∷ []))

unfoldable pub resident_session_command : String → Json → Result String SessionCommand
unfolding by_method
resident_session_command method params = do
  session_id ← required_host_param params "sessionId"
  by_method method session_id params
