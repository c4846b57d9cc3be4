-- ===== src/Driver/Resident.antt =====
-- crates/supervisor/src/main.rs: resident host commands, and one line of input.
pub mod Started
use aiohub_plugin_dsh_worksp.Prelude.{
  ℕ, String, Bool, true, false, Option, none, some, List, [], ◌∷◌, ◌||◌, Result, ok, err, map_err,
  ◌>>=◌, if◌then◌else◌, str_eq, unwrap_or, and_then, leb, length,
}
use aiohub_plugin_dsh_worksp.Prelude.Text.{format, dec}
use aiohub_plugin_dsh_worksp.Words.{saturating_add}
use aiohub_plugin_dsh_worksp.Ordered.{insert}
use aiohub_plugin_dsh_worksp.Ordered.Order.{text_ord}
use aiohub_plugin_dsh_worksp.Json.{Json, null, uint, str, as_str, as_u64, json}
use aiohub_plugin_dsh_worksp.Json
use aiohub_plugin_dsh_worksp.Protocol.Initialize.{InitializeRequest}
use aiohub_plugin_dsh_worksp.Protocol.Session.{SessionCommand}
use aiohub_plugin_dsh_worksp.Protocol.Envelope.{Envelope, CommandPayload, initialize, session}
use aiohub_plugin_dsh_worksp.Protocol.Envelope
use aiohub_plugin_dsh_worksp.Driver.State.{
  Environment, SupervisorApi, Driver, MainError, config, CommandOutcome, ResidentHostCommand,
}
use aiohub_plugin_dsh_worksp.Driver.Frames.{framed, current_generation, error_event_frame}
use aiohub_plugin_dsh_worksp.Driver.Step
use aiohub_plugin_dsh_worksp.Driver.Step.{Step}
use aiohub_plugin_dsh_worksp.Driver.Host.{host_initialize_request, resident_session_command}
use aiohub_plugin_dsh_worksp.Driver.Commands.{handle_initialize, handle_shutdown, handle_command}

-- `value[name]`: `Null` where there is none.
abbrev index : Json → String → Json
index value name = unwrap_or (Json.get value name) null

-- What the frames of an outcome say, in the order of the frames.
pub record Summary : Type 0 where
  pub state : Option String
  pub error : Option Json
  pub result_data : List (String × Json)

abbrev is_kind : Json → String → Bool
is_kind value name =
    unwrap_or (and_then (as_str (index value "kind")) (λ k. some (str_eq k name))) false

abbrev set : Summary → String → Json → Summary
set s name value = record s { result_data = insert name value s.result_data }

-- The events that matter to the host; `body` is the event.
read_event : Json → Summary → Summary
read_event body s =
    if is_kind body "turn-completed"
    then set (set s "terminal" (str "completed")) "output" (index (index body "data") "output")
    else if is_kind body "error"
    then record s { error = some (index body "data") }
    else if is_kind body "command-rejected"
    then set s "rejection" (json (("code", index (index body "data") "code") ∷ []))
    else s

read_session : Json → Summary → Summary
unfolding read_event
read_session answer s =
    let body = index answer "data" in
    if is_kind answer "lease"
    then set s "lease" body
    else if is_kind answer "accepted"
    then set s "accepted" (index body "accepted")
    else if is_kind answer "snapshot"
    then set s "snapshot" body
    else if is_kind answer "event"
    then read_event body s
    else s

read_frame : Json → Summary → Summary
unfolding read_session
read_frame value s =
    let payload = index value "payload" in
    if is_kind payload "state"
    then record s { state = as_str (index (index payload "data") "state") }
    else if is_kind payload "session"
    then read_session (index payload "data") s
    else if is_kind payload "error"
    then record s { error = some (index payload "data") }
    else s

abbrev with_state : Option String → List (String × Json) → List (String × Json)
with_state none members = members
with_state (some state) members = insert "state" (str state) members

-- The line for the host: its error, or the data where there is more than the generation id.
host_answer : ℕ → String → Summary → Json
host_answer id generation s = elim s.error [
  | some error ↦ json (("id", uint id) ∷ ("type", str "error") ∷ ("data", error) ∷ [])
  | none ↦
      let members =
        with_state s.state (insert "domainGenerationId" (str generation) s.result_data) in
      if leb (length members) 1
      then json (
          ("id", uint id)
          ∷ ("type", str "error")
          ∷ ("data", json (("code", str "resident-command-no-terminal-result") ∷ []))
          ∷ [])
      else json (("id", uint id) ∷ ("type", str "result") ∷ ("data", json members) ∷ [])
]

module _ ⦃env : Environment⦄ where
  read_frames : List String → Summary → Result MainError Summary
  unfolding read_frame
  read_frames [] s = ok s
  read_frames (line ∷ rest) s = do
    value ← map_err config (env.read_value line)
    read_frames rest (read_frame value s)

  unfoldable pub wrap_resident_host_outcome :
      {Sup : Type 0} → Driver Sup → ℕ → CommandOutcome → Result MainError CommandOutcome
  unfolding read_frames host_answer
  wrap_resident_host_outcome d id outcome = do
    s ← read_frames outcome.frames (record { state = none; error = none; result_data = [] })
    ok (record {
      frames = env.value_text (host_answer id (current_generation d) s) ∷ [];
      exit_code = outcome.exit_code;
    })

  host_error : {Sup : Type 0} → Driver Sup → ℕ → String → String → Result MainError CommandOutcome
  host_error d id code message = framed (
      error_event_frame id (format ("host-command-" ∷ dec id ∷ [])) none (current_generation d) code
        message)

abbrev is_session_method : String → Bool
is_session_method method =
    str_eq method "session.acquire"
    || str_eq method "session.submitPrompt"
    || str_eq method "session.cancel"
    || str_eq method "session.steer"
    || str_eq method "session.transferController"
    || str_eq method "session.snapshot"

module _ ⦃env : Environment⦄ {Sup : Type 0} ⦃api : SupervisorApi Sup⦄ where
  initialize_for : Result MainError InitializeRequest → ℕ → Step Sup CommandOutcome
  unfolding Envelope.new
  initialize_for (ok request) id d =
      handle_initialize (Envelope.new env.build_hash "host-bootstrap" id (initialize request))
        request d
  initialize_for (err e) id d = (err e, d)

  session_for : Result String SessionCommand → ℕ → Step Sup CommandOutcome
  unfolding Envelope.new host_error
  session_for (ok command) id d =
      handle_command (Envelope.new env.build_hash (current_generation d) id (session command)) d
  session_for (err message) id d = (host_error d id "invalid-host-params" message, d)

  by_host_method : ResidentHostCommand → Step Sup CommandOutcome
  unfolding initialize_for session_for host_error
  by_host_method c d =
      if str_eq c.method "initialize"
      then initialize_for (host_initialize_request c.params) c.id d
      else if str_eq c.method "shutdown"
      then handle_shutdown c.id none d
      else if is_session_method c.method
      then session_for (resident_session_command c.method c.params) c.id d
      else (
        host_error d c.id "unsupported-host-method"
            (format ("unsupported resident Sidecar method " ∷ c.method ∷ [])),
        d,
      )

  unfoldable pub handle_resident_host_command : ResidentHostCommand → Step Sup CommandOutcome
  unfolding by_host_method
  handle_resident_host_command c =
      Step.◌>>=◌ (by_host_method c)
        (λ outcome. Step.asks (λ d. wrap_resident_host_outcome d c.id outcome))
