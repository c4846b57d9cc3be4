-- ===== src/Driver/Examples/Host.antt =====
-- The theorems on the main loop and on resident hosts, at concrete input.
use aiohub_plugin_dsh_worksp.Prelude.{String, true, none, List, [], ◌∷◌, ◌≡◌, ◌⊎◌, refl, Result, ok}
use aiohub_plugin_dsh_worksp.Json.{Json, str, json}
use aiohub_plugin_dsh_worksp.Json
use aiohub_plugin_dsh_worksp.Files.{IoError}
use aiohub_plugin_dsh_worksp.Protocol.Session.{SessionCommand, cancel}
use aiohub_plugin_dsh_worksp.Driver.Sessions.{session_id_for_command, lease_id_for_command}
use aiohub_plugin_dsh_worksp.Driver.Host.{text_of, required_host_param, resident_session_command}
use aiohub_plugin_dsh_worksp.Driver.Host.Addresses.{resident_addressed}
use aiohub_plugin_dsh_worksp.Driver.Loop.{run}
use aiohub_plugin_dsh_worksp.Driver.Loop.Started.{run_initialized}
use aiohub_plugin_dsh_worksp.Driver.Examples.{example_env, example_api, held}

abbrev lines : List (Result IoError String)
lines = ok "" ∷ ok "no frame" ∷ ok "" ∷ []

run_initialized_example :
    ((run lines held).1.initialized ≡ true) × ((run lines held).1.supervisor ≡ tt)
run_initialized_example = run_initialized lines held refl

abbrev params : Json
params = json (("sessionId", str "main") ∷ ("leaseId", str "lease-1") ∷ ("turnId", str "t1") ∷ [])

abbrev cancellation : SessionCommand
cancellation = cancel (record { session_id = "main"; lease_id = "lease-1"; turn_id = "t1" })

cancelled : resident_session_command "session.cancel" params ≡ ok cancellation
unfolding resident_session_command required_host_param Json.get
cancelled = refl

resident_addressed_example :
    (session_id_for_command cancellation ≡ text_of params "sessionId")
    × ((lease_id_for_command cancellation ≡ none)
        ⊎ (lease_id_for_command cancellation ≡ text_of params "leaseId"))
resident_addressed_example = resident_addressed "session.cancel" params cancellation cancelled
