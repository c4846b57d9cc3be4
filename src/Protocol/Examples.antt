-- ===== src/Protocol/Examples.antt =====
-- Two endpoints, and the theorems of the negotiation at them.
use aiohub_plugin_dsh_worksp.Prelude.{none, List, [], ◌∷◌, ok, err, ◌≡◌, ◌≢◌, ◌↔◌, refl, All}
use aiohub_plugin_dsh_worksp.Ordered.Order.{text_lt}
use aiohub_plugin_dsh_worksp.Ordered.{contains, collect, add, intersection}
use aiohub_plugin_dsh_worksp.Protocol.Initialize.{
  InitializeRequest, InitializeResult, CompatibilityIssue, major_version, missing_stable_capability,
  remote_end, incompatible_contract, win32_x64, partial, restricted_token,
}
use aiohub_plugin_dsh_worksp.Protocol.Negotiation.{negotiate_initialize}
use aiohub_plugin_dsh_worksp.Protocol.Negotiation.Laws.{
  IsCompatible, IsAgreement, negotiate_iff, negotiate-IsAgreement,
}
use aiohub_plugin_dsh_worksp.Protocol.Negotiation.Symmetry.{negotiate_symm}
use aiohub_plugin_dsh_worksp.Protocol.Negotiation.Errors.{IsReal, negotiate_err}

abbrev host : InitializeRequest
host = record {
  protocol_version = record { major = 1; minor = 4 };
  contract_hash = "96af";
  runtime = record { component = "host"; version = "1"; build_id = "b"; source_revision = none };
  platform = record {
    platform = win32_x64;
    architecture = "x64";
    sandbox = record { level = partial; backend = restricted_token; reason = none };
  };
  stable_capabilities = "snapshot" ∷ "session" ∷ "session" ∷ [];
  required_stable_capabilities = "session" ∷ [];
  experimental_capabilities = [];
}

abbrev sidecar : InitializeRequest
sidecar = record host {
  protocol_version = record { major = 1; minor = 0 };
  stable_capabilities = "session" ∷ "resume" ∷ "snapshot" ∷ [];
  required_stable_capabilities = [];
}

abbrev outdated : InitializeRequest
outdated = record sidecar {
  protocol_version = record { major = 2; minor = 0 };
  stable_capabilities = [];
}

abbrev result : InitializeResult
result = record {
  protocol_version = record { major = 1; minor = 0 };
  contract_hash = "96af";
  runtime = host.runtime;
  platform = host.platform;
  stable_capabilities = "session" ∷ "snapshot" ∷ [];
  experimental_capabilities = [];
}

abbrev complaints : List CompatibilityIssue
complaints = major_version 1 2 ∷ missing_stable_capability remote_end "session" ∷ []

negotiate_tests :
    (negotiate_initialize host sidecar ≡ ok result)
    × (negotiate_initialize host outdated ≡ err (incompatible_contract complaints))
unfolding negotiate_initialize contains collect add intersection text_lt
negotiate_tests = (refl, refl)

negotiate_iff_example :
    ((r : InitializeResult) × (negotiate_initialize host sidecar ≡ ok r))
    ↔ IsCompatible host sidecar
negotiate_iff_example = negotiate_iff host sidecar

negotiate-IsAgreement_example : IsAgreement host sidecar result
negotiate-IsAgreement_example = negotiate-IsAgreement host sidecar negotiate_tests.0

negotiate_symm_example :
    (r' : InitializeResult) × (negotiate_initialize sidecar host ≡ ok r')
    × (r'.protocol_version ≡ result.protocol_version)
    × (r'.contract_hash ≡ result.contract_hash)
    × (r'.stable_capabilities ≡ result.stable_capabilities)
    × (r'.experimental_capabilities ≡ result.experimental_capabilities)
negotiate_symm_example = negotiate_symm host sidecar negotiate_tests.0

negotiate_err_example : (complaints ≢ []) × All (IsReal host outdated) complaints
negotiate_err_example = negotiate_err host outdated complaints negotiate_tests.1
