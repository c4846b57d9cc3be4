-- ===== src/Protocol/Negotiation.antt =====
-- crates/protocol/src/messages.rs, `negotiate_initialize`. The sets of capabilities are ordered sets
-- of texts, so the lists of the result are sorted.
pub mod Laws
pub mod Symmetry
pub mod Errors
use aiohub_plugin_dsh_worksp.Prelude.{
  ℕ, min, String, Bool, true, false, List, [], ◌∷◌, ◌++◌, Result, ok, err, ◌==◌, str_eq,
  if◌then◌else◌,
}
use aiohub_plugin_dsh_worksp.Ordered.Order.{text_ord}
use aiohub_plugin_dsh_worksp.Ordered.{contains, collect, intersection}
use aiohub_plugin_dsh_worksp.Protocol.Initialize.{
  InitializeRequest, InitializeResult, CompatibilityIssue, major_version, contract_hash,
  missing_stable_capability, Endpoint, local_end, remote_end, ProtocolError, incompatible_contract,
}

missing_at : Endpoint → String → List String → List CompatibilityIssue
missing_at endpoint capability stable =
    if contains capability stable then [] else missing_stable_capability endpoint capability ∷ []

missing : List String → List String → List String → List CompatibilityIssue
missing ours theirs [] = []
missing ours theirs (capability ∷ required) =
    missing_at local_end capability ours
    ++ (missing_at remote_end capability theirs ++ missing ours theirs required)

version_issues : ℕ → ℕ → List CompatibilityIssue
version_issues ours theirs = if ours == theirs then [] else major_version ours theirs ∷ []

hash_issues : String → String → List CompatibilityIssue
hash_issues ours theirs = if str_eq ours theirs then [] else contract_hash ours theirs ∷ []

pub issues : InitializeRequest → InitializeRequest → List CompatibilityIssue
unfolding version_issues hash_issues missing missing_at
issues ours theirs =
    version_issues ours.protocol_version.major theirs.protocol_version.major
    ++ (hash_issues ours.contract_hash theirs.contract_hash
        ++ missing (collect ours.stable_capabilities) (collect theirs.stable_capabilities)
            (collect (ours.required_stable_capabilities ++ theirs.required_stable_capabilities)))

pub agreed : InitializeRequest → InitializeRequest → InitializeResult
agreed ours theirs = record {
  protocol_version = record {
    major = ours.protocol_version.major;
    minor = min ours.protocol_version.minor theirs.protocol_version.minor;
  };
  contract_hash = ours.contract_hash;
  runtime = ours.runtime;
  platform = ours.platform;
  stable_capabilities =
      intersection (collect ours.stable_capabilities) (collect theirs.stable_capabilities);
  experimental_capabilities =
      intersection (collect ours.experimental_capabilities)
        (collect theirs.experimental_capabilities);
}

conclude : List CompatibilityIssue → InitializeResult → Result ProtocolError InitializeResult
conclude [] result = ok result
conclude (issue ∷ rest) result = err (incompatible_contract (issue ∷ rest))

unfoldable pub negotiate_initialize :
    InitializeRequest → InitializeRequest → Result ProtocolError InitializeResult
unfolding conclude issues agreed
negotiate_initialize ours theirs = conclude (issues ours theirs) (agreed ours theirs)
