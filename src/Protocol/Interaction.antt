-- ===== src/Protocol/Interaction.antt =====
-- crates/protocol/src/messages.rs: approvals and questions.
use aiohub_plugin_dsh_worksp.Prelude.{String, Option}
use aiohub_plugin_dsh_worksp.Json.{Json}

pub data InteractionKind : Type 0 where
  approval question : InteractionKind

pub record InteractionRequest : Type 0 where
  pub domain_generation_id : String
  pub contract_hash : String
  pub session_id : String
  pub correlation_id : String
  pub kind : InteractionKind
  pub payload : Json

pub data InteractionDecision : Type 0 where
  allow deny answer cancel timeout : InteractionDecision

pub record InteractionResponse : Type 0 where
  pub domain_generation_id : String
  pub session_id : String
  pub lease_id : String
  pub correlation_id : String
  pub decision : InteractionDecision
  pub payload : Option Json

pub data InteractionResolutionReason : Type 0 where
  answered cancelled transferred restarted timeout : InteractionResolutionReason

pub record InteractionResolved : Type 0 where
  pub domain_generation_id : String
  pub contract_hash : String
  pub session_id : String
  pub correlation_id : String
  pub reason : InteractionResolutionReason
