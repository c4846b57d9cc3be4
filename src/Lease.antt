-- ===== src/Lease.antt =====
-- crates/supervisor/src/lease.rs: the lifecycle's controller flag.
use aiohub_plugin_dsh_worksp.Prelude.{Bool, true, false}

pub record Lease : Type 0 where
  pub held : Bool

-- `Lease::default`.
abbrev pub default : Lease
default = record { held = false }

unfoldable pub acquire : Lease → Lease
acquire l = record l { held = true }

unfoldable pub release : Lease → Lease
release l = record l { held = false }

unfoldable pub is_held : Lease → Bool
is_held l = l.held
