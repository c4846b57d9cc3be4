-- ===== src/Recovery.antt =====
-- crates/supervisor/src/recovery.rs: the restart delay, doubled up to a cap.
pub mod Backoff
use aiohub_plugin_dsh_worksp.Prelude.{ℕ, min}
use aiohub_plugin_dsh_worksp.Words.{Duration, from_millis, from_secs, saturating_mul}

abbrev pub initial_backoff : Duration
initial_backoff = from_millis 100

abbrev pub max_backoff : Duration
max_backoff = from_secs 30

pub record Recovery : Type 0 where
  pub next_backoff : Duration
  pub cap_backoff : Duration

unfoldable pub new : Recovery
new = record { next_backoff = initial_backoff; cap_backoff = max_backoff }

unfoldable pub next_restart_delay : Recovery → Recovery × Duration
next_restart_delay r =
    let delay = r.next_backoff in
    (record r { next_backoff = min (saturating_mul delay 2) r.cap_backoff }, delay)

unfoldable pub reset : Recovery → Recovery
reset r = record r { next_backoff = initial_backoff }
