-- ===== src/Lifecycle/Events.antt =====
-- The states, events and effects of crates/supervisor/src/lifecycle.rs.
use aiohub_plugin_dsh_worksp.Prelude.{ℕ, String, Bool, true, false, Option}
use aiohub_plugin_dsh_worksp.Words.{Duration}

pub data LifecycleState : Type 0 where
  stopped starting ready busy stopping crashed unavailable : LifecycleState

pub data LifecycleEvent : Type 0 where
  demand_start start_failed prewarm_acquired controller_released dsh_busy : LifecycleEvent
  dsh_quiescent : (jobs interactions : ℕ) → LifecycleEvent
  child_exited : (active_turn : Option String) → LifecycleEvent
  idle_grace_elapsed shutdown : LifecycleEvent

pub data LifecycleEffect : Type 0 where
  spawn publish_ready flush dispose stop : LifecycleEffect
  mark_interrupted : (turn_id : String) → LifecycleEffect
  schedule_restart : (delay : Duration) → LifecycleEffect

-- The tests of `matches!`.
abbrev pub is_stopped : LifecycleState → Bool
is_stopped stopped = true
is_stopped _ = false

abbrev pub is_starting : LifecycleState → Bool
is_starting starting = true
is_starting _ = false

abbrev pub is_ready : LifecycleState → Bool
is_ready ready = true
is_ready _ = false

abbrev pub is_busy : LifecycleState → Bool
is_busy busy = true
is_busy _ = false

abbrev pub is_unavailable : LifecycleState → Bool
is_unavailable unavailable = true
is_unavailable _ = false
