-- ===== src/Lifecycle/Invariant.antt =====
-- What holds of the machine between two events.
use aiohub_plugin_dsh_worksp.Prelude.{
  ℕ, Bool, true, false, ◌||◌, none, some, [], ◌≤◌, ◌≡◌, ◌≢◌, arith, if◌then◌else◌,
}
use aiohub_plugin_dsh_worksp.Words.{Duration, u64_max}
use aiohub_plugin_dsh_worksp.Recovery.Backoff.{
  IsBounded, new-IsBounded, next-IsBounded, reset-IsBounded,
}
use aiohub_plugin_dsh_worksp.Lifecycle.Events.{
  LifecycleState, starting, ready, busy, stopping, LifecycleEvent, dsh_quiescent, child_exited,
  is_stopped, is_unavailable,
}
use aiohub_plugin_dsh_worksp.Lifecycle.{LifecycleMachine, new, apply, generation_id}

-- No child was started, or the last one was stopped for good.
abbrev pub is_down : LifecycleState → Bool
is_down s = is_stopped s || is_unavailable s

-- A report of running work does not come in `Stopped` and `Unavailable`; every other event can come
-- at any time.
abbrev pub IsHeard : LifecycleMachine → LifecycleEvent → Type 0
IsHeard m (dsh_quiescent jobs interactions) =
    is_down m.state ≡ true → (jobs ≡ 0) × (interactions ≡ 0)
IsHeard m _ = Unit

pub record Inv (m : LifecycleMachine) : Type 0 where
  pub id_exact : m.domain_generation_id ≡ (
      if is_down m.state
      then none
      else some (generation_id m.process_generation_prefix m.generation))
  pub ready_quiescent : m.state ≡ ready → m.quiescent ≡ true
  pub starting_active : m.state ≡ starting → m.quiescent ≡ false
  pub busy_active : m.state ≡ busy → m.quiescent ≡ false
  pub never_stopping : m.state ≢ stopping
  pub no_interactions : m.interactions ≡ []
  pub backoff : IsBounded m.recovery
  pub counted : m.generation ≤ u64_max

pub new-Inv : (pid marker : ℕ) (idle_grace : Duration) → Inv (new pid marker idle_grace)
unfolding new
new-Inv pid marker idle_grace = ground (arith, new-IsBounded)

-- Every event that a machine can hear keeps the invariant: in `Stopped` and `Unavailable` there is
-- no generation id, and in every other state it is the one of the current count, which in `Crashed`
-- belongs to the child that exited; `Ready` means quiescent and `Starting` and `Busy` mean not;
-- `Stopping` is never entered; no interactions are listed; the count is a u64; and the restart delay
-- stays between 100 ms and 30 s.
pub apply-Inv :
    (m : LifecycleMachine) (e : LifecycleEvent) → IsHeard m e → Inv m → Inv (apply m e).0
unfolding apply
apply-Inv m (child_exited turn) h v = ground (arith, next-IsBounded m.recovery)
apply-Inv m _ h v = ground (arith, reset-IsBounded m.recovery)
