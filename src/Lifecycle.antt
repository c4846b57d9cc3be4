-- ===== src/Lifecycle.antt =====
-- crates/supervisor/src/lifecycle.rs: the state machine of the DSH child. A method that mutates the
-- machine returns the new record beside its effects; `apply` takes one event.
pub mod Events
pub mod Invariant
pub mod Graph
pub mod Traces
pub mod Generations
pub mod Shutdown
mod Examples
use aiohub_plugin_dsh_worksp.Prelude.{
  ℕ, String, Bool, true, false, not, ◌&&◌, ◌||◌, Option, none, some, List, [], ◌∷◌, ◌++◌, ◌==◌,
  if◌then◌else◌,
}
use aiohub_plugin_dsh_worksp.Prelude.Text.{format, dec}
use aiohub_plugin_dsh_worksp.Words.{Duration, saturating_add}
use aiohub_plugin_dsh_worksp.Lease.{Lease}
use aiohub_plugin_dsh_worksp.Lease
use aiohub_plugin_dsh_worksp.Recovery.{Recovery}
use aiohub_plugin_dsh_worksp.Recovery
use Events.{
  LifecycleState, stopped, starting, ready, busy, stopping, crashed, unavailable, LifecycleEvent,
  demand_start, start_failed, prewarm_acquired, controller_released, dsh_busy, dsh_quiescent,
  child_exited, idle_grace_elapsed, shutdown, LifecycleEffect, spawn, publish_ready, flush, dispose,
  stop, mark_interrupted, schedule_restart, is_stopped, is_starting, is_ready, is_busy,
  is_unavailable,
}

pub record LifecycleMachine : Type 0 where
  pub state : LifecycleState
  pub idle_grace : Duration
  pub lease : Lease
  pub effects : List LifecycleEffect
  pub generation : ℕ  -- u64
  pub process_generation_prefix : String
  pub domain_generation_id : Option String
  pub interactions : List String
  pub recovery : Recovery
  pub quiescent : Bool

-- The process id and the clock, which `new` reads, are arguments.
unfoldable pub new : ℕ → ℕ → Duration → LifecycleMachine
unfolding Recovery.new
new pid marker idle_grace = record {
  state = stopped;
  idle_grace = idle_grace;
  lease = Lease.default;
  effects = [];
  generation = 0;
  process_generation_prefix = format (dec pid ∷ "-" ∷ dec marker ∷ []);
  domain_generation_id = none;
  interactions = [];
  recovery = Recovery.new;
  quiescent = false;
}

abbrev Step : Type 0
Step = LifecycleMachine × List LifecycleEffect

pub generation_id : String → ℕ → String
generation_id prefix generation = format ("dsh-generation-" ∷ prefix ∷ "-" ∷ dec generation ∷ [])

begin : LifecycleMachine → Step
begin m = (
  record m {
    state = starting;
    quiescent = false;
    generation = next;
    domain_generation_id = some (generation_id m.process_generation_prefix next);
  },
  spawn ∷ [],
)
  where
    next : ℕ
    next = saturating_add m.generation 1

start_from : LifecycleState → LifecycleMachine → Step
unfolding begin
start_from stopped m = begin m
start_from crashed m = begin m
start_from _ m = (m, [])

start : Bool → LifecycleMachine → Step
unfolding start_from Lease.acquire
start prewarm m =
    let held = if prewarm then record m { lease = Lease.acquire m.lease } else m in
    start_from m.state held

release_controller : LifecycleMachine → Step
unfolding Lease.release
release_controller m = (
  record m { lease = Lease.release m.lease },
  if is_ready m.state || is_busy m.state then flush ∷ [] else [],
)

fail_start : LifecycleMachine → Step
fail_start m =
    if is_starting m.state
    then (
      record m {
        state = stopped;
        domain_generation_id = none;
        quiescent = false;
        interactions = [];
      },
      [],
    )
    else (m, [])

mark_busy : LifecycleMachine → Step
mark_busy m =
    if is_starting m.state || is_ready m.state
    then (record m { state = busy; quiescent = false }, [])
    else (m, [])

settle : LifecycleState → LifecycleMachine → Step
unfolding Recovery.reset
settle starting m =
    (record m { state = ready; recovery = Recovery.reset m.recovery }, publish_ready ∷ [])
settle busy m =
    (record m { state = ready; recovery = Recovery.reset m.recovery }, publish_ready ∷ [])
settle _ m = (m, [])

mark_quiescent : ℕ → ℕ → LifecycleMachine → Step
unfolding settle
mark_quiescent jobs interactions m =
    let quiescent = (jobs == 0) && (interactions == 0) in
    if not quiescent
    then (record m { quiescent = false; state = busy }, [])
    else settle m.state (record m { quiescent = true })

interrupted : Option String → List LifecycleEffect
interrupted none = []
interrupted (some turn_id) = mark_interrupted turn_id ∷ []

exit_child : Option String → LifecycleMachine → Step
unfolding interrupted Recovery.next_restart_delay
exit_child active_turn m =
    if is_stopped m.state || is_unavailable m.state
    then (m, [])
    else let (recovery', delay) = Recovery.next_restart_delay m.recovery in
      (
        record m { state = crashed; quiescent = false; interactions = []; recovery = recovery' },
        interrupted active_turn ++ schedule_restart delay ∷ [],
      )

elapse_idle_grace : LifecycleMachine → Step
unfolding Lease.is_held
elapse_idle_grace m =
    if Lease.is_held m.lease || not m.quiescent
    then (m, [])
    else if is_ready m.state
    then (record m { state = stopped; domain_generation_id = none }, dispose ∷ stop ∷ [])
    else (m, [])

shut_down : LifecycleMachine → Step
shut_down m = if is_unavailable m.state then (m, []) else (
  record m {
    state = unavailable;
    domain_generation_id = none;
    interactions = [];
    quiescent = false;
    lease = Lease.default;
  },
  if not (is_stopped m.state) then dispose ∷ stop ∷ [] else stop ∷ [],
)

handle : LifecycleEvent → LifecycleMachine → Step
unfolding start release_controller fail_start mark_busy mark_quiescent exit_child elapse_idle_grace
    shut_down
handle demand_start m = start false m
handle start_failed m = fail_start m
handle prewarm_acquired m = start true m
handle controller_released m = release_controller m
handle dsh_busy m = mark_busy m
handle (dsh_quiescent jobs interactions) m = mark_quiescent jobs interactions m
handle (child_exited active_turn) m = exit_child active_turn m
handle idle_grace_elapsed m = elapse_idle_grace m
handle shutdown m = shut_down m

unfoldable pub apply : LifecycleMachine → LifecycleEvent → Step
unfolding handle
apply m e =
    let (m', effects) = handle e m in (record m' { effects = m'.effects ++ effects }, effects)

-- `take_effects`: the log is handed over and emptied.
unfoldable pub take_effects : LifecycleMachine → Step
take_effects m = (record m { effects = [] }, m.effects)
