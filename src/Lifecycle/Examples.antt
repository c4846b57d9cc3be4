-- ===== src/Lifecycle/Examples.antt =====
-- Runs of the machine on concrete events, and the theorems at them.
use aiohub_plugin_dsh_worksp.Prelude.{
  ◌++◌, min, true, false, none, some, List, [], ◌∷◌, ◌≡◌, ◌≢◌, refl, arith, All, ◌⊎◌,
}
use aiohub_plugin_dsh_worksp.Prelude.Text.{format, dec}
use aiohub_plugin_dsh_worksp.Words.{u64_max, from_secs}
use aiohub_plugin_dsh_worksp.Recovery
use aiohub_plugin_dsh_worksp.Recovery.Backoff.{after, restart_delays, new-IsBounded}
use aiohub_plugin_dsh_worksp.Lifecycle.Events.{
  ready, unavailable, LifecycleEvent, demand_start, dsh_quiescent, child_exited, idle_grace_elapsed,
  shutdown, spawn, publish_ready, dispose, stop, mark_interrupted, schedule_restart, is_ready,
}
use aiohub_plugin_dsh_worksp.Lifecycle.{LifecycleMachine, new, apply, generation_id}
use aiohub_plugin_dsh_worksp.Lifecycle.Invariant.{Inv, is_down, new-Inv, apply-Inv}
use aiohub_plugin_dsh_worksp.Lifecycle.Graph.{◌⟶◌, apply-⟶}
use aiohub_plugin_dsh_worksp.Lifecycle.Traces.{
  run, AllHeard, spawns, IsTimely, run-Inv, run-generation, run-IsTimely,
}
use aiohub_plugin_dsh_worksp.Lifecycle.Generations.{generations_distinct}
use aiohub_plugin_dsh_worksp.Lifecycle.Shutdown.{
  run-shutdown, late_reports, report_revives, idle_grace_cases,
}

abbrev fresh : LifecycleMachine
fresh = new 7 11 (from_secs 600)

-- Started, ready, and crashed in the turn "t1"; then started again.
abbrev crash_loop : List LifecycleEvent
crash_loop = demand_start ∷ dsh_quiescent 0 0 ∷ child_exited (some "t1") ∷ demand_start ∷ []

crash_loop_effects :
    (run fresh crash_loop).1
    ≡ spawn ∷ publish_ready ∷ mark_interrupted "t1" ∷ schedule_restart 100_000_000 ∷ spawn ∷ []
unfolding run apply new
crash_loop_effects = refl

crash_loop_id : (run fresh crash_loop).0.domain_generation_id ≡ some "dsh-generation-7-11-2"
unfolding run apply new generation_id format dec
crash_loop_id = refl

crash_loop_heard : AllHeard fresh crash_loop
unfolding apply new
crash_loop_heard = (tt, (λ h. (refl, refl), (tt, (tt, tt))))

restart_delays_example : (Recovery.next_restart_delay (after 9 Recovery.new)).1 ≡ 30_000_000_000
restart_delays_example = (restart_delays 9).0

apply-Inv_example : Inv (apply fresh demand_start).0
apply-Inv_example = apply-Inv fresh demand_start tt (new-Inv 7 11 (from_secs 600))

run-Inv_example : Inv (run fresh crash_loop).0
run-Inv_example = run-Inv fresh crash_loop crash_loop_heard (new-Inv 7 11 (from_secs 600))

apply-⟶_example : fresh.state ⟶ (apply fresh demand_start).0.state
apply-⟶_example = apply-⟶ fresh demand_start tt

run-generation_example :
    (run fresh crash_loop).0.generation ≡ min (spawns (run fresh crash_loop).1) u64_max
unfolding run apply new
run-generation_example = run-generation fresh crash_loop (omega arith)

run-IsTimely_example : All IsTimely (run fresh crash_loop).1
unfolding new
run-IsTimely_example = run-IsTimely fresh crash_loop new-IsBounded

abbrev started : LifecycleMachine
started = (apply fresh demand_start).0

abbrev again : List LifecycleEvent
again = child_exited none ∷ demand_start ∷ []

generations_distinct_example :
    generation_id started.process_generation_prefix 1
    ≢ generation_id started.process_generation_prefix 2
unfolding run apply new
generations_distinct_example =
    generations_distinct started again
      (apply-Inv fresh demand_start tt (new-Inv 7 11 (from_secs 600))) (tt, (tt, tt)) (omega arith)
      (omega arith) refl refl

run-shutdown_example :
    ((run (apply started shutdown).0 again).0.state ≡ unavailable)
    × ((run (apply started shutdown).0 again).1 ≡ [])
run-shutdown_example = run-shutdown started again (tt, (tt, tt))

started-Inv : Inv started
started-Inv = apply-Inv fresh demand_start tt (new-Inv 7 11 (from_secs 600))

report_revives_example :
    let (m, effects) = run (apply started shutdown).0 (again ++ late_reports 1 0) in
    (m.state ≡ ready) × (m.domain_generation_id ≡ none) × (effects ≡ publish_ready ∷ [])
report_revives_example = report_revives started again 1 0 started-Inv (tt, (tt, tt)) (omega arith)

idle_grace_cases_example :
    let (m', effects) = apply started idle_grace_elapsed in
    ((started.lease.held ≡ false)
      × (started.quiescent ≡ true)
      × (is_ready started.state ≡ true)
      × (is_down m'.state ≡ true)
      × (effects ≡ dispose ∷ stop ∷ []))
    ⊎ (((started.lease.held ≡ true)
          ⊎ (started.quiescent ≡ false)
          ⊎ (is_ready started.state ≡ false))
        × (m' ≡ started)
        × (effects ≡ []))
idle_grace_cases_example = idle_grace_cases started
