-- ===== src/Lifecycle/Shutdown.antt =====
-- What can follow `Shutdown`.
use mathlib.Core.List.{append-nil}
use aiohub_plugin_dsh_worksp.Prelude.{
  ℕ, ◌+◌, ◌<◌, true, false, none, List, [], ◌∷◌, ◌++◌, ◌∙◌, ◌⊎◌, ◌≡◌, refl, arith,
}
use aiohub_plugin_dsh_worksp.Lifecycle.Events.{
  ready, unavailable, LifecycleEvent, LifecycleEffect, publish_ready, dsh_quiescent, child_exited,
  idle_grace_elapsed, shutdown, dispose, stop, is_ready,
}
use aiohub_plugin_dsh_worksp.Lifecycle.{LifecycleMachine, apply}
use aiohub_plugin_dsh_worksp.Lifecycle.Invariant.{is_down, IsHeard, Inv, apply-Inv}
use aiohub_plugin_dsh_worksp.Lifecycle.Traces.{run, AllHeard}

apply-unavailable :
    (m : LifecycleMachine) (e : LifecycleEvent)
    → m.state ≡ unavailable
    → IsHeard m e
    → ((apply m e).0.state ≡ unavailable) × ((apply m e).1 ≡ [])
unfolding apply
apply-unavailable m (child_exited turn) u h = ground arith
apply-unavailable m _ u h = ground arith

run-unavailable :
    (m : LifecycleMachine) (es : List LifecycleEvent)
    → m.state ≡ unavailable
    → AllHeard m es
    → ((run m es).0.state ≡ unavailable) × ((run m es).1 ≡ [])
unfolding run
run-unavailable m [] u h = (u, refl)
run-unavailable m (e ∷ es) u h =
    let now = apply-unavailable m e u h.0 in
    let later = run-unavailable (apply m e).0 es now.0 h.1 in (later.0, rw now.1 later.1)

apply-shutdown : (m : LifecycleMachine) → (apply m shutdown).0.state ≡ unavailable
unfolding apply
apply-shutdown m = ground arith

-- After a shutdown the machine stays `Unavailable` and asks for nothing more, whatever events
-- follow, as long as no report of running work is among them.
pub run-shutdown :
    (m : LifecycleMachine) (es : List LifecycleEvent)
    → AllHeard (apply m shutdown).0 es
    → ((run (apply m shutdown).0 es).0.state ≡ unavailable) × ((run (apply m shutdown).0 es).1 ≡ [])
run-shutdown m es h = run-unavailable (apply m shutdown).0 es (apply-shutdown m) h

apply-unlabelled :
    (m : LifecycleMachine) (e : LifecycleEvent)
    → m.state ≡ unavailable
    → m.domain_generation_id ≡ none
    → IsHeard m e
    → (apply m e).0.domain_generation_id ≡ none
unfolding apply
apply-unlabelled m (child_exited turn) u n h = ground arith
apply-unlabelled m _ u n h = ground arith

-- A report of running work, and one that nothing runs.
abbrev pub late_reports : ℕ → ℕ → List LifecycleEvent
late_reports jobs interactions = dsh_quiescent jobs interactions ∷ dsh_quiescent 0 0 ∷ []

abbrev IsRevived : LifecycleMachine × List LifecycleEffect → Type 0
IsRevived (m, effects) =
    (m.state ≡ ready) × (m.domain_generation_id ≡ none) × (effects ≡ publish_ready ∷ [])

reports-IsRevived :
    (m : LifecycleMachine) (jobs interactions : ℕ)
    → m.domain_generation_id ≡ none
    → 0 < jobs + interactions
    → IsRevived (run m (late_reports jobs interactions))
unfolding run apply
reports-IsRevived m jobs interactions n h = ground arith

run-IsRevived :
    (m : LifecycleMachine) (es : List LifecycleEvent) (jobs interactions : ℕ)
    → m.state ≡ unavailable
    → m.domain_generation_id ≡ none
    → AllHeard m es
    → 0 < jobs + interactions
    → IsRevived (run m (es ++ late_reports jobs interactions))
unfolding run
run-IsRevived m [] jobs interactions u n h k = reports-IsRevived m jobs interactions n k
run-IsRevived m (e ∷ es) jobs interactions u n h k =
    let now = apply-unavailable m e u h.0 in
    let later =
      run-IsRevived (apply m e).0 es jobs interactions now.0 (apply-unlabelled m e u n h.0) h.1 k in
    (later.0, later.1, rw now.1 later.2)

-- A shutdown is not final: from any machine that keeps the invariant, whatever heard events come
-- after the shutdown, a report of running work and then one that nothing runs make the machine
-- `Ready`. It publishes that once, has spawned no child since the shutdown, and has no generation id.
pub report_revives :
    (m : LifecycleMachine) (es : List LifecycleEvent) (jobs interactions : ℕ)
    → Inv m
    → AllHeard (apply m shutdown).0 es
    → 0 < jobs + interactions
    → let (m', effects) = run (apply m shutdown).0 (es ++ late_reports jobs interactions) in
      (m'.state ≡ ready) × (m'.domain_generation_id ≡ none) × (effects ≡ publish_ready ∷ [])
report_revives m es jobs interactions v h k =
    run-IsRevived (apply m shutdown).0 es jobs interactions (apply-shutdown m) unlabelled h k
  where
    unlabelled : (apply m shutdown).0.domain_generation_id ≡ none
    unlabelled = (apply-Inv m shutdown tt v).id_exact ∙ rw (apply-shutdown m) refl

-- The end of the idle grace stops the child exactly when no controller lease is held and the child
-- is ready and quiescent; otherwise it changes nothing.
pub idle_grace_cases :
    (m : LifecycleMachine)
    → let (m', effects) = apply m idle_grace_elapsed in
      ((m.lease.held ≡ false)
        × (m.quiescent ≡ true)
        × (is_ready m.state ≡ true)
        × (is_down m'.state ≡ true)
        × (effects ≡ dispose ∷ stop ∷ []))
      ⊎ (((m.lease.held ≡ true) ⊎ (m.quiescent ≡ false) ⊎ (is_ready m.state ≡ false))
          × (m' ≡ m)
          × (effects ≡ []))
unfolding apply
idle_grace_cases m = ground (arith, append-nil m.effects)
