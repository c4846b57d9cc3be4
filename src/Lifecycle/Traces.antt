-- ===== src/Lifecycle/Traces.antt =====
-- Runs of the machine over a list of events.
use mathlib.Core.List.{append-nil as list_append-nil, append_assoc}
use aiohub_plugin_dsh_worksp.Prelude.{
  ℕ, suc, ◌+◌, ◌≤◌, min, List, [], ◌∷◌, ◌++◌, ◌≡◌, sym, arith, All,
}
use aiohub_plugin_dsh_worksp.Words.{u64_max}
use aiohub_plugin_dsh_worksp.Recovery.{initial_backoff, max_backoff}
use aiohub_plugin_dsh_worksp.Recovery.Backoff.{IsBounded, next-IsBounded, reset-IsBounded}
use aiohub_plugin_dsh_worksp.Lifecycle.Events.{
  LifecycleEvent, child_exited, LifecycleEffect, spawn, schedule_restart,
}
use aiohub_plugin_dsh_worksp.Lifecycle.{LifecycleMachine, apply}
use aiohub_plugin_dsh_worksp.Lifecycle.Invariant.{IsHeard, Inv, apply-Inv}

-- The machine after the events, and all the effects that they had, in order.
unfoldable pub run :
    LifecycleMachine → List LifecycleEvent → LifecycleMachine × List LifecycleEffect
run m [] = (m, [])
run m (e ∷ es) = let (m', now) = apply m e in let (m'', later) = run m' es in (m'', now ++ later)

-- Each event of the list is one that the machine can hear when it comes.
abbrev pub AllHeard : LifecycleMachine → List LifecycleEvent → Type 0
AllHeard m [] = Unit
AllHeard m (e ∷ es) = IsHeard m e × AllHeard (apply m e).0 es

-- A run of events that are heard keeps the invariant.
pub run-Inv :
    (m : LifecycleMachine) (es : List LifecycleEvent) → AllHeard m es → Inv m → Inv (run m es).0
unfolding run
run-Inv m [] h v = v
run-Inv m (e ∷ es) h v = run-Inv (apply m e).0 es h.1 (apply-Inv m e h.0 v)

-- How many children a list of effects spawns.
abbrev pub spawns : List LifecycleEffect → ℕ
spawns [] = 0
spawns (spawn ∷ es) = suc (spawns es)
spawns (_ ∷ es) = spawns es

spawns-append : (xs ys : List LifecycleEffect) → spawns (xs ++ ys) ≡ spawns xs + spawns ys
spawns-append [] ys = omega arith
spawns-append (spawn ∷ xs) ys = omega (arith, spawns-append xs ys)
spawns-append (_ ∷ xs) ys = spawns-append xs ys

apply-generation :
    (m : LifecycleMachine) (e : LifecycleEvent)
    → m.generation ≤ u64_max
    → (apply m e).0.generation ≡ min (m.generation + spawns (apply m e).1) u64_max
unfolding apply
apply-generation m (child_exited turn) h = ground arith
apply-generation m _ h = ground arith

-- The generation counter counts the children that were spawned, up to the largest u64.
pub run-generation :
    (m : LifecycleMachine) (es : List LifecycleEvent)
    → m.generation ≤ u64_max
    → (run m es).0.generation ≡ min (m.generation + spawns (run m es).1) u64_max
unfolding run
run-generation m [] h = omega arith
run-generation m (e ∷ es) h =
    let step = apply-generation m e h in
    omega (
      arith,
      step,
      run-generation (apply m e).0 es (omega arith),
      spawns-append (apply m e).1 (run (apply m e).0 es).1,
    )

apply-effects :
    (m : LifecycleMachine) (e : LifecycleEvent) → (apply m e).0.effects ≡ m.effects ++ (apply m e).1
unfolding apply
apply-effects m (child_exited turn) = ground arith
apply-effects m _ = ground arith

-- The machine's own log holds the effects of every event, in order.
pub run-effects :
    (m : LifecycleMachine) (es : List LifecycleEvent)
    → (run m es).0.effects ≡ m.effects ++ (run m es).1
unfolding run
run-effects m [] = sym (list_append-nil m.effects)
run-effects m (e ∷ es) =
    rw (run-effects (apply m e).0 es, apply-effects m e) (append_assoc m.effects _ _)

-- A scheduled restart waits between 100 ms and 30 s.
abbrev pub IsTimely : LifecycleEffect → Type 0
IsTimely (schedule_restart delay) = (initial_backoff ≤ delay) × (delay ≤ max_backoff)
IsTimely _ = Unit

All-append :
    (xs ys : List LifecycleEffect) → All IsTimely xs → All IsTimely ys → All IsTimely (xs ++ ys)
All-append [] ys h k = k
All-append (x ∷ xs) ys h k = (h.0, All-append xs ys h.1 k)

apply-IsTimely :
    (m : LifecycleMachine) (e : LifecycleEvent)
    → IsBounded m.recovery
    → All IsTimely (apply m e).1 × IsBounded (apply m e).0.recovery
unfolding apply
apply-IsTimely m (child_exited turn) b = ground (arith, next-IsBounded m.recovery)
apply-IsTimely m _ b = ground (arith, reset-IsBounded m.recovery)

-- Whatever the events, each restart that a run schedules waits between 100 ms and 30 s.
pub run-IsTimely :
    (m : LifecycleMachine) (es : List LifecycleEvent)
    → IsBounded m.recovery
    → All IsTimely (run m es).1
unfolding run
run-IsTimely m [] b = tt
run-IsTimely m (e ∷ es) b =
    let step = apply-IsTimely m e b in
    All-append (apply m e).1 (run (apply m e).0 es).1 step.0 (run-IsTimely (apply m e).0 es step.1)
