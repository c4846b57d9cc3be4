-- ===== src/Lifecycle/Graph.antt =====
-- The diagram of states, with guards and bookkeeping left out.
use mathlib.Core.Path.{◌≡◌}
use native.Mathlib.Omega.{arith}
use aiohub_plugin_dsh_worksp.Prelude.{false, refl}
use aiohub_plugin_dsh_worksp.Lifecycle.Events.{
  LifecycleState, stopped, starting, ready, busy, crashed, unavailable, LifecycleEvent,
  child_exited,
}
use aiohub_plugin_dsh_worksp.Lifecycle.{LifecycleMachine, apply}
use aiohub_plugin_dsh_worksp.Lifecycle.Invariant.{is_down, IsHeard}

infix 40 ◌⟶◌
pub data ◌⟶◌ : LifecycleState → LifecycleState → Type 0 where
  stay : {s : LifecycleState} → s ⟶ s
  start : stopped ⟶ starting
  restart : crashed ⟶ starting
  abort : starting ⟶ stopped
  settle : starting ⟶ ready
  finish : busy ⟶ ready
  engage : {s : LifecycleState} → is_down s ≡ false → s ⟶ busy
  crash : {s : LifecycleState} → is_down s ≡ false → s ⟶ crashed
  retire : ready ⟶ stopped
  shut : {s : LifecycleState} → s ⟶ unavailable

ruleset edges = (stay, start, restart, abort, settle, finish, engage, crash, retire, shut)

infix 40 ◌⟶*◌
pub data ◌⟶*◌ : LifecycleState → LifecycleState → Type 0 where
  here : {s : LifecycleState} → s ⟶* s
  then : {s t u : LifecycleState} → s ⟶ t → t ⟶* u → s ⟶* u

-- Every event that a machine can hear follows an edge of the diagram.
pub apply-⟶ :
    (m : LifecycleMachine) (e : LifecycleEvent) → IsHeard m e → m.state ⟶ (apply m e).0.state
unfolding apply
apply-⟶ m (child_exited turn) h = grind (arith, edges)
apply-⟶ m _ h = grind (arith, edges)

unavailable-⟶ : {s t : LifecycleState} → s ⟶ t → s ≡ unavailable → t ≡ unavailable
unavailable-⟶ stay e = e
unavailable-⟶ start e = ground arith
unavailable-⟶ restart e = ground arith
unavailable-⟶ abort e = ground arith
unavailable-⟶ settle e = ground arith
unavailable-⟶ finish e = ground arith
unavailable-⟶ (engage h) e = ground arith
unavailable-⟶ (crash h) e = ground arith
unavailable-⟶ retire e = ground arith
unavailable-⟶ shut e = refl

-- No path of the diagram leaves `Unavailable`.
pub unavailable-⟶* : {s t : LifecycleState} → s ⟶* t → s ≡ unavailable → t ≡ unavailable
unavailable-⟶* here e = e
unavailable-⟶* (then st r) e = unavailable-⟶* r (unavailable-⟶ st e)
