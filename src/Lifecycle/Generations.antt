-- ===== src/Lifecycle/Generations.antt =====
-- The ids that tell one child of the supervisor process from another.
use text.Mathlib.TextLemmas.{append_cancel_left}
use aiohub_plugin_dsh_worksp.Prelude.{
  ℕ, ◌+◌, ◌<◌, ◌≤◌, String, some, List, ◌≡◌, ◌≢◌, refl, sym, ap, ◌∙◌, arith,
}
use aiohub_plugin_dsh_worksp.Prelude.Text.{format, format-dec-injective}
use aiohub_plugin_dsh_worksp.Words.{u64_max}
use aiohub_plugin_dsh_worksp.Lifecycle.Events.{LifecycleEvent}
use aiohub_plugin_dsh_worksp.Lifecycle.{LifecycleMachine, apply, generation_id}
use aiohub_plugin_dsh_worksp.Lifecycle.Invariant.{Inv}
use aiohub_plugin_dsh_worksp.Lifecycle.Traces.{run, spawns, AllHeard, run-Inv, run-generation}

generation_id-injective :
    (prefix : String) (m n : ℕ) → generation_id prefix m ≡ generation_id prefix n → m ≡ n
unfolding generation_id format
generation_id-injective prefix m n e =
    format-dec-injective "-" m n
      (append_cancel_left prefix _ _ (append_cancel_left "dsh-generation-" _ _ e))

apply-prefix :
    (m : LifecycleMachine) (e : LifecycleEvent)
    → (apply m e).0.process_generation_prefix ≡ m.process_generation_prefix
unfolding apply
apply-prefix m (LifecycleEvent.child_exited turn) = ground arith
apply-prefix m _ = ground arith

run-prefix :
    (m : LifecycleMachine) (es : List LifecycleEvent)
    → (run m es).0.process_generation_prefix ≡ m.process_generation_prefix
unfolding run
run-prefix m List.[] = refl
run-prefix m (List.◌∷◌ e es) = run-prefix (apply m e).0 es ∙ apply-prefix m e

current_id :
    (m : LifecycleMachine) {g : String}
    → Inv m
    → m.domain_generation_id ≡ some g
    → g ≡ generation_id m.process_generation_prefix m.generation
current_id m v e = ground (arith, v.id_exact)

-- If a run spawns a child, and fewer than 2 ^ 64 were spawned in all, the id of the child at the
-- end of the run is not the id of the child at its start.
pub generations_distinct :
    (m : LifecycleMachine) (es : List LifecycleEvent) {g g' : String}
    → Inv m
    → AllHeard m es
    → 0 < spawns (run m es).1
    → m.generation + spawns (run m es).1 ≤ u64_max
    → m.domain_generation_id ≡ some g
    → (run m es).0.domain_generation_id ≡ some g'
    → g ≢ g'
generations_distinct m es {g} {g'} v heard many few e e' same =
    let old = current_id m v e in
    let new = current_id (run m es).0 (run-Inv m es heard v) e' in
    let equal : m.generation ≡ (run m es).0.generation =
      generation_id-injective m.process_generation_prefix m.generation (run m es).0.generation (
        sym old
        ∙ same
        ∙ new
        ∙ ap (λ p. generation_id p (run m es).0.generation) (run-prefix m es)) in
    absurd (omega (arith, run-generation m es v.counted))
