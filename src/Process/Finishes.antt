-- ===== src/Process/Finishes.antt =====
-- The wait for the end of a process tree ends.
use aiohub_plugin_dsh_worksp.Prelude.{ℕ, ◌≤◌}
use aiohub_plugin_dsh_worksp.Process.{ProcessOs, Polled, gone, expired, unfinished, broken}

-- How the loop may end: by its own test, by the process, or by an error, never for want of fuel.
abbrev pub HasEnded : {W : Type 0} → ⦃os : ProcessOs W⦄ → ℕ → Polled × W → Type 0
HasEnded deadline (gone, w) = Unit
HasEnded ⦃os⦄ deadline (expired, w) = deadline ≤ os.now w
HasEnded deadline (broken e, w) = Unit
HasEnded deadline (unfinished, w) = ⊥
