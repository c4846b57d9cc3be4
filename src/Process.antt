-- ===== src/Process.antt =====
-- crates/supervisor/src/process.rs, as it is built on Unix: the child process of the supervisor, in a
-- process group of its own. How Windows command lines are quoted is in Process/Quoting.antt.
pub mod Finishes
pub mod Quoting
pub mod Examples
use aiohub_plugin_dsh_worksp.Prelude.{
  ℕ, zero, suc, ◌+◌, ◌-◌, ◌^◌, ◌≤◌, min, String, Bool, true, false, Option, none, some, List,
  Result, ok, err, ◌==◌, ltb, unwrap_or, if◌then◌else◌,
}
use aiohub_plugin_dsh_worksp.Words.{Duration, from_secs, from_millis}
use aiohub_plugin_dsh_worksp.Files.{IoError, failed}

pub record ProcessPolicy : Type 0 where
  pub terminate_grace : Duration

-- `TERMINATE_GRACE`.
abbrev pub terminate_grace : Duration
terminate_grace = from_secs 3

abbrev pub default_policy : ProcessPolicy
default_policy = record { terminate_grace = terminate_grace }

pub record SpawnSpec : Type 0 where
  pub program : String
  pub args : List String
  pub current_dir : Option String

-- The code is the bit pattern of an `i32`.
pub record ProcessExit : Type 0 where
  pub code : ℕ

unfoldable pub success : ProcessExit → Bool
success exit = exit.code == 0

pub record ManagedProcess : Type 0 where
  pub pid : ℕ

pub data Signal : Type 0 where
  terminate kill : Signal

-- What the operating system does, over its state: `spawn` starts a command as the leader of a new
-- process group; `try_wait` and `wait` give the exit status, whose code a signal leaves out.
pub record ProcessOs (W : Type 0) : Type 0 where
  pub spawn_group : SpawnSpec → W → Result IoError ManagedProcess × W
  pub kill_group : ℕ → Signal → W → W
  pub try_wait : ManagedProcess → W → Result IoError (Option (Option ℕ)) × W
  pub await : ManagedProcess → W → Result IoError (Option ℕ) × W
  pub now : W → Duration
  pub sleep : Duration → W → W

-- A monotonic clock, and a sleep that lasts at least as long as it is told.
pub record IsMonotonic {W : Type 0} (os : ProcessOs W) : Type 0 where
  pub sleep_lasts : (d : Duration) (w : W) → os.now w + d ≤ os.now (os.sleep d w)
  pub try_wait_later : (p : ManagedProcess) (w : W) → os.now w ≤ os.now (os.try_wait p w).1

-- -1 as an `i32`.
abbrev no_code : ℕ
no_code = 2 ^ 32 - 1

abbrev pub exit_of : Option ℕ → ProcessExit
exit_of code = record { code = unwrap_or code no_code }

pub data Polled : Type 0 where
  gone expired unfinished : Polled
  broken : IoError → Polled

module _ {W : Type 0} ⦃os : ProcessOs W⦄ where
  unfoldable pub wait : ManagedProcess → W → Result IoError ProcessExit × W
  wait p w =
      let (r, v) = os.await p w in elim r [ ok code ↦ (ok (exit_of code), v) | err e ↦ (err e, v) ]

  -- `spawn_unix`.
  unfoldable pub spawn : SpawnSpec → W → Result IoError ManagedProcess × W
  spawn spec w = os.spawn_group spec w

  -- The `while` of `terminate_tree`; `unfinished` where the fuel ends before the loop.
  unfoldable pub poll : ℕ → ManagedProcess → ℕ → W → Polled × W
  poll zero p deadline w = (unfinished, w)
  poll (suc fuel) p deadline w = elim (ltb (os.now w) deadline) [
    | true ↦
        let (r, v) = os.try_wait p w in
        elim r [
          | ok none ↦ poll fuel p deadline (os.sleep (from_millis 10) v)
          | ok (some status) ↦ (gone, v)
          | err e ↦ (broken e, v)
        ]
    | false ↦ (expired, w)
  ]

  -- Each turn of the loop takes time, so this is enough.
  abbrev pub poll_fuel : ℕ → W → ℕ
  poll_fuel deadline w = suc (deadline - os.now w)

  abbrev pub reaped : Result IoError ProcessExit × W → Result IoError (Unit {0}) × W
  reaped (ok exit, w) = (ok tt, w)
  reaped (err e, w) = (err e, w)

  -- What follows the loop.
  abbrev pub finish : ManagedProcess → Polled → W → Result IoError (Unit {0}) × W
  finish p gone w = (ok tt, w)
  finish p (broken e) w = (err e, w)
  finish p expired w = reaped (wait p (os.kill_group p.pid kill w))
  finish p unfinished w = (err (failed "unfinished"), w)

  unfoldable pub terminate_tree :
      ProcessPolicy → ManagedProcess → ℕ → W → Result IoError (Unit {0}) × W
  unfolding poll wait
  terminate_tree policy p grace w =
      let deadline = os.now w + min grace policy.terminate_grace in
      let v = os.kill_group p.pid terminate w in
      let (polled, u) = poll (poll_fuel deadline v) p deadline v in finish p polled u
