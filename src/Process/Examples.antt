-- ===== src/Process/Examples.antt =====
-- The theorem at a process that never ends by itself.
use aiohub_plugin_dsh_worksp.Prelude.{ℕ, ◌+◌, none, some, ok, ◌≡◌, refl, arith}
use aiohub_plugin_dsh_worksp.Process.{ProcessOs, IsMonotonic, ManagedProcess, expired, poll}

-- The state is the clock, in nanoseconds.
instance abbrev pub clock_os : ProcessOs ℕ
clock_os = record {
  spawn_group = λ spec w. (ok (record { pid = 7 }), w);
  kill_group = λ pid signal w. w;
  try_wait = λ p w. (ok none, w);
  await = λ p w. (ok (some 0), w);
  now = λ w. w;
  sleep = λ d w. w + d;
}

abbrev clock-IsMonotonic : IsMonotonic clock_os
clock-IsMonotonic = record { sleep_lasts = λ d w. omega arith; try_wait_later = λ p w. omega arith }

abbrev child : ManagedProcess
child = record { pid = 7 }

-- Three looks, and the grace of 25 ms is over.
polled : poll {W = ℕ} 4 child 25_000_000 0 ≡ (expired, 30_000_000)
unfolding poll
polled = refl
