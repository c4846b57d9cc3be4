-- ===== src/Words.antt =====
-- The unsigned integers and durations of the standard library, as numbers with their bounds.
use aiohub_plugin_dsh_worksp.Prelude.{ℕ, ◌+◌, ◌-◌, ◌*◌, ◌^◌, min}

abbrev pub u64_max : ℕ
u64_max = 2 ^ 64 - 1

-- `u64::saturating_add`.
abbrev pub saturating_add : ℕ → ℕ → ℕ
saturating_add a b = min (a + b) u64_max

-- A `Duration` is a number of nanoseconds; its seconds are a `u64`.
abbrev pub Duration : Type 0
Duration = ℕ

abbrev pub duration_max : Duration
duration_max = 2 ^ 64 * 1_000_000_000 - 1

abbrev pub from_millis : ℕ → Duration
from_millis n = n * 1_000_000

abbrev pub from_secs : ℕ → Duration
from_secs n = n * 1_000_000_000

-- `Duration::saturating_mul`.
abbrev pub saturating_mul : Duration → ℕ → Duration
saturating_mul d k = min (d * k) duration_max
