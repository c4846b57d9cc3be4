-- ===== src/Recovery/Backoff.antt =====
-- The delays that a crash loop is given.
use native.Mathlib.Decide.{dec_le}
use native.Mathlib.Nat.{pow-suc, mul_assoc, mul-le-mul_left, mul-le-mul_right}
use aiohub_plugin_dsh_worksp.Prelude.{ℕ, zero, suc, ◌*◌, ◌^◌, ◌≤◌, ◌≡◌, refl, ap, ◌∙◌, arith, min}
use aiohub_plugin_dsh_worksp.Recovery.{
  Recovery, initial_backoff, max_backoff, new, next_restart_delay, reset,
}

-- The recovery after `n` restarts.
pub after : ℕ → Recovery → Recovery
after zero r = r
after (suc n) r = after n (next_restart_delay r).0

pub record IsBounded (r : Recovery) : Type 0 where
  pub cap : r.cap_backoff ≡ max_backoff
  pub low : initial_backoff ≤ r.next_backoff
  pub high : r.next_backoff ≤ max_backoff

pub new-IsBounded : IsBounded new
unfolding new
new-IsBounded = record { cap = refl; low = omega arith; high = omega arith }

pub next-IsBounded : (r : Recovery) → IsBounded r → IsBounded (next_restart_delay r).0
unfolding next_restart_delay
next-IsBounded r b = record { cap = b.cap; low = ground arith; high = ground arith }

pub reset-IsBounded : (r : Recovery) → IsBounded r → IsBounded (reset r)
unfolding reset
reset-IsBounded r b = record { cap = b.cap; low = omega arith; high = omega arith }

capped_mul : (a p c : ℕ) → 1 ≤ p → min (min a c * p) c ≡ min (a * p) c
capped_mul a p c h = elim (dec_le a c) [
  | yes le ↦ let e : min a c ≡ a = omega arith in rw e
  | no gt ↦
      let e : min a c ≡ c = omega arith in
      let low : c * 1 ≤ c * p = mul-le-mul_left c h in
      let high : c * p ≤ a * p = mul-le-mul_right p (omega arith) in rw e (omega arith)
]

pow_pos : (n : ℕ) → 1 ≤ 2 ^ n
pow_pos zero = omega arith
pow_pos (suc n) = omega (arith, pow_pos n, pow-suc 2 n)

next_backoff_lem :
    (r : Recovery)
    → IsBounded r
    → (next_restart_delay r).0.next_backoff ≡ min (r.next_backoff * 2) max_backoff
unfolding next_restart_delay
next_backoff_lem r b = omega (arith, b.cap, b.high)

-- After `n` restarts in a row the pending delay is doubled `n` times, up to the cap.
pub after_next_backoff :
    (n : ℕ) (r : Recovery)
    → IsBounded r
    → (after n r).next_backoff ≡ min (r.next_backoff * 2 ^ n) max_backoff
unfolding after
after_next_backoff zero r b = omega (arith, b.high)
after_next_backoff (suc n) r b =
    rw (after_next_backoff n (next_restart_delay r).0 (next-IsBounded r b), next_backoff_lem r b)
      (capped_mul (r.next_backoff * 2) (2 ^ n) max_backoff (pow_pos n)
        ∙ omega (
          arith,
          ap (λ (t : ℕ). r.next_backoff * t) (pow-suc 2 n),
          mul_assoc r.next_backoff 2 (2 ^ n),
        ))

-- The restart after `n` others in a row waits 100 ms doubled `n` times, or 30 s if that is less;
-- the first restart after a reset waits 100 ms again, whatever came before.
pub restart_delays :
    (n : ℕ)
    → ((next_restart_delay (after n new)).1 ≡ min (initial_backoff * 2 ^ n) max_backoff)
      × ((next_restart_delay (reset (after n new))).1 ≡ initial_backoff)
unfolding next_restart_delay reset new
restart_delays n = (after_next_backoff n new new-IsBounded, refl)
