-- ===== src/Runtime/Checks.antt =====
-- When a chain of checks with early returns succeeds.
use aiohub_plugin_dsh_worksp.Prelude.{
  Bool, true, false, Result, ok, err, ◌>>◌, ◌≡◌, refl, ◌↔◌, arith,
}
use aiohub_plugin_dsh_worksp.Runtime.{refuse_if}

module _ {E : Type 0} where
  pub refused :
      (bad : Bool) (e : E) {P : Type 0} → (bad ≡ false) ↔ P → (refuse_if bad e ≡ ok tt) ↔ P
  refused true e f = (λ h. absurd (ground arith), λ h. absurd (ground (arith, f.1 h)))
  refused false e f = (λ h. f.0 refl, λ h. refl)

  -- A check that lets `P` pass, before code that succeeds where `Q` holds.
  pub both :
      {A : Type 0} (m : Result E (Unit {0})) (k : Result E A) (a : A) {P Q : Type 0}
      → (m ≡ ok tt) ↔ P
      → (k ≡ ok a) ↔ Q
      → ((m >> k) ≡ ok a) ↔ (P × Q)
  both (err e) k a f g = (λ h. absurd (ground arith), λ h. absurd (ground (arith, f.1 h.0)))
  both (ok done) k a f g = (λ h. (f.0 refl, g.0 h), λ h. g.1 h.1)
