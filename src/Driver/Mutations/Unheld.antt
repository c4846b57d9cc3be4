-- ===== src/Driver/Mutations/Unheld.antt =====
-- Commands under a lease that their session's controller does not hold.
use aiohub_plugin_dsh_worksp.Prelude.{
  String, Option, none, some, ◌≡◌, refl, ◌∙◌, arith, Bool-cases, ◌⊎◌, inl, inr, str_eq, str_eq_iff,
  Result, ok, err, ◌>>=◌,
}
use aiohub_plugin_dsh_worksp.Ordered.{get}
use aiohub_plugin_dsh_worksp.Ordered.Order.{text_ord}
use aiohub_plugin_dsh_worksp.Protocol.Envelope.{Envelope, CommandPayload}
use aiohub_plugin_dsh_worksp.Driver.State.{
  Environment, Driver, LeaseRecord, MainError, CommandOutcome,
}
use aiohub_plugin_dsh_worksp.Driver.Frames.{reject_command}
use aiohub_plugin_dsh_worksp.Driver.Leases.Handover.{Holds}
use aiohub_plugin_dsh_worksp.Driver.Mutations.{
  lease_error, validate_controller_lease, handle_accepting_mutation, or_rejected,
}

abbrev pub answered : Result MainError CommandOutcome → Result MainError (Option CommandOutcome)
answered (ok rejected) = ok (some rejected)
answered (err e) = err e

holder-cases :
    (o : Option LeaseRecord) (l : String)
    → ((r : LeaseRecord) × ((o ≡ some r) × (r.lease.lease_id ≡ l)))
      ⊎ ((r : LeaseRecord) → o ≡ some r → ¬ (r.lease.lease_id ≡ l))
holder-cases none l = inr (λ r h. absurd (ground arith))
holder-cases (some r) l = elim (Bool-cases (str_eq r.lease.lease_id l)) [
  | inl same ↦ inl (r, (refl, (str_eq_iff r.lease.lease_id l).0 same))
  | inr other ↦ inr (λ q h same. absurd (grind (arith, (str_eq_iff r.lease.lease_id l).1)))
]

-- A lease holds its session or not.
pub Holds-cases : {Sup : Type 0} (d : Driver Sup) (s l : String) → Holds d s l ⊎ (¬ Holds d s l)
Holds-cases d s l = elim (holder-cases (get s d.controller_leases) l) [
  | inl held ↦ inl held
  | inr unheld ↦ inr (λ (r, (g, same)). unheld r g same)
]

some-answered :
    (r : Result MainError CommandOutcome) → (r >>= λ rejected. ok (some rejected)) ≡ answered r
some-answered (ok rejected) = refl
some-answered (err e) = refl

-- What follows an answered refusal is the refusal.
answered-or_rejected :
    (r k : Result MainError CommandOutcome) → (answered r >>= λ o. or_rejected o k) ≡ r
answered-or_rejected (ok rejected) k = refl
answered-or_rejected (err e) k = refl

-- A command that is answered by a rejection, and why.
abbrev pub Refused :
    {Sup : Type 0}
    → ⦃env : Environment⦄ → Driver Sup
    → Envelope CommandPayload
    → String
    → String
    → Option String
    → Result MainError CommandOutcome
    → Type 0
Refused d e s l t result =
    (code : String) × ((message : String) × (result
        ≡ reject_command d e (some s) (some l) t code message))

module _ ⦃env : Environment⦄ {Sup : Type 0} where
  lease_error-answered :
      (o : Option LeaseRecord) (d : Driver Sup) (e : Envelope CommandPayload) (s l : String)
      (t : Option String)
      → ((r : LeaseRecord) → o ≡ some r → ¬ (r.lease.lease_id ≡ l))
      → (result : Result MainError CommandOutcome) × ((lease_error o d e s l t ≡ answered result)
          × Refused d e s l t result)
  unfolding lease_error
  lease_error-answered none d e s l t h = (_, (some-answered _, ("unknown-lease", (_, refl))))
  lease_error-answered (some r) d e s l t h = elim (Bool-cases (str_eq r.lease.lease_id l)) [
    | inl same ↦ absurd (h r refl ((str_eq_iff r.lease.lease_id l).0 same))
    | inr other ↦ (
      reject_command d e (some s) (some l) t "stale-lease"
          "leaseId does not match the active controller lease",
      (rw other (some-answered _), ("stale-lease", (_, refl))),
    )
  ]

  pub validate-answered :
      (d : Driver Sup) (e : Envelope CommandPayload) (s l : String) (t : Option String)
      → ¬ Holds d s l
      → (result : Result MainError CommandOutcome) × ((validate_controller_lease d e s l t
            ≡ answered result)
          × Refused d e s l t result)
  unfolding validate_controller_lease
  validate-answered d e s l t h = lease_error-answered _ d e s l t (λ r g same. h (r, (g, same)))

  pub validate-Holds :
      (d : Driver Sup) (e : Envelope CommandPayload) (s l : String) (t : Option String)
      → Holds d s l
      → validate_controller_lease d e s l t ≡ ok none
  unfolding validate_controller_lease lease_error
  validate-Holds d e s l t (r, (g, same)) = rw (g, (str_eq_iff r.lease.lease_id l).1 same)

  -- Cancelling under a lease that does not hold the session is answered by a rejection, whatever else
  -- the driver's state and the command are.
  pub mutation_unheld :
      (d : Driver Sup) (e : Envelope CommandPayload) (s l : String) (t : Option String)
      (kind : String)
      → ¬ Holds d s l
      → Refused d e s l t (handle_accepting_mutation d e s l t kind)
  unfolding handle_accepting_mutation
  mutation_unheld d e s l t kind h =
      let (result, (answer, (code, (message, same)))) = validate-answered d e s l t h in
      (code, (message, rw answer (answered-or_rejected result _ ∙ same)))
