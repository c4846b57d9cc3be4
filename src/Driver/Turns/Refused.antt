-- ===== src/Driver/Turns/Refused.antt =====
-- Prompts and steering that are refused: under a lease that does not hold, or for a turn that was
-- interrupted.
use aiohub_plugin_dsh_worksp.Prelude.{
  String, true, some, ◌≡◌, refl, ap, ◌∙◌, Result, ok, err, inl, inr,
}
use aiohub_plugin_dsh_worksp.Json.{Json}
use aiohub_plugin_dsh_worksp.Protocol.Envelope.{Envelope, CommandPayload}
use aiohub_plugin_dsh_worksp.Driver.State.{Environment, Driver, MainError, CommandOutcome}
use aiohub_plugin_dsh_worksp.Driver.Step.{Step, continue}
use aiohub_plugin_dsh_worksp.Driver.Leases.Handover.{Holds}
use aiohub_plugin_dsh_worksp.Driver.Mutations.Unheld.{
  answered, Refused, Holds-cases, validate-answered, validate-Holds,
}
use aiohub_plugin_dsh_worksp.Driver.Ledger.{is_interrupted_turn}
use aiohub_plugin_dsh_worksp.Driver.Turns.{submit, or_rejected_with, handle_submit_like}

module _ ⦃env : Environment⦄ {Sup : Type 0} where
  continue-answered :
      (r : Result MainError CommandOutcome) (k : Step Sup CommandOutcome) (d : Driver Sup)
      → continue (answered r) (λ o. or_rejected_with o k) d ≡ (r, d)
  continue-answered (ok rejected) k d = refl
  continue-answered (err e) k d = refl

  -- A prompt or a steering under a lease that does not hold the session is answered by a rejection
  -- and changes nothing: no turn is recorded or run, no file is touched.
  pub submit_unheld :
      (d : Driver Sup) (e : Envelope CommandPayload) (s l t : String) (input : Json) (kind : String)
      → ¬ Holds d s l
      → Refused d e s l (some t) (handle_submit_like e s l t input kind d).0
        × ((handle_submit_like e s l t input kind d).1 ≡ d)
  unfolding handle_submit_like
  submit_unheld d e s l t input kind h =
      let (result, (answer, (code, (message, same)))) = validate-answered d e s l (some t) h in
      let whole = continue-answered result (submit e s l t input kind) d in
      ((code, (message, rw answer (ap (λ x. x.0) whole ∙ same))), rw answer (ap (λ x. x.1) whole))

  -- A turn that the ledger holds is never run again: whatever its input says, it is answered by a
  -- rejection and changes nothing.
  pub submit_interrupted :
      (d : Driver Sup) (e : Envelope CommandPayload) (s l t : String) (input : Json) (kind : String)
      → is_interrupted_turn d s t ≡ true
      → Refused d e s l (some t) (handle_submit_like e s l t input kind d).0
        × ((handle_submit_like e s l t input kind d).1 ≡ d)
  unfolding handle_submit_like submit
  submit_interrupted d e s l t input kind h = elim (Holds-cases d s l) [
    | inl held ↦
        rw (validate-Holds d e s l (some t) held, h) (("interrupted-turn", (_, refl)), refl)
    | inr unheld ↦ submit_unheld d e s l t input kind unheld
  ]
