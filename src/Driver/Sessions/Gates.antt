-- ===== src/Driver/Sessions/Gates.antt =====
-- Session commands before initialisation or from another generation, and what the others keep.
use aiohub_plugin_dsh_worksp.Prelude.{
  ℕ, String, false, not, List, ◌≡◌, ◌≢◌, refl, sym, if-cases, ◌⊎◌, inl, inr, Result, str_eq,
  str_eq_iff, Bool-cases, subst,
}
use aiohub_plugin_dsh_worksp.Protocol.Session.{
  SessionCommand, acquire, transfer_controller, submit_prompt, cancel, steer, snapshot,
}
use aiohub_plugin_dsh_worksp.Protocol.Envelope.{Envelope, CommandPayload}
use aiohub_plugin_dsh_worksp.Driver.State.{
  Environment, Driver, LeaseRecord, MainError, CommandOutcome,
}
use aiohub_plugin_dsh_worksp.Driver.Frames.{current_generation}
use aiohub_plugin_dsh_worksp.Driver.Leases.Exclusive.{
  HasRoom, HasTable, start_of, handle_acquire-start, handle_transfer-start, handle_acquire-HasTable,
  handle_transfer-HasTable,
}
use aiohub_plugin_dsh_worksp.Driver.Leases.Table.{IsTable}
use aiohub_plugin_dsh_worksp.Driver.Turns.Untouched.{IsApart, handle_submit_like-Kept}
use aiohub_plugin_dsh_worksp.Driver.Sessions.{dispatch, handle_session_command}

abbrev leases_of : {Sup : Type 0} → Driver Sup → ℕ × List (String × LeaseRecord)
leases_of d = (d.next_lease_id, d.controller_leases)

leases-IsApart : {Sup : Type 0} → IsApart (leases_of {Sup = Sup})
leases-IsApart = record { disk = λ d disk. refl; turns = λ d turns. refl; lifecycle = λ d m. refl }

start-IsApart : {Sup : Type 0} → IsApart (start_of {Sup = Sup})
start-IsApart = record { disk = λ d disk. refl; turns = λ d turns. refl; lifecycle = λ d m. refl }

module _ ⦃env : Environment⦄ {Sup : Type 0} where
  -- Before the driver is initialised, or for a command of another generation than the one that
  -- lives, no session command changes anything: no lease, no turn, no file.
  pub session_gate :
      (d : Driver Sup) (e : Envelope CommandPayload) (command : SessionCommand)
      → (d.initialized ≡ false) ⊎ (e.domain_generation_id ≢ current_generation d)
      → (handle_session_command e command d).1 ≡ d
  unfolding handle_session_command
  session_gate d e command (inl early) = rw early
  session_gate d e command (inr other) =
      if-cases (λ (x : Result MainError CommandOutcome × Driver Sup). x.1 ≡ d) (not d.initialized) _
        _ (λ h. refl)
        (λ h. elim (Bool-cases (str_eq e.domain_generation_id (current_generation d))) [
          | inl same ↦
              absurd (other ((str_eq_iff e.domain_generation_id (current_generation d)).0 same))
          | inr differ ↦ rw differ
        ])

  -- A property of the driver that grants, transfers and turns keep is kept by every session command.
  gated :
      (P : Driver Sup → Type 0) (d : Driver Sup) (e : Envelope CommandPayload)
      (command : SessionCommand)
      → P d
      → P (dispatch e command d).1
      → P (handle_session_command e command d).1
  unfolding handle_session_command
  gated P d e command h k =
      if-cases (λ (x : Result MainError CommandOutcome × Driver Sup). P x.1) (not d.initialized) _ _
        (λ early. h)
        (λ late.
          if-cases (λ (x : Result MainError CommandOutcome × Driver Sup). P x.1)
            (not (str_eq e.domain_generation_id (current_generation d))) _ _ (λ stale. h)
            (λ live. k))

  dispatch-HasTable :
      (d : Driver Sup) (e : Envelope CommandPayload) (command : SessionCommand)
      → HasRoom d
      → HasTable d
      → HasTable (dispatch e command d).1
  unfolding dispatch
  dispatch-HasTable d e (acquire r) room t = handle_acquire-HasTable d e r room t
  dispatch-HasTable d e (transfer_controller r) room t =
      handle_transfer-HasTable d e r.session_id r.lease_id r.target_view_id room t
  dispatch-HasTable d e (submit_prompt r) room t =
      subst (λ x. IsTable x.0 x.1)
        (sym (
          (handle_submit_like-Kept leases_of leases-IsApart e r.session_id r.lease_id r.turn_id
              r.input "submit-prompt").kept
            d))
        t
  dispatch-HasTable d e (cancel r) room t = t
  dispatch-HasTable d e (steer r) room t =
      subst (λ x. IsTable x.0 x.1)
        (sym (
          (handle_submit_like-Kept leases_of leases-IsApart e r.session_id r.lease_id r.turn_id
              r.input "steer").kept
            d))
        t
  dispatch-HasTable d e (snapshot r) room t = t

  pub session-HasTable :
      (d : Driver Sup) (e : Envelope CommandPayload) (command : SessionCommand)
      → HasRoom d
      → HasTable d
      → HasTable (handle_session_command e command d).1
  session-HasTable d e command room t =
      gated (λ x. HasTable x) d e command t (dispatch-HasTable d e command room t)

  dispatch-start :
      (d : Driver Sup) (e : Envelope CommandPayload) (command : SessionCommand)
      → start_of (dispatch e command d).1 ≡ start_of d
  unfolding dispatch
  dispatch-start d e (acquire r) = handle_acquire-start d e r
  dispatch-start d e (transfer_controller r) =
      handle_transfer-start d e r.session_id r.lease_id r.target_view_id
  dispatch-start d e (submit_prompt r) =
      (handle_submit_like-Kept start_of start-IsApart e r.session_id r.lease_id r.turn_id r.input
          "submit-prompt").kept
        d
  dispatch-start d e (cancel r) = refl
  dispatch-start d e (steer r) =
      (handle_submit_like-Kept start_of start-IsApart e r.session_id r.lease_id r.turn_id r.input
          "steer").kept
        d
  dispatch-start d e (snapshot r) = refl

  pub session-start :
      (d : Driver Sup) (e : Envelope CommandPayload) (command : SessionCommand)
      → start_of (handle_session_command e command d).1 ≡ start_of d
  session-start d e command =
      gated (λ x. start_of x ≡ start_of d) d e command refl (dispatch-start d e command)
