-- ===== src/Driver/Host/Addresses.antt =====
-- The session and the lease of a command that a resident host sends.
use aiohub_plugin_dsh_worksp.Prelude.{
  String, Option, none, some, ◌≡◌, refl, ap, ◌∙◌, arith, if-cases, ◌⊎◌, inl, inr, Result, ok, err,
  ◌>>=◌, str_eq, ok_or, subst,
}
use aiohub_plugin_dsh_worksp.Json.{Json}
use aiohub_plugin_dsh_worksp.Protocol.Session.{
  LeaseMode, AcquireSessionRequest, SessionCommand, acquire, submit_prompt, steer, cancel,
  transfer_controller,
}
use aiohub_plugin_dsh_worksp.Driver.Sessions.{session_id_for_command, lease_id_for_command}
use aiohub_plugin_dsh_worksp.Driver.Host.{
  text_of, input_of, required_host_param, by_method, acquire_command, submit_command, steer_command,
  cancel_command, transfer_command, resident_session_command,
}

-- What the command is about: the session, and the lease where it names one.
abbrev pub Addressed : Json → String → Result String SessionCommand → Type 0
Addressed params s (err e) = Unit
Addressed params s (ok c) =
    (session_id_for_command c ≡ some s)
    × ((lease_id_for_command c ≡ none) ⊎ (lease_id_for_command c ≡ text_of params "leaseId"))

moded :
    (params : Json) (s : String) (r : Result String LeaseMode)
    (k : LeaseMode → AcquireSessionRequest)
    → ((m : LeaseMode) → (k m).session_id ≡ s)
    → Addressed params s (r >>= λ m. ok (acquire (k m)))
moded params s (ok m) k h = (ap some (h m), inl refl)
moded params s (err e) k h = tt

leased :
    (params : Json) (s m : String) (o : Option String) (r : Result String String)
    (k : String → String → SessionCommand)
    → o ≡ text_of params "leaseId"
    → ((l t : String) → session_id_for_command (k l t) ≡ some s)
    → ((l t : String) → lease_id_for_command (k l t) ≡ some l)
    → Addressed params s (ok_or o m >>= λ l. r >>= λ t. ok (k l t))
leased params s m none r k e h g = tt
leased params s m (some l) (err x) k e h g = tt
leased params s m (some l) (ok t) k e h g = (h l t, inr (g l t ∙ e))

by_method-Addressed :
    (method s : String) (params : Json) → Addressed params s (by_method method s params)
unfolding by_method acquire_command submit_command steer_command cancel_command transfer_command
    required_host_param
by_method-Addressed method s params =
    if-cases P (str_eq method "session.acquire") _ _ (λ h. moded params s _ _ (λ m. refl))
      (λ h.
        if-cases P (str_eq method "session.submitPrompt") _ _
          (λ p.
            leased params s _ (text_of params "leaseId") _
              (λ l t.
                submit_prompt
                  (record { session_id = s; lease_id = l; turn_id = t; input = input_of params }))
              refl (λ l t. refl) (λ l t. refl))
          (λ p.
            if-cases P (str_eq method "session.steer") _ _
              (λ q.
                leased params s _ (text_of params "leaseId") _
                  (λ l t.
                    steer (record {
                      session_id = s;
                      lease_id = l;
                      turn_id = t;
                      input = input_of params;
                    }))
                  refl (λ l t. refl) (λ l t. refl))
              (λ q.
                if-cases P (str_eq method "session.cancel") _ _
                  (λ u.
                    leased params s _ (text_of params "leaseId") _
                      (λ l t. cancel (record { session_id = s; lease_id = l; turn_id = t })) refl
                      (λ l t. refl) (λ l t. refl))
                  (λ u.
                    if-cases P (str_eq method "session.transferController") _ _
                      (λ v.
                        leased params s _ (text_of params "leaseId") _
                          (λ l t.
                            transfer_controller
                              (record { session_id = s; lease_id = l; target_view_id = t }))
                          refl (λ l t. refl) (λ l t. refl))
                      (λ v.
                        if-cases P (str_eq method "session.snapshot") _ _ (λ w. (refl, inl refl))
                          (λ w. tt))))))
  where
    P : Result String SessionCommand → Type 0
    P r = Addressed params s r

-- A command that a resident host sends is about the session that its parameters name, and where it
-- names a lease that is the one of the parameters; without a session id there is no command.
pub resident_addressed :
    (method : String) (params : Json) (c : SessionCommand)
    → resident_session_command method params ≡ ok c
    → (session_id_for_command c ≡ text_of params "sessionId")
      × ((lease_id_for_command c ≡ none) ⊎ (lease_id_for_command c ≡ text_of params "leaseId"))
unfolding resident_session_command required_host_param
resident_addressed method params c = go (text_of params "sessionId") _
  where
    go :
        (o : Option String) (m : String)
        → (ok_or o m >>= λ s. by_method method s params) ≡ ok c
        → (session_id_for_command c ≡ o)
          × ((lease_id_for_command c ≡ none) ⊎ (lease_id_for_command c ≡ text_of params "leaseId"))
    go none m e = absurd (ground arith)
    go (some s) m e = subst (λ r. Addressed params s r) e (by_method-Addressed method s params)
