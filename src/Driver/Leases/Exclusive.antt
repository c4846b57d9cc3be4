-- ===== src/Driver/Leases/Exclusive.antt =====
-- What acquiring and transferring a controller lease do to the table of leases.
use aiohub_plugin_dsh_worksp.Prelude.{
  ℕ, ◌+◌, ◌%◌, ◌^◌, ◌<◌, String, Bool, true, false, not, Option, none, some, ◌≡◌, refl, sym, Result,
  ◌∙◌, arith, if◌then◌else◌, Bool-cases, if-cases, inl, inr, str_eq,
}
use aiohub_plugin_dsh_worksp.Ordered.{get}
use aiohub_plugin_dsh_worksp.Ordered.Order.{text_ord, same, same_iff}
use aiohub_plugin_dsh_worksp.Ordered.Maps.{get-insert_other}
use aiohub_plugin_dsh_worksp.Protocol.Session.{
  LeaseMode, controller, observer, AcquireSessionRequest,
}
use aiohub_plugin_dsh_worksp.Protocol.Envelope.{Envelope, CommandPayload}
use aiohub_plugin_dsh_worksp.Driver.State.{
  Environment, Driver, LeaseRecord, MainError, CommandOutcome,
}
use aiohub_plugin_dsh_worksp.Driver.Leases.{
  is_controller, issue_lease, put_lease, acquire_over, grant, handle_acquire, transfer_over,
  handle_transfer,
}
use aiohub_plugin_dsh_worksp.Driver.Leases.Table.{IsTable, IsTable-insert, IsTable-suc}

-- The count of leases has not reached the end of `u64`.
abbrev pub HasRoom : {Sup : Type 0} → Driver Sup → Type 0
HasRoom d = d.next_lease_id + 1 < 2 ^ 64

abbrev pub HasTable : {Sup : Type 0} → Driver Sup → Type 0
HasTable d = IsTable d.next_lease_id d.controller_leases

-- What only initialisation changes.
abbrev pub start_of : {Sup : Type 0} → Driver Sup → Bool × Sup
start_of d = (d.initialized, d.supervisor)

counted : (n : ℕ) → n + 1 < 2 ^ 64 → (n + 1) % 2 ^ 64 ≡ n + 1
counted n h = omega arith

module _ {Sup : Type 0} where
  put_lease-HasTable :
      (d : Driver Sup) (s view : String)
      → HasRoom d
      → HasTable d
      → HasTable (put_lease (issue_lease d s controller).1 (issue_lease d s controller).0 view)
  unfolding issue_lease
  put_lease-HasTable d s view room t =
      rw (counted d.next_lease_id room)
        (IsTable-insert d.next_lease_id s _ d.controller_leases refl refl refl t)

  issue_lease-HasTable :
      (d : Driver Sup) (s : String) (m : LeaseMode)
      → HasRoom d
      → HasTable d
      → HasTable (issue_lease d s m).1
  unfolding issue_lease
  issue_lease-HasTable d s m room t =
      rw (counted d.next_lease_id room) (IsTable-suc d.next_lease_id d.controller_leases t)

  held-HasTable :
      (d : Driver Sup) (s view : String) (m : LeaseMode)
      → HasRoom d
      → HasTable d
      → HasTable (
          if is_controller m
          then put_lease (issue_lease d s m).1 (issue_lease d s m).0 view
          else (issue_lease d s m).1)
  held-HasTable d s view controller room t = put_lease-HasTable d s view room t
  held-HasTable d s view observer room t = issue_lease-HasTable d s observer room t

  apart :
      (k s : String) (d : Driver Sup) (existing : LeaseRecord)
      → get k d.controller_leases ≡ none
      → get s d.controller_leases ≡ some existing
      → same s k ≡ false
  apart k s d existing h g = elim (Bool-cases (same s k)) [
    | inl e ↦ absurd (grind (arith, (same_iff s k).0 e))
    | inr e ↦ e
  ]

  -- A session that has a lease keeps it where the lease is another's or none is put.
  held-get :
      (d : Driver Sup) (k view : String) (m : LeaseMode) (s : String) (existing : LeaseRecord)
      → (is_controller m ≡ true → none ≡ get k d.controller_leases)
      → get s d.controller_leases ≡ some existing
      → get s
          (if is_controller m
            then put_lease (issue_lease d k m).1 (issue_lease d k m).0 view
            else (issue_lease d k m).1).controller_leases
        ≡ some existing
  unfolding issue_lease
  held-get d k view controller s existing h g =
      get-insert_other k s _ d.controller_leases (apart k s d existing (sym (h refl)) g) ∙ g
  held-get d k view observer s existing h g = g

module _ ⦃env : Environment⦄ {Sup : Type 0} where
  acquire_over-HasTable :
      (o : Option LeaseRecord) (d : Driver Sup) (e : Envelope CommandPayload)
      (r : AcquireSessionRequest)
      → HasRoom d
      → HasTable d
      → HasTable (acquire_over o d e r).1
  unfolding acquire_over grant
  acquire_over-HasTable none d e r room t =
      held-HasTable d r.session_id r.view_id r.requested_mode room t
  acquire_over-HasTable (some existing) d e r room t = t

  -- Acquiring a session keeps the table of leases sound.
  pub handle_acquire-HasTable :
      (d : Driver Sup) (e : Envelope CommandPayload) (r : AcquireSessionRequest)
      → HasRoom d
      → HasTable d
      → HasTable (handle_acquire d e r).1
  unfolding handle_acquire
  handle_acquire-HasTable d e r room t = acquire_over-HasTable _ d e r room t

  transfer_over-HasTable :
      (o : Option LeaseRecord) (d : Driver Sup) (e : Envelope CommandPayload) (s l view : String)
      → HasRoom d
      → HasTable d
      → HasTable (transfer_over o d e s l view).1
  unfolding transfer_over
  transfer_over-HasTable none d e s l view room t = t
  transfer_over-HasTable (some existing) d e s l view room t =
      if-cases (λ (x : Result MainError CommandOutcome × Driver Sup). HasTable x.1)
        (not (str_eq existing.lease.lease_id l)) _ _ (λ h. t)
        (λ h. put_lease-HasTable d existing.lease.session_id view room t)

  pub handle_transfer-HasTable :
      (d : Driver Sup) (e : Envelope CommandPayload) (s l view : String)
      → HasRoom d
      → HasTable d
      → HasTable (handle_transfer d e s l view).1
  unfolding handle_transfer
  handle_transfer-HasTable d e s l view room t = transfer_over-HasTable _ d e s l view room t

  acquire_over-get :
      (o : Option LeaseRecord) (d : Driver Sup) (e : Envelope CommandPayload)
      (r : AcquireSessionRequest) (s : String) (existing : LeaseRecord)
      → (is_controller r.requested_mode ≡ true → o ≡ get r.session_id d.controller_leases)
      → get s d.controller_leases ≡ some existing
      → get s (acquire_over o d e r).1.controller_leases ≡ some existing
  unfolding acquire_over grant
  acquire_over-get none d e r s existing h g =
      held-get d r.session_id r.view_id r.requested_mode s existing h g
  acquire_over-get (some other) d e r s existing h g = g

  -- No acquisition, of whatever session, by whichever view and in either mode, takes a controller
  -- lease away or changes it: a session that has one keeps the same record.
  pub acquire_keeps :
      (d : Driver Sup) (e : Envelope CommandPayload) (r : AcquireSessionRequest) (s : String)
      (existing : LeaseRecord)
      → get s d.controller_leases ≡ some existing
      → get s (handle_acquire d e r).1.controller_leases ≡ some existing
  unfolding handle_acquire
  acquire_keeps d e r s existing g = acquire_over-get _ d e r s existing (λ h. rw h) g

  acquire_over-start :
      (o : Option LeaseRecord) (d : Driver Sup) (e : Envelope CommandPayload)
      (r : AcquireSessionRequest)
      → start_of (acquire_over o d e r).1 ≡ start_of d
  unfolding acquire_over grant issue_lease
  acquire_over-start none d e r =
      if-cases (λ (x : Driver Sup). start_of x ≡ start_of d) (is_controller r.requested_mode) _ _
        (λ h. refl) (λ h. refl)
  acquire_over-start (some existing) d e r = refl

  pub handle_acquire-start :
      (d : Driver Sup) (e : Envelope CommandPayload) (r : AcquireSessionRequest)
      → start_of (handle_acquire d e r).1 ≡ start_of d
  unfolding handle_acquire
  handle_acquire-start d e r = acquire_over-start _ d e r

  transfer_over-start :
      (o : Option LeaseRecord) (d : Driver Sup) (e : Envelope CommandPayload) (s l view : String)
      → start_of (transfer_over o d e s l view).1 ≡ start_of d
  unfolding transfer_over issue_lease
  transfer_over-start none d e s l view = refl
  transfer_over-start (some existing) d e s l view =
      if-cases (λ (x : Result MainError CommandOutcome × Driver Sup). start_of x.1 ≡ start_of d)
        (not (str_eq existing.lease.lease_id l)) _ _ (λ h. refl) (λ h. refl)

  pub handle_transfer-start :
      (d : Driver Sup) (e : Envelope CommandPayload) (s l view : String)
      → start_of (handle_transfer d e s l view).1 ≡ start_of d
  unfolding handle_transfer
  handle_transfer-start d e s l view = transfer_over-start _ d e s l view
