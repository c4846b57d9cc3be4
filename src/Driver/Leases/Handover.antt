-- ===== src/Driver/Leases/Handover.antt =====
-- The transfer of a controller lease to another view.
use aiohub_plugin_dsh_worksp.Prelude.{
  ℕ, ◌<◌, String, false, not, Option, none, some, ◌≡◌, refl, sym, ap, ◌∙◌, arith, if-cases, str_eq,
  str_eq_refl, subst, Result,
}
use aiohub_plugin_dsh_worksp.Ordered.{get}
use aiohub_plugin_dsh_worksp.Ordered.Order.{text_ord, same}
use aiohub_plugin_dsh_worksp.Ordered.Maps.{get-insert_other, get-insert_self}
use aiohub_plugin_dsh_worksp.Protocol.Session.{controller}
use aiohub_plugin_dsh_worksp.Protocol.Envelope.{Envelope, CommandPayload}
use aiohub_plugin_dsh_worksp.Driver.State.{
  Environment, Driver, LeaseRecord, MainError, CommandOutcome,
}
use aiohub_plugin_dsh_worksp.Driver.Leases.{issue_lease, put_lease, transfer_over, handle_transfer}
use aiohub_plugin_dsh_worksp.Driver.Leases.Table.{lease_name, older}
use aiohub_plugin_dsh_worksp.Driver.Leases.Exclusive.{HasTable}

-- The session's controller lease is the one named.
abbrev pub Holds : {Sup : Type 0} → Driver Sup → String → String → Type 0
Holds d s l = (r : LeaseRecord) × ((get s d.controller_leases ≡ some r) × (r.lease.lease_id ≡ l))

-- The new holder of a session, and that all other sessions are as before.
abbrev pub Moved : {Sup : Type 0} → Driver Sup → Driver Sup → String → String → Type 0
Moved {Sup} d d' s view =
    ((new : LeaseRecord) × ((get s d'.controller_leases ≡ some new)
        × (new.view_id ≡ view)
        × (new.lease.session_id ≡ s)
        × ((l : String) → Holds d s l → ¬ Holds d' s l)))
    × ((t : String) → same t s ≡ false → get t d'.controller_leases ≡ get t d.controller_leases)

id_of : Option LeaseRecord → String
id_of none = ""
id_of (some r) = r.lease.lease_id

stale :
    (n : ℕ) (old new : LeaseRecord) (l : String)
    → ((i : ℕ) × ((i < n) × (old.lease.lease_id ≡ lease_name i)))
    → new.lease.lease_id ≡ lease_name n
    → old.lease.lease_id ≡ l
    → ¬ (new.lease.lease_id ≡ l)
stale n old new l (i, (h, e)) k p q = older n i h (sym k ∙ q ∙ sym p ∙ e)

module _ {Sup : Type 0} where
  put-Moved :
      (d : Driver Sup) (s view : String) (old : LeaseRecord)
      → HasTable d
      → get s d.controller_leases ≡ some old
      → Moved d
          (put_lease (issue_lease d s controller).1 (issue_lease d s controller).0 view)
          s
          view
  unfolding issue_lease id_of
  put-Moved d s view old (a, b) g = (
    (
      _,
      (
        get-insert_self s _ d.controller_leases,
        refl,
        refl,
        λ l (r, (h, p)) (q, (h', p')).
            stale d.next_lease_id r q l (a s r h).2
              (ap id_of (sym h' ∙ get-insert_self s _ d.controller_leases)) p p',
      ),
    ),
    λ u n. get-insert_other s u _ d.controller_leases n,
  )

module _ ⦃env : Environment⦄ {Sup : Type 0} where
  transfer_over-Moved :
      (d : Driver Sup) (e : Envelope CommandPayload) (s view : String) (old : LeaseRecord)
      → HasTable d
      → get s d.controller_leases ≡ some old
      → Moved d (transfer_over (some old) d e s old.lease.lease_id view).1 s view
  unfolding transfer_over
  transfer_over-Moved d e s view old t g =
      if-cases (λ (x : Result MainError CommandOutcome × Driver Sup). Moved d x.1 s view)
        (not (str_eq old.lease.lease_id old.lease.lease_id)) _ _
        (λ h. absurd (ground (arith, str_eq_refl old.lease.lease_id)))
        (λ h.
          subst
            (λ k.
              Moved d (put_lease (issue_lease d k controller).1 (issue_lease d k controller).0 view)
                s view)
            (sym (t.0 s old g).0) (put-Moved d s view old t g))

  -- A transfer that names the lease of its session moves control: the session has a new record with
  -- the target's view, every lease that held the session before no longer does, and no other session
  -- is touched.
  pub transfer_moves :
      (d : Driver Sup) (e : Envelope CommandPayload) (s view : String) (old : LeaseRecord)
      → HasTable d
      → get s d.controller_leases ≡ some old
      → Moved d (handle_transfer d e s old.lease.lease_id view).1 s view
  unfolding handle_transfer
  transfer_moves d e s view old t g =
      subst (λ o. Moved d (transfer_over o d e s old.lease.lease_id view).1 s view) (sym g)
        (transfer_over-Moved d e s view old t g)
