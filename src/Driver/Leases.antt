-- ===== src/Driver/Leases.antt =====
-- crates/supervisor/src/main.rs: controller leases. A handler returns its result and the driver
-- after it; where a `?` ends it early, the driver is as it stood there.
pub mod Table
pub mod Exclusive
pub mod Handover
use aiohub_plugin_dsh_worksp.Prelude.{
  ◌+◌, ◌%◌, ◌^◌, String, Bool, true, false, not, Option, none, some, List, [], ◌∷◌, Result, ok,
  ◌>>=◌, str_eq, if◌then◌else◌,
}
use aiohub_plugin_dsh_worksp.Prelude.Text.{format, dec}
use aiohub_plugin_dsh_worksp.Ordered.{get, insert}
use aiohub_plugin_dsh_worksp.Ordered.Order.{text_ord}
use aiohub_plugin_dsh_worksp.Json.{Json, str, json}
use aiohub_plugin_dsh_worksp.Protocol.Session.{
  LeaseMode, controller, observer, ControllerLease, AcquireSessionRequest, lease,
}
use aiohub_plugin_dsh_worksp.Protocol.Envelope.{Envelope, CommandPayload, ResponsePayload}
use aiohub_plugin_dsh_worksp.Driver.State.{
  Environment, Driver, LeaseRecord, MainError, CommandOutcome,
}
use aiohub_plugin_dsh_worksp.Driver.Frames.{
  dsh_contract_hash, mode_json, current_generation, session_event_frame, response_frame,
  reject_command,
}

abbrev is_controller : LeaseMode → Bool
is_controller controller = true
is_controller observer = false

abbrev lease_json : ControllerLease → String → List (String × Json)
lease_json l view_id =
    ("leaseId", str l.lease_id) ∷ ("mode", mode_json l.mode) ∷ ("viewId", str view_id) ∷ []

module _ {Sup : Type 0} where
  -- `fetch_add` on the counter, and the lease with the old count.
  unfoldable pub issue_lease : Driver Sup → String → LeaseMode → ControllerLease × Driver Sup
  issue_lease d session_id mode = (
    record {
      domain_generation_id = current_generation d;
      contract_hash = dsh_contract_hash;
      session_id = session_id;
      lease_id = format ("lease-" ∷ dec d.next_lease_id ∷ []);
      mode = mode;
    },
    record d { next_lease_id = (d.next_lease_id + 1) % 2 ^ 64 },
  )

  abbrev put_lease : Driver Sup → ControllerLease → String → Driver Sup
  put_lease d l view_id = record d {
    controller_leases =
        insert l.session_id (record { lease = l; view_id = view_id }) d.controller_leases;
  }

  module _ ⦃env : Environment⦄ where
    -- The events of a lease, which differ in kind and payload.
    lease_event :
        Driver Sup
        → Envelope CommandPayload
        → String
        → String
        → List (String × Json)
        → Result MainError String
    lease_event d e kind session_id payload = session_event_frame (record {
      seq = e.seq;
      message_id = format (kind ∷ "-" ∷ session_id ∷ []);
      correlation_id = e.correlation_id;
      generation_id = current_generation d;
      session_id = some session_id;
      turn_id = none;
      kind = kind;
      payload = json payload;
    })

    refuse_acquire :
        Driver Sup
        → Envelope CommandPayload
        → AcquireSessionRequest
        → LeaseRecord
        → Result MainError CommandOutcome
    unfolding lease_event
    refuse_acquire d e request existing = do
      rejected ←
          reject_command d e (some request.session_id) (some existing.lease.lease_id) none
            "lease-rejected" "session already has a controller lease"
      first ←
          lease_event d e "lease-rejected" request.session_id
            (lease_json existing.lease existing.view_id)
      ok (record rejected { frames = first ∷ rejected.frames })

    granted_frames :
        Driver Sup
        → Envelope CommandPayload
        → ControllerLease
        → String
        → Result MainError CommandOutcome
    unfolding lease_event
    granted_frames d e l view_id = do
      answer ← response_frame d e (ResponsePayload.session (lease l))
      granted ← lease_event d e "lease-granted" l.session_id (lease_json l view_id)
      ok (record { frames = answer ∷ granted ∷ []; exit_code = none })

    grant :
        Driver Sup
        → Envelope CommandPayload
        → AcquireSessionRequest
        → Result MainError CommandOutcome × Driver Sup
    unfolding granted_frames issue_lease
    grant d e request =
        let (l, issued) = issue_lease d request.session_id request.requested_mode in
        let held =
          if is_controller request.requested_mode
          then put_lease issued l request.view_id
          else issued in
        (granted_frames held e l request.view_id, held)

    acquire_over :
        Option LeaseRecord
        → Driver Sup
        → Envelope CommandPayload
        → AcquireSessionRequest
        → Result MainError CommandOutcome × Driver Sup
    unfolding refuse_acquire grant
    acquire_over none d e request = grant d e request
    acquire_over (some existing) d e request = (refuse_acquire d e request existing, d)

    -- `if requested_mode == Controller && let Some(existing) = …`.
    unfoldable pub handle_acquire :
        Driver Sup
        → Envelope CommandPayload
        → AcquireSessionRequest
        → Result MainError CommandOutcome × Driver Sup
    unfolding acquire_over
    handle_acquire d e request =
        acquire_over
          (if is_controller request.requested_mode
            then get request.session_id d.controller_leases
            else none)
          d e request

    transferred_frames :
        Driver Sup
        → Envelope CommandPayload
        → LeaseRecord
        → ControllerLease
        → String
        → Result MainError CommandOutcome
    unfolding lease_event
    transferred_frames d e existing l target_view_id = do
      released ← lease_event d e "lease-released" existing.lease.session_id (
          ("leaseId", str existing.lease.lease_id)
          ∷ ("mode", mode_json existing.lease.mode)
          ∷ ("releasedBy", str "transfer-controller")
          ∷ ("viewId", str existing.view_id)
          ∷ [])
      answer ← response_frame d e (ResponsePayload.session (lease l))
      granted ← lease_event d e "lease-granted" l.session_id (lease_json l target_view_id)
      ok (record { frames = released ∷ answer ∷ granted ∷ []; exit_code = none })

    transfer_over :
        Option LeaseRecord
        → Driver Sup
        → Envelope CommandPayload
        → String
        → String
        → String
        → Result MainError CommandOutcome × Driver Sup
    unfolding transferred_frames issue_lease
    transfer_over none d e session_id lease_id target_view_id = (
      reject_command d e (some session_id) (some lease_id) none "unknown-lease"
          "no controller lease exists for the requested session",
      d,
    )
    transfer_over (some existing) d e session_id lease_id target_view_id =
        if not (str_eq existing.lease.lease_id lease_id)
        then (
          reject_command d e (some existing.lease.session_id) (some lease_id) none "stale-lease"
              "leaseId does not match the active controller lease",
          d,
        )
        else let (l, issued) = issue_lease d existing.lease.session_id controller in
          let held = put_lease issued l target_view_id in
          (transferred_frames held e existing l target_view_id, held)

    unfoldable pub handle_transfer :
        Driver Sup
        → Envelope CommandPayload
        → String
        → String
        → String
        → Result MainError CommandOutcome × Driver Sup
    unfolding transfer_over
    handle_transfer d e session_id lease_id target_view_id =
        transfer_over (get session_id d.controller_leases) d e session_id lease_id target_view_id
