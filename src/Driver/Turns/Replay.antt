-- ===== src/Driver/Turns/Replay.antt =====
-- A turn that a crash interrupts, over a restart of the driver.
use aiohub_plugin_dsh_worksp.Prelude.{
  String, true, false, some, List, ◌≡◌, refl, sym, ap, ◌∙◌, subst, ok, ok-injective, str_eq,
}
use aiohub_plugin_dsh_worksp.Ordered.{contains}
use aiohub_plugin_dsh_worksp.Ordered.Order.{pair_ord}
use aiohub_plugin_dsh_worksp.Json.{Json}
use aiohub_plugin_dsh_worksp.Files.{Files, works, head_fault, read}
use aiohub_plugin_dsh_worksp.Protocol.Envelope.{Envelope, CommandPayload}
use aiohub_plugin_dsh_worksp.Driver.State.{Environment, Driver, InterruptedTurnKey}
use aiohub_plugin_dsh_worksp.Driver.Leases.Handover.{Holds}
use aiohub_plugin_dsh_worksp.Driver.Mutations.Unheld.{Refused, validate-Holds}
use aiohub_plugin_dsh_worksp.Driver.Ledger.{
  is_interrupted_turn, record_interrupted_turn, load_interrupted_turns,
}
use aiohub_plugin_dsh_worksp.Driver.Ledger.Durable.{
  temporary, Saved, record-Saved, record-is_interrupted, record-Kept,
}
use aiohub_plugin_dsh_worksp.Driver.Turns.{
  should_crash, exit_active, crash_turn, submit, handle_submit_like,
}
use aiohub_plugin_dsh_worksp.Driver.Turns.Refused.{submit_interrupted}

-- What serde's derived formats promise: a ledger that was written is read back as it was.
abbrev pub RoundTrips : Environment → Type 0
RoundTrips env =
    (turns : List InterruptedTurnKey) (text : String)
    → env.ledger_text turns ≡ ok text
    → env.read_ledger text ≡ ok turns

module _ ⦃env : Environment⦄ where
  load-written :
      (path text : String) (turns : List InterruptedTurnKey) (s : Files)
      → head_fault s.faults ≡ works
      → s.contents path ≡ some text
      → env.read_ledger text ≡ ok turns
      → (load_interrupted_turns path s).0 ≡ ok turns
  unfolding load_interrupted_turns read
  load-written path text turns s w c r = rw (w, c, r)

module _ ⦃env : Environment⦄ {Sup : Type 0} where
  crash_turn-disk :
      (e : Envelope CommandPayload) (s t : String) (d : Driver Sup)
      → (record_interrupted_turn s t d).0 ≡ ok tt
      → (crash_turn e s t d).1.disk ≡ (record_interrupted_turn s t d).1.disk
  unfolding crash_turn exit_active
  crash_turn-disk e s t d h = rw h

  submit_crash :
      (d : Driver Sup) (e : Envelope CommandPayload) (s l t : String) (input : Json) (kind : String)
      → Holds d s l
      → is_interrupted_turn d s t ≡ false
      → should_crash d input ≡ true
      → handle_submit_like e s l t input kind d ≡ crash_turn e s t d
  unfolding handle_submit_like submit
  submit_crash d e s l t input kind held fresh crash =
      rw (validate-Holds d e s l (some t) held, fresh, crash)

  recorded-load :
      (d : Driver Sup) (s t : String)
      → RoundTrips env
      → str_eq (temporary d.interrupted_turns_path) d.interrupted_turns_path ≡ false
      → is_interrupted_turn d s t ≡ false
      → (record_interrupted_turn s t d).0 ≡ ok tt
      → head_fault (record_interrupted_turn s t d).1.disk.faults ≡ works
      → (load_interrupted_turns d.interrupted_turns_path (record_interrupted_turn s t d).1.disk).0
        ≡ ok (record_interrupted_turn s t d).1.interrupted_turns
  recorded-load d s t serde apart fresh done w =
      let (text, (written, stands)) =
        subst (Saved d.disk.contents (record_interrupted_turn s t d).1) done
          (record-Saved d s t apart fresh).0 in
      load-written d.interrupted_turns_path text _ (record_interrupted_turn s t d).1.disk w
        (ap (record_interrupted_turn s t d).1.disk.contents (
            sym (
              (record-Kept (λ (d : Driver Sup). d.interrupted_turns_path) s t (λ d f. refl)
                  (λ d u. refl)).kept
                d))
          ∙ stands)
        (serde _ text written)

  -- A turn that crashes the runtime is not run again by the next driver. The first driver had a lease
  -- that held the session and did not yet have the turn in its ledger, whose path is not that of the
  -- temporary file; it recorded the turn, and the disk's next operation works; the next driver has
  -- read the ledger back from that disk. A prompt or a steering for the same session and turn, under
  -- whatever lease and with whatever input, it then answers with a rejection and changes nothing.
  -- Supposed of serde: a ledger that is written is read back as it was.
  pub crash_not_replayed :
      (d d2 : Driver Sup) (e e2 : Envelope CommandPayload) (s l l2 t : String) (input input2 : Json)
      (kind kind2 : String)
      → RoundTrips env
      → str_eq (temporary d.interrupted_turns_path) d.interrupted_turns_path ≡ false
      → Holds d s l
      → is_interrupted_turn d s t ≡ false
      → should_crash d input ≡ true
      → (record_interrupted_turn s t d).0 ≡ ok tt
      → head_fault (handle_submit_like e s l t input kind d).1.disk.faults ≡ works
      → (load_interrupted_turns d.interrupted_turns_path
          (handle_submit_like e s l t input kind d).1.disk).0
        ≡ ok d2.interrupted_turns
      → Refused d2 e2 s l2 (some t) (handle_submit_like e2 s l2 t input2 kind2 d2).0
        × ((handle_submit_like e2 s l2 t input2 kind2 d2).1 ≡ d2)
  unfolding is_interrupted_turn
  crash_not_replayed d d2 e e2 s l l2 t input input2 kind kind2 serde apart held fresh crash done w
        loaded =
      submit_interrupted d2 e2 s l2 t input2 kind2
        (subst (λ turns. contains (s, t) turns ≡ true) same (record-is_interrupted d s t))
    where
      disk :
          (handle_submit_like e s l t input kind d).1.disk ≡ (record_interrupted_turn s t d).1.disk
      disk =
          ap (λ x. x.1.disk) (submit_crash d e s l t input kind held fresh crash)
          ∙ crash_turn-disk e s t d done

      same : (record_interrupted_turn s t d).1.interrupted_turns ≡ d2.interrupted_turns
      same = ok-injective (
          sym (
            recorded-load d s t serde apart fresh done
              (ap (λ f. head_fault f.faults) (sym disk) ∙ w))
          ∙ ap (λ f. (load_interrupted_turns d.interrupted_turns_path f).0) (sym disk)
          ∙ loaded)
