-- ===== src/Driver/Examples/Turns.antt =====
-- The theorems on turns at the driver of the examples: a turn that crashes, and the next driver.
use aiohub_plugin_dsh_worksp.Prelude.{◌||◌, true, false, some, [], ◌∷◌, ◌≡◌, refl, ok, str_eq}
use aiohub_plugin_dsh_worksp.Prelude.Text.{format}
use aiohub_plugin_dsh_worksp.Ordered.{get, contains, add}
use aiohub_plugin_dsh_worksp.Ordered.Order.{same, text_ord, pair_ord, text_lt, pair_lt}
use aiohub_plugin_dsh_worksp.Json.{Json, null, str, json}
use aiohub_plugin_dsh_worksp.Json
use aiohub_plugin_dsh_worksp.Files.{works, head_fault, write, rename, create_dir_all, read}
use aiohub_plugin_dsh_worksp.Paths.{with_extension, parent}
use aiohub_plugin_dsh_worksp.Protocol.Envelope.{ping}
use aiohub_plugin_dsh_worksp.Driver.State.{Driver, InterruptedTurnKey}
use aiohub_plugin_dsh_worksp.Driver.Mutations.Unheld.{Refused}
use aiohub_plugin_dsh_worksp.Driver.Step.{on_disk}
use aiohub_plugin_dsh_worksp.Driver.Ledger.{
  replace_ledger, is_interrupted_turn, record_interrupted_turn, load_interrupted_turns,
}
use aiohub_plugin_dsh_worksp.Driver.Ledger.Durable.{temporary, Saved, record-Saved}
use aiohub_plugin_dsh_worksp.Driver.Turns.{should_crash, handle_submit_like}
use aiohub_plugin_dsh_worksp.Driver.Turns.Refused.{submit_interrupted}
use aiohub_plugin_dsh_worksp.Driver.Turns.Replay.{crash_not_replayed}
use aiohub_plugin_dsh_worksp.Driver.Examples.{
  example_env, written-RoundTrips, envelope, held, held-Holds,
}

-- The next driver, which has read the turn back.
abbrev next : Driver Unit
next = record held { interrupted_turns = ("main", "t1") ∷ [] }

next_interrupted : is_interrupted_turn next "main" "t1" ≡ true
unfolding is_interrupted_turn contains pair_lt text_lt
next_interrupted = refl

submit_interrupted_example :
    Refused next
      (envelope ping)
      "main"
      "lease-1"
      (some "t1")
      (handle_submit_like (envelope ping) "main" "lease-1" "t1" null "submit-prompt" next).0
    × ((handle_submit_like (envelope ping) "main" "lease-1" "t1" null "submit-prompt" next).1
        ≡ next)
submit_interrupted_example =
    submit_interrupted next (envelope ping) "main" "lease-1" "t1" null "submit-prompt"
      next_interrupted

held_fresh : is_interrupted_turn held "main" "t1" ≡ false
unfolding is_interrupted_turn contains
held_fresh = refl

apart : str_eq (temporary held.interrupted_turns_path) held.interrupted_turns_path ≡ false
unfolding with_extension format
apart = refl

record-Saved_example :
    Saved held.disk.contents
      (record_interrupted_turn "main" "t1" held).1
      (record_interrupted_turn "main" "t1" held).0
    × ((key : InterruptedTurnKey)
        → contains key (record_interrupted_turn "main" "t1" held).1.interrupted_turns
          ≡ (same key ("main", "t1") || contains key held.interrupted_turns))
record-Saved_example = record-Saved held "main" "t1" apart held_fresh

recorded : (record_interrupted_turn "main" "t1" held).0 ≡ ok tt
unfolding record_interrupted_turn is_interrupted_turn contains add pair_lt text_lt on_disk
    create_dir_all replace_ledger write rename with_extension parent format
recorded = refl

abbrev crash : Json
crash = json (("crashToken", str "boom") ∷ [])

crashes : should_crash held crash ≡ true
unfolding should_crash Json.get
crashes = refl

crashed_disk :
    head_fault
      (handle_submit_like
        (envelope ping)
        "main"
        "lease-1"
        "t1"
        crash
        "submit-prompt"
        held).1.disk.faults
    ≡ works
unfolding record_interrupted_turn is_interrupted_turn contains add pair_lt text_lt on_disk
    create_dir_all replace_ledger write rename with_extension parent format handle_submit_like get
    should_crash Json.get
crashed_disk = refl

reloaded :
    (load_interrupted_turns held.interrupted_turns_path
      (handle_submit_like
        (envelope ping)
        "main"
        "lease-1"
        "t1"
        crash
        "submit-prompt"
        held).1.disk).0
    ≡ ok next.interrupted_turns
unfolding record_interrupted_turn is_interrupted_turn contains add pair_lt text_lt on_disk
    create_dir_all replace_ledger write rename with_extension parent format handle_submit_like get
    should_crash Json.get load_interrupted_turns read
reloaded = refl

crash_not_replayed_example :
    Refused next
      (envelope ping)
      "main"
      "lease-1"
      (some "t1")
      (handle_submit_like (envelope ping) "main" "lease-1" "t1" null "steer" next).0
    × ((handle_submit_like (envelope ping) "main" "lease-1" "t1" null "steer" next).1 ≡ next)
crash_not_replayed_example =
    crash_not_replayed held next (envelope ping) (envelope ping) "main" "lease-1" "lease-1" "t1"
      crash null "submit-prompt" "steer" written-RoundTrips apart held-Holds held_fresh crashes
      recorded crashed_disk reloaded
