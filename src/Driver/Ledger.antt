-- ===== src/Driver/Ledger.antt =====
-- crates/supervisor/src/main.rs: the ledger of interrupted turns, in memory and on disk.
pub mod Durable
use aiohub_plugin_dsh_worksp.Prelude.{
  String, Bool, Option, none, some, List, [], Result, ok, err, map_err, if◌then◌else◌,
}
use aiohub_plugin_dsh_worksp.Ordered.{contains, add}
use aiohub_plugin_dsh_worksp.Ordered.Order.{pair_ord}
use aiohub_plugin_dsh_worksp.Paths.{join, parent, with_extension}
use aiohub_plugin_dsh_worksp.Files
use aiohub_plugin_dsh_worksp.Files.{
  Io, IoError, not_found, failed, read, create_dir_all, write, rename, remove_file,
}
use aiohub_plugin_dsh_worksp.Driver.State.{Environment, Driver, config, InterruptedTurnKey}
use aiohub_plugin_dsh_worksp.Driver.Step.{Step, lift, on_disk, ◌>>=◌, ◌>>◌}

abbrev pub interrupted_turn_ledger_file : String
interrupted_turn_ledger_file = "interrupted-turns.json"

unfoldable pub interrupted_turns_path : String → String
interrupted_turns_path plugin_data_dir =
    join (join plugin_data_dir "runtime") interrupted_turn_ledger_file

abbrev create_parent : Option String → Io (Unit {0})
create_parent none = Files.pure tt
create_parent (some dir) = create_dir_all dir

-- What is written to the disk: a temporary file beside the ledger, which then takes its place.
unfoldable pub replace_ledger : String → String → Io (Unit {0})
replace_ledger path text =
    Files.◌>>◌ (write (with_extension path "json.tmp") text)
      (rename (with_extension path "json.tmp") path)

module _ {Sup : Type 0} where
  unfoldable pub is_interrupted_turn : Driver Sup → String → String → Bool
  is_interrupted_turn d session_id turn_id = contains (session_id, turn_id) d.interrupted_turns

module _ ⦃env : Environment⦄ where
  save_ledger : {Sup : Type 0} → Step Sup (Unit {0})
  unfolding replace_ledger
  save_ledger d =
      (do
        on_disk (create_parent (parent d.interrupted_turns_path))
        serialized ← lift (map_err config (env.ledger_text d.interrupted_turns))
        on_disk (replace_ledger d.interrupted_turns_path serialized))
        d

  unfoldable pub record_interrupted_turn : {Sup : Type 0} → String → String → Step Sup (Unit {0})
  unfolding save_ledger is_interrupted_turn
  record_interrupted_turn session_id turn_id d =
      if is_interrupted_turn d session_id turn_id
      then (ok tt, d)
      else save_ledger
          (record d { interrupted_turns = add (session_id, turn_id) d.interrupted_turns })

  -- A ledger that cannot be read back is put aside; the file there before is removed, if it can be.
  quarantine : String → Io (List InterruptedTurnKey)
  quarantine path files =
      let aside = with_extension path "json.corrupt" in
      let (removed, cleared) = remove_file aside files in
      Files.◌>>◌ (rename path aside) (Files.pure []) cleared

  decoded : String → Result String (List InterruptedTurnKey) → Io (List InterruptedTurnKey)
  unfolding quarantine
  decoded path (ok turns) = Files.pure turns
  decoded path (err e) = quarantine path

  loaded : String → Result IoError String → Io (List InterruptedTurnKey)
  unfolding decoded
  loaded path (ok text) files = decoded path (env.read_ledger text) files
  loaded path (err not_found) files = (ok [], files)
  loaded path (err (failed message)) files = (err (failed message), files)

  -- `load_interrupted_turns`, without the line that it writes to the standard error.
  unfoldable pub load_interrupted_turns : String → Io (List InterruptedTurnKey)
  unfolding loaded
  load_interrupted_turns path files = let (r, after) = read path files in loaded path r after
