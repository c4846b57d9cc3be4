-- ===== src/Driver/Ledger/Durable.antt =====
-- The ledger of interrupted turns on disk: it is never torn, and a turn that was recorded is read
-- back.
use aiohub_plugin_dsh_worksp.Prelude.{
  String, true, false, Option, none, some, List, ◌≡◌, refl, ap, ◌∙◌, if-cases, str_eq, Result, ok,
  err, map_err, ◌||◌,
}
use aiohub_plugin_dsh_worksp.Ordered.{contains, add}
use aiohub_plugin_dsh_worksp.Ordered.Order.{pair_ord, same, same_iff}
use aiohub_plugin_dsh_worksp.Ordered.Sets.{contains-add}
use aiohub_plugin_dsh_worksp.Paths.{parent, with_extension}
use aiohub_plugin_dsh_worksp.Files
use aiohub_plugin_dsh_worksp.Files.{
  Files, Fault, works, fails, tears, put, head_fault, IoError, not_found, failed, read,
  create_dir_all, write, rename,
}
use aiohub_plugin_dsh_worksp.Files.Laws.{
  Did, Did-map, write-other, write-path, rename-target, create_dir_all-contents,
}
use aiohub_plugin_dsh_worksp.Driver.State.{
  Environment, Driver, MainError, io, config, InterruptedTurnKey,
}
use aiohub_plugin_dsh_worksp.Driver.Step
use aiohub_plugin_dsh_worksp.Driver.Step.{lift, on_disk, ◌>>=◌}
use aiohub_plugin_dsh_worksp.Driver.Step.Kept.{Kept, bind-Kept, lift-Kept, on_disk-Kept}
use aiohub_plugin_dsh_worksp.Driver.Ledger.{
  replace_ledger, create_parent, save_ledger, record_interrupted_turn, is_interrupted_turn,
}

abbrev pub temporary : String → String
temporary path = with_extension path "json.tmp"

-- Under any faults, the file is the new text where both steps worked and is as before otherwise.
pub replace_ledger-Did :
    (path text : String) (s : Files)
    → str_eq (temporary path) path ≡ false
    → Did
        (replace_ledger path text s).0
        ((replace_ledger path text s).1.contents path ≡ some text)
        ((replace_ledger path text s).1.contents path ≡ s.contents path)
unfolding replace_ledger
replace_ledger-Did path text s h =
    go (write (temporary path) text s) (write-path (temporary path) text s)
      (write-other (temporary path) text path s h)
  where
    go :
        (w : Result IoError (Unit {0}) × Files)
        → Did w.0 (w.1.contents (temporary path) ≡ some text) Unit
        → w.1.contents path ≡ s.contents path
        → Did
            (Files.continue w.0 (λ u. rename (temporary path) path) w.1).0
            ((Files.continue w.0 (λ u. rename (temporary path) path) w.1).1.contents path
              ≡ some text)
            ((Files.continue w.0 (λ u. rename (temporary path) path) w.1).1.contents path
              ≡ s.contents path)
    go (ok done, t) new same =
        Did-map (rename (temporary path) path t).0 (λ e. e ∙ new) (λ e. e ∙ same)
          (rename-target (temporary path) path t)
    go (err e, t) new same = same

create_parent-contents :
    (o : Option String) (s : Files) → (create_parent o s).1.contents ≡ s.contents
create_parent-contents none s = refl
create_parent-contents (some dir) s = create_dir_all-contents dir s

-- After a save: the file holds the ledger as it is in memory, or the save failed and the file is as
-- before. There is no third case.
abbrev pub Saved :
    {Sup : Type 0}
    → ⦃env : Environment⦄ → (String → Option String)
    → Driver Sup
    → Result MainError (Unit {0})
    → Type 0
Saved ⦃env⦄ before d (ok done) =
    (text : String) × ((env.ledger_text d.interrupted_turns ≡ ok text)
      × (d.disk.contents d.interrupted_turns_path ≡ some text))
Saved before d (err e) = d.disk.contents d.interrupted_turns_path ≡ before d.interrupted_turns_path

module _ ⦃env : Environment⦄ {Sup : Type 0} where
  abbrev Sound : (String → Option String) → Result MainError (Unit {0}) × Driver Sup → Type 0
  Sound before x = Saved before x.1 x.0

  replaced-Sound :
      (before : String → Option String) (d : Driver Sup) (text : String)
      → str_eq (temporary d.interrupted_turns_path) d.interrupted_turns_path ≡ false
      → d.disk.contents d.interrupted_turns_path ≡ before d.interrupted_turns_path
      → env.ledger_text d.interrupted_turns ≡ ok text
      → Sound before (on_disk (replace_ledger d.interrupted_turns_path text) d)
  unfolding on_disk
  replaced-Sound before d text h same e =
      go (replace_ledger d.interrupted_turns_path text d.disk)
        (replace_ledger-Did d.interrupted_turns_path text d.disk h)
    where
      go :
          (x : Result IoError (Unit {0}) × Files)
          → Did x.0
              (x.1.contents d.interrupted_turns_path ≡ some text)
              (x.1.contents d.interrupted_turns_path ≡ d.disk.contents d.interrupted_turns_path)
          → Sound before (map_err io x.0, record d { disk = x.1 })
      go (ok done, files) new = (text, (e, new))
      go (err bad, files) old = old ∙ same

  serialized-Sound :
      (before : String → Option String) (d : Driver Sup)
      → str_eq (temporary d.interrupted_turns_path) d.interrupted_turns_path ≡ false
      → d.disk.contents d.interrupted_turns_path ≡ before d.interrupted_turns_path
      → Sound before (
          (lift (map_err config (env.ledger_text d.interrupted_turns)) >>= λ text.
          on_disk (replace_ledger d.interrupted_turns_path text))
            d)
  serialized-Sound before d h same = go (env.ledger_text d.interrupted_turns) refl
    where
      go :
          (r : Result String String)
          → env.ledger_text d.interrupted_turns ≡ r
          → Sound before (
              Step.continue
                (map_err config r)
                (λ text. on_disk (replace_ledger d.interrupted_turns_path text))
                d)
      go (ok text) e = replaced-Sound before d text h same e
      go (err e') e = same

  save_ledger-Sound :
      (d : Driver Sup)
      → str_eq (temporary d.interrupted_turns_path) d.interrupted_turns_path ≡ false
      → Sound d.disk.contents (save_ledger d)
  unfolding save_ledger on_disk
  save_ledger-Sound d h =
      go (create_parent (parent d.interrupted_turns_path) d.disk)
        (create_parent-contents (parent d.interrupted_turns_path) d.disk)
    where
      go :
          (x : Result IoError (Unit {0}) × Files)
          → x.1.contents ≡ d.disk.contents
          → Sound d.disk.contents (
              Step.continue
                (map_err io x.0)
                (λ made. lift (map_err config (env.ledger_text d.interrupted_turns)) >>= λ text.
                  on_disk (replace_ledger d.interrupted_turns_path text))
                (record d { disk = x.1 }))
      go (ok done, files) same =
          serialized-Sound d.disk.contents (record d { disk = files }) h
            (ap (λ c. c d.interrupted_turns_path) same)
      go (err bad, files) same = ap (λ c. c d.interrupted_turns_path) same

  save_ledger-Kept :
      {X : Type 0} (f : Driver Sup → X)
      → ((d : Driver Sup) (disk : Files) → f (record d { disk = disk }) ≡ f d)
      → Kept f save_ledger
  unfolding save_ledger
  save_ledger-Kept f free = record {
    kept = λ d.
        (bind-Kept f (on_disk-Kept f free (create_parent (parent d.interrupted_turns_path)))
            (λ made.
              bind-Kept f (lift-Kept f (map_err config (env.ledger_text d.interrupted_turns)))
                (λ text. on_disk-Kept f free (replace_ledger d.interrupted_turns_path text)))).kept
          d;
  }

  pub record-Kept :
      {X : Type 0} (f : Driver Sup → X) (s t : String)
      → ((d : Driver Sup) (disk : Files) → f (record d { disk = disk }) ≡ f d)
      → ((d : Driver Sup) (turns : List InterruptedTurnKey)
          → f (record d { interrupted_turns = turns }) ≡ f d)
      → Kept f (record_interrupted_turn s t)
  unfolding record_interrupted_turn
  record-Kept f s t free also = record {
    kept = λ d.
        if-cases (λ (x : Result MainError (Unit {0}) × Driver Sup). f x.1 ≡ f d)
          (is_interrupted_turn d s t) _ _ (λ h. refl)
          (λ h. (save_ledger-Kept f free).kept (record d { interrupted_turns = _ }) ∙ also d _);
  }

  -- Whatever comes of the disk, the turn that was to be recorded counts as interrupted from then on.
  pub record-is_interrupted :
      (d : Driver Sup) (s t : String)
      → is_interrupted_turn (record_interrupted_turn s t d).1 s t ≡ true
  unfolding record_interrupted_turn is_interrupted_turn
  record-is_interrupted d s t =
      if-cases
        (λ (x : Result MainError (Unit {0}) × Driver Sup). is_interrupted_turn x.1 s t ≡ true)
        (is_interrupted_turn d s t) _ _ (λ h. h)
        (λ h.
          ap (contains (s, t)) (
            (save_ledger-Kept (λ (d : Driver Sup). d.interrupted_turns) (λ d disk. refl)).kept
              (record d { interrupted_turns = add (s, t) d.interrupted_turns }))
          ∙ (contains-add (s, t) (s, t) d.interrupted_turns
              ∙ rw ((same_iff {K = String × String} (s, t) (s, t)).1 refl)))

  -- Recording a turn that is not in the ledger, whose path is not that of the temporary file, under
  -- any faults of the disk, leaves in memory the ledger with exactly that turn more, and on the disk
  -- the text of that ledger or, with an error, exactly what was there.
  pub record-Saved :
      (d : Driver Sup) (s t : String)
      → str_eq (temporary d.interrupted_turns_path) d.interrupted_turns_path ≡ false
      → is_interrupted_turn d s t ≡ false
      → Saved d.disk.contents (record_interrupted_turn s t d).1 (record_interrupted_turn s t d).0
        × ((key : InterruptedTurnKey)
            → contains key (record_interrupted_turn s t d).1.interrupted_turns
              ≡ (same key (s, t) || contains key d.interrupted_turns))
  unfolding record_interrupted_turn
  record-Saved d s t h new = (
    rw new (save_ledger-Sound (record d { interrupted_turns = _ }) h),
    λ key. rw new (
        ap (contains key) (
          (save_ledger-Kept (λ (d : Driver Sup). d.interrupted_turns) (λ d disk. refl)).kept
            (record d { interrupted_turns = add (s, t) d.interrupted_turns }))
        ∙ contains-add key (s, t) d.interrupted_turns),
  )
