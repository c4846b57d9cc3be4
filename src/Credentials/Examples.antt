-- ===== src/Credentials/Examples.antt =====
-- The theorems at a store of one name, with a text format that holds the value of that name.
use aiohub_plugin_dsh_worksp.Prelude.{
  String, true, false, none, some, List, [], ◌∷◌, ◌≡◌, refl, arith, str_eq, str_eq_iff, Result, ok,
  err, if◌then◌else◌,
}
use aiohub_plugin_dsh_worksp.Prelude.Text.{format, starts_with}
use aiohub_plugin_dsh_worksp.Ordered.{insert}
use aiohub_plugin_dsh_worksp.Ordered.Order.{text_lt}
use aiohub_plugin_dsh_worksp.Paths.{with_extension, parent}
use aiohub_plugin_dsh_worksp.Files.{
  Files, fails, within, exists, create_dir_all, set_permissions, create_new, write, sync_all,
  rename, remove_file,
}
use aiohub_plugin_dsh_worksp.Home.{DshHomeLayout}
use aiohub_plugin_dsh_worksp.Credentials.{
  Credentials, CredentialFormat, validate_ref, gather, replace, clear, store, replace_document,
  remove_existing, write_secret_file, apply_secret_mode, apply_directory_mode, make_parent, new,
  resolve, describe, document_of,
}
use aiohub_plugin_dsh_worksp.Credentials.Atomic.{temporary, Replaced, replace-Replaced}
use aiohub_plugin_dsh_worksp.Credentials.Lookup.{resolve-replace}
use aiohub_plugin_dsh_worksp.Credentials.Reload.{RoundTrips, settled, replace-new}

abbrev one_text : List (String × String) → Result String String
one_text ((key, v) ∷ []) = if str_eq key "API_KEY" then ok v else err "another name"
one_text _ = err "not one name"

instance abbrev one_format : CredentialFormat
one_format = record {
  document_text = one_text;
  read_document = λ text. ok (("API_KEY", text) ∷ []);
}

one_format-RoundTrips : RoundTrips one_format
one_format-RoundTrips [] text h = absurd (ground arith)
one_format-RoundTrips ((key, v) ∷ []) text h = ground (arith, str_eq_iff key "API_KEY")
one_format-RoundTrips ((key, v) ∷ u ∷ us) text h = absurd (ground arith)

abbrev home : DshHomeLayout
home = record {
  root = "/h";
  data_dir = "/h/data";
  sessions_dir = "/h/sessions";
  credentials_dir = "/h/credentials";
  runtime_dir = "/h/runtime";
  logs_dir = "/h/logs";
  temp_dir = "/h/temp";
}

abbrev document : String
document = "/h/credentials/credentials.json"

abbrev old : Credentials
old = record { path = document_of home; entries = ("API_KEY", "old") ∷ [] }

abbrev disk : Files
disk = record {
  contents = λ path. if str_eq path document then some "old" else none;
  dirs = λ path. false;
  modes = λ path. 0;
  faults = [];
}

abbrev given : List (String × String)
given = ("API_KEY", "first") ∷ ("API_KEY", "new") ∷ []

temporary_apart : str_eq (temporary (document_of home)) (document_of home) ≡ false
unfolding with_extension format
temporary_apart = refl

gathered : gather [] given ≡ ok (("API_KEY", "new") ∷ [])
unfolding gather validate_ref insert text_lt
gathered = refl

replaces : (replace given old disk).0 ≡ ok tt
unfolding replace text_lt gather validate_ref insert store make_parent apply_directory_mode
    replace_document remove_existing write_secret_file apply_secret_mode exists create_dir_all
    set_permissions create_new write sync_all rename remove_file with_extension parent format within
    starts_with
replaces = refl

valid : validate_ref "API_KEY" ≡ ok tt
unfolding validate_ref
valid = refl

replace-Replaced_example :
    Replaced old
      (record disk { faults = fails "full" ∷ [] })
      (gather [] given)
      (replace given old (record disk { faults = fails "full" ∷ [] }))
replace-Replaced_example =
    replace-Replaced given old (record disk { faults = fails "full" ∷ [] }) temporary_apart

resolve-replace_example :
    (resolve "API_KEY" (replace given old disk).1 ≡ ok (some (record { secret = "new" })))
    × (describe "API_KEY" (replace given old disk).1
        ≡ ok (record { configured = true; writable = true }))
unfolding text_lt
resolve-replace_example = resolve-replace given old disk "API_KEY" replaces valid

replace-new_example :
    (new home (settled (replace given old disk).2)).0 ≡ ok (replace given old disk).1
replace-new_example =
    replace-new one_format-RoundTrips home (("API_KEY", "old") ∷ []) given [] ("API_KEY", "new")
      disk temporary_apart gathered replaces

-- Where the look at the document fails, a removal of all credentials succeeds and the document stays.
clear_blind :
    ((clear old (record disk { faults = fails "denied" ∷ [] })).0 ≡ ok tt)
    × ((clear old (record disk { faults = fails "denied" ∷ [] })).2.contents document ≡ some "old")
unfolding clear gather store remove_existing exists
clear_blind = (refl, refl)
