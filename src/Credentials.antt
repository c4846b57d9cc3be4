-- ===== src/Credentials.antt =====
-- crates/supervisor/src/credentials.rs, as it is built on Unix: named secrets, kept in memory and in
-- one document below the home's credentials directory.
pub mod Atomic
pub mod Lookup
pub mod Reload
mod Examples
use Prim.Native.Char.{Char, code}
use aiohub_plugin_dsh_worksp.Prelude.{
  ℕ, String, Bool, true, false, ◌&&◌, ◌||◌, Option, none, some, is_some, List, [], ◌∷◌, Result, ok,
  err, ◌>>=◌, ◌>>◌, map_err, all, leb, ◌==◌, if◌then◌else◌,
}
use aiohub_plugin_dsh_worksp.Prelude.Text.{chars}
use aiohub_plugin_dsh_worksp.Ordered.{get, insert}
use aiohub_plugin_dsh_worksp.Ordered.Order.{text_ord}
use aiohub_plugin_dsh_worksp.Files
use aiohub_plugin_dsh_worksp.Files.{
  Files, IoError, Task, Io, create_dir_all, set_permissions, exists, create_new, write, sync_all,
  read, rename, remove_file, or_else, check, pure,
}
use aiohub_plugin_dsh_worksp.Paths.{join, parent, with_extension}
use aiohub_plugin_dsh_worksp.Home.{DshHomeLayout}

pub record CredentialInfo : Type 0 where
  pub configured : Bool
  pub writable : Bool

pub record Credential : Type 0 where
  pub secret : String

-- `Credential::value`.
abbrev pub value : Credential → Option String
value c = some c.secret

pub record Credentials : Type 0 where
  pub path : String
  pub entries : List (String × String)

pub data CredentialError : Type 0 where
  invalid_ref : String → CredentialError
  io : IoError → CredentialError
  json : String → CredentialError

-- serde's format of `CredentialDocument`, as far as the code relies on it.
pub record CredentialFormat : Type 0 where
  pub document_text : List (String × String) → Result String String
  pub read_document : String → Result String (List (String × String))

abbrev pub is_upper : ℕ → Bool
is_upper c = leb b'A' c && leb c b'Z'

abbrev pub is_ref_char : ℕ → Bool
is_ref_char c = is_upper c || (leb b'0' c && leb c b'9') || c == b'_'

is_ref : List Char → Bool
is_ref [] = false
is_ref (c ∷ cs) = is_upper (code c) && all (λ d. is_ref_char (code d)) cs

unfoldable pub validate_ref : String → Result CredentialError (Unit {0})
unfolding is_ref
validate_ref key = if is_ref (chars key) then ok tt else err (invalid_ref key)

-- The loop at the start of `replace`: the map so far, and the entries to come.
unfoldable pub gather :
    List (String × String)
    → List (String × String)
    → Result CredentialError (List (String × String))
gather next [] = ok next
gather next ((key, v) ∷ entries) = validate_ref key >> gather (insert key v next) entries

unfoldable pub apply_directory_mode : String → Io (Unit {0})
apply_directory_mode path = set_permissions path 448

unfoldable pub apply_secret_mode : String → Io (Unit {0})
apply_secret_mode path = set_permissions path 384

-- A new file of mode 0o600, written and synced.
unfoldable pub write_secret_file : String → String → Io (Unit {0})
unfolding apply_secret_mode
write_secret_file path text =
    Files.◌>>◌ (create_new path 384)
      (Files.◌>>◌ (write path text) (Files.◌>>◌ (sync_all path) (apply_secret_mode path)))

unfoldable pub make_parent : Option String → Io (Unit {0})
unfolding apply_directory_mode
make_parent none = pure tt
make_parent (some dir) = Files.◌>>◌ (create_dir_all dir) (apply_directory_mode dir)

abbrev pub remove_if : Bool → String → Io (Unit {0})
remove_if there path = if there then remove_file path else pure tt

-- `if path.exists() { fs::remove_file(path)? }`.
unfoldable pub remove_existing : String → Io (Unit {0})
remove_existing path s = let (there, t) = exists path s in remove_if there path t

-- From the temporary file on: it is written anew, takes the document's place, and the mode is set.
unfoldable pub replace_document : String → String → Io (Unit {0})
unfolding write_secret_file remove_existing apply_secret_mode
replace_document path text =
    let temp = with_extension path "json.tmp" in
    Files.◌>>◌ (remove_existing temp) (
      Files.◌>>◌ (write_secret_file temp text)
        (Files.◌>>◌ (rename temp path) (apply_secret_mode path)))

abbrev pub document_of : DshHomeLayout → String
document_of home = join home.credentials_dir "credentials.json"

module _ ⦃format : CredentialFormat⦄ where
  -- What `replace` does to the disk.
  unfoldable pub store : String → List (String × String) → Task CredentialError (Unit {0})
  unfolding remove_existing make_parent replace_document
  store path [] = or_else io (remove_existing path)
  store path (entry ∷ next) = Files.◌>>◌ (or_else io (make_parent (parent path))) (
      Files.◌>>=◌ (check (map_err json (format.document_text (entry ∷ next))))
        λ text. or_else io (replace_document path text))

  abbrev pub settle :
      Credentials
      → List (String × String)
      → Result CredentialError (Unit {0}) × Files
      → Result CredentialError (Unit {0}) × Credentials × Files
  settle c next (ok done, t) = (ok tt, record c { entries = next }, t)
  settle c next (err e, t) = (err e, c, t)

  abbrev pub replace_with :
      Credentials
      → Result CredentialError (List (String × String))
      → Files
      → Result CredentialError (Unit {0}) × Credentials × Files
  replace_with c (err e) s = (err e, c, s)
  replace_with c (ok next) s = settle c next (store c.path next s)

  unfoldable pub replace :
      List (String × String)
      → Credentials
      → Files
      → Result CredentialError (Unit {0}) × Credentials × Files
  replace entries c s = replace_with c (gather [] entries) s

  unfoldable pub clear :
      Credentials → Files → Result CredentialError (Unit {0}) × Credentials × Files
  unfolding replace
  clear = replace []

  loaded : Bool → String → Task CredentialError (List (String × String))
  loaded false path = pure []
  loaded true path =
      Files.◌>>=◌ (or_else io (read path)) λ text. check (map_err json (format.read_document text))

  -- `Credentials::new`.
  unfoldable pub new : DshHomeLayout → Task CredentialError Credentials
  unfolding loaded
  new home s =
      let path = document_of home in
      let (there, t) = exists path s in
      Files.◌>>=◌ (loaded there path) (λ entries. pure (record { path = path; entries = entries }))
        t

unfoldable pub resolve : String → Credentials → Result CredentialError (Option Credential)
resolve key c =
    validate_ref key
    >> elim (get key c.entries) [ none ↦ ok none | some v ↦ ok (some (record { secret = v })) ]

unfoldable pub describe : String → Credentials → Result CredentialError CredentialInfo
describe key c =
    validate_ref key >> ok (record { configured = is_some (get key c.entries); writable = true })
