-- ===== src/Files.antt =====
-- The file system as the code uses `std::fs` on Unix: texts by path, the directories, permission
-- bits, and for each operation to come whether it fails. A failed write may leave any text behind; a
-- failed removal of a directory may leave any part of it; another failed operation changes nothing.
pub mod Laws
pub mod Leaves
use aiohub_plugin_dsh_worksp.Prelude.{
  ℕ, String, Bool, true, false, not, ◌&&◌, ◌||◌, is_some, Option, none, some, List, [], ◌∷◌, ◌++◌,
  Result, ok, err, str_eq, if◌then◌else◌, map_err,
}
use aiohub_plugin_dsh_worksp.Prelude.Text.{format, starts_with}
use aiohub_plugin_dsh_worksp.Paths.{separated}

pub data IoError : Type 0 where
  not_found : IoError
  failed : String → IoError

-- `Display` of `io::Error`, on Linux.
abbrev pub display_io : IoError → String
display_io not_found = "No such file or directory (os error 2)"
display_io (failed message) = message

pub data Fault : Type 0 where
  works : Fault
  fails : String → Fault
  -- What a broken write leaves behind.
  tears : String → String → Fault

pub record Files : Type 0 where
  pub contents : String → Option String
  pub dirs : String → Bool
  pub modes : String → ℕ
  pub faults : List Fault

abbrev pub head_fault : List Fault → Fault
head_fault [] = works
head_fault (fault ∷ rest) = fault

abbrev pub tail_faults : List Fault → List Fault
tail_faults [] = []
tail_faults (fault ∷ rest) = rest

abbrev pub put : (String → Option String) → String → Option String → String → Option String
put contents path v other = if str_eq path other then v else contents other

-- Code that may fail with an error of type `E`, and changes a state.
abbrev pub Act : Type 0 → Type 0 → Type 0 → Type 0
Act S E A = S → Result E A × S

abbrev pub Task : Type 0 → Type 0 → Type 0
Task = Act Files

abbrev pub Io : Type 0 → Type 0
Io = Task IoError

abbrev advance : Files → Files
advance s = record s { faults = tail_faults s.faults }

-- Runs an operation, or fails as the schedule says.
abbrev attempt : {A : Type 0} → Fault → Io A → Io A
attempt works op s = op (advance s)
attempt (fails message) op s = (err (failed message), advance s)
attempt (tears left message) op s = (err (failed message), advance s)

abbrev pub found : Option String → Result IoError String
found none = err not_found
found (some text) = ok text

unfoldable pub read : String → Io String
read path s = attempt (head_fault s.faults) (λ t. (found (t.contents path), t)) s

-- A path is the directory or stands below it; the empty path is the directory of the process, from
-- which all others are told.
unfoldable pub within : String → String → Bool
within dir path = str_eq dir path || starts_with (format (separated dir ∷ [])) path

-- The directory and those that it stands in.
unfoldable pub create_dir_all : String → Io (Unit {0})
create_dir_all path s =
    attempt (head_fault s.faults)
      (λ t. (ok tt, record t { dirs = λ dir. within dir path || t.dirs dir })) s

-- `Path::exists`: an error counts as absent.
unfoldable pub exists : String → Files → Bool × Files
exists path s = elim (head_fault s.faults) [
  | works ↦ (is_some (s.contents path) || s.dirs path, advance s)
  | fails message ↦ (false, advance s)
  | tears left message ↦ (false, advance s)
]

create_at : String → ℕ → Option String → Io (Unit {0})
create_at path mode none s = (
  ok tt,
  record s {
    contents = put s.contents path (some "");
    modes = λ other. if str_eq path other then mode else s.modes other;
  },
)
create_at path mode (some text) s = (err (failed "File exists"), s)

-- `OpenOptions` with `create_new` and a mode: an empty file where there was none.
unfoldable pub create_new : String → ℕ → Io (Unit {0})
unfolding create_at
create_new path mode s =
    attempt (head_fault s.faults) (λ t. create_at path mode (t.contents path) t) s

unfoldable pub set_permissions : String → ℕ → Io (Unit {0})
set_permissions path mode s =
    attempt (head_fault s.faults)
      (λ t.
        (ok tt, record t { modes = λ other. if str_eq path other then mode else t.modes other }))
      s

unfoldable pub sync_all : String → Io (Unit {0})
sync_all path s = attempt (head_fault s.faults) (λ t. (ok tt, t)) s

-- Without the paths for which the test holds.
abbrev pub without : (String → Bool) → Files → Files
without test s = record s {
  contents = λ path. if test path then none else s.contents path;
  dirs = λ path. if test path then false else s.dirs path;
}

-- Where it breaks off, what stands within `left` is still there.
unfoldable pub remove_dir_all : String → Io (Unit {0})
remove_dir_all path s = elim (head_fault s.faults) [
  | works ↦ (ok tt, without (within path) (advance s))
  | fails message ↦ (err (failed message), advance s)
  | tears left message ↦ (
    err (failed message),
    without (λ other. within path other && not (within left other)) (advance s),
  )
]

unfoldable pub write : String → String → Io (Unit {0})
write path text s = elim (head_fault s.faults) [
  | works ↦ (ok tt, record (advance s) { contents = put s.contents path (some text) })
  | fails message ↦ (err (failed message), advance s)
  | tears left message ↦
      (err (failed message), record (advance s) { contents = put s.contents path (some left) })
]

move : String → String → Option String → Io (Unit {0})
move from to none s = (err not_found, s)
move from to (some text) s = (
  ok tt,
  record s {
    contents = put (put s.contents from none) to (some text);
    modes = λ path. if str_eq to path then s.modes from else s.modes path;
  },
)

unfoldable pub rename : String → String → Io (Unit {0})
unfolding move
rename from to s = attempt (head_fault s.faults) (λ t. move from to (t.contents from) t) s

erase : String → Option String → Io (Unit {0})
erase path none s = (err not_found, s)
erase path (some text) s = (ok tt, record s { contents = put s.contents path none })

unfoldable pub remove_file : String → Io (Unit {0})
unfolding erase
remove_file path s = attempt (head_fault s.faults) (λ t. erase path (t.contents path) t) s

-- A block with `?` after each step: the first error ends it, and what was done stays done.
module _ {S E A B : Type 0} where
  abbrev pub continue : Result E A → (A → Act S E B) → Act S E B
  continue (ok a) f s = f a s
  continue (err e) f s = (err e, s)

  infixl 5 ◌>>=◌
  abbrev pub ◌>>=◌ : Act S E A → (A → Act S E B) → Act S E B
  ◌>>=◌ m f s = let (r, t) = m s in continue r f t

infixl 5 ◌>>◌
abbrev pub ◌>>◌ : {S E B : Type 0} → Act S E (Unit {0}) → Act S E B → Act S E B
m >> k = m >>= λ _. k

module _ {S E A : Type 0} where
  abbrev pub pure : A → Act S E A
  pure a s = (ok a, s)

  abbrev pub throw : E → Act S E A
  throw e s = (err e, s)

  -- `?` on a result that no file operation gave.
  abbrev pub check : Result E A → Act S E A
  check r s = (r, s)

  -- `?` on an error that `From` converts.
  abbrev pub or_else : {D : Type 0} → (D → E) → Act S D A → Act S E A
  or_else f m s = let (r, t) = m s in (map_err f r, t)
