-- ===== src/Driver/Step.antt =====
-- crates/supervisor/src/main.rs: a method of the driver as state passing. A `?` keeps the driver as
-- it stands at the error.
pub mod Kept
use aiohub_plugin_dsh_worksp.Prelude.{Result, ok, err, map_err}
use aiohub_plugin_dsh_worksp.Files.{Io}
use aiohub_plugin_dsh_worksp.Driver.State.{Driver, MainError, io}

abbrev pub Step : Type 0 → Type 0 → Type 0
Step Sup A = Driver Sup → Result MainError A × Driver Sup

module _ {Sup A : Type 0} where
  abbrev pub pure : A → Step Sup A
  pure a d = (ok a, d)

  abbrev pub lift : Result MainError A → Step Sup A
  lift r d = (r, d)

  -- What is computed from the driver, which stays as it is.
  abbrev pub asks : (Driver Sup → Result MainError A) → Step Sup A
  asks f d = (f d, d)

  -- An operation on the file system; its error is a `MainError::Io`.
  unfoldable pub on_disk : Io A → Step Sup A
  on_disk op d = let (r, disk) = op d.disk in (map_err io r, record d { disk = disk })

  abbrev pub continue : {B : Type 0} → Result MainError A → (A → Step Sup B) → Step Sup B
  continue (ok a) f d = f a d
  continue (err e) f d = (err e, d)

  infixl 5 ◌>>=◌
  abbrev pub ◌>>=◌ : {B : Type 0} → Step Sup A → (A → Step Sup B) → Step Sup B
  ◌>>=◌ m f d = let (r, e) = m d in continue r f e

infixl 5 ◌>>◌
abbrev pub ◌>>◌ : {Sup B : Type 0} → Step Sup (Unit {0}) → Step Sup B → Step Sup B
m >> k = m >>= λ _. k
