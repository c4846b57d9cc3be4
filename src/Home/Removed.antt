-- ===== src/Home/Removed.antt =====
-- A home on a disk where nothing fails: what making it and removing it leave.
use Prim.Native.Char.{code}
use Prim.Native.String.{◌++◌}
use text.Mathlib.TextLemmas.{nil-append, cons-append}
use aiohub_plugin_dsh_worksp.Prelude.{
  String, Bool, true, ◌||◌, none, is_some, [], ok, ◌≡◌, refl, ◌∙◌, arith, ==_iff,
}
use aiohub_plugin_dsh_worksp.Prelude.Text.{format, starts_with}
use aiohub_plugin_dsh_worksp.Files.{
  Files, within, create_dir_all, set_permissions, exists, remove_dir_all,
}
use aiohub_plugin_dsh_worksp.Paths.{join, separated}
use aiohub_plugin_dsh_worksp.Home.{DshHomeLayout, create, entries, layout_of, remove}

-- Nothing is scheduled to fail.
abbrev pub calm : Files → Files
calm s = record s { faults = [] }

made : String → Files → Files
made dir s = (create dir (calm s)).1

pub created :
    (dir : String) (s : Files)
    → ((create dir (calm s)).0 ≡ ok (layout_of dir))
      × ((create dir (calm s)).1.contents ≡ s.contents)
      × ((create dir (calm s)).1.faults ≡ [])
      × ((create dir (calm s)).1.dirs dir ≡ (
          within dir (join dir "temp")
          || (within dir (join dir "logs")
              || (within dir (join dir "runtime")
                  || (within dir (join dir "credentials")
                      || (within dir (join dir "sessions")
                          || (within dir (join dir "data") || s.dirs dir)))))))
unfolding create layout_of create_dir_all set_permissions entries
created dir s = (refl, refl, refl, refl)

starts_with-append : (p a b : String) → starts_with (p ++ a) (p ++ b) ≡ starts_with a b
unfolding starts_with
starts_with-append String.[] a b = rw (nil-append a, nil-append b) refl
starts_with-append (String.◌∷◌ c p) a b =
    rw (cons-append c p a, cons-append c p b, (==_iff (code c) (code c)).1 refl)
      (starts_with-append p a b)

starts_with-nil : (s : String) → starts_with "" s ≡ true
unfolding starts_with
starts_with-nil s = refl

or_true : (b c : Bool) → c ≡ true → (b || c) ≡ true
or_true b c h = ground arith

-- What is joined to a directory is within it.
within-join : (dir name : String) → within dir (join dir name) ≡ true
unfolding within format
within-join dir name =
    or_true _ _ (starts_with-append (separated dir) "" (name ++ "") ∙ starts_with-nil (name ++ ""))

pub there : (dir : String) (s : Files) → (create dir (calm s)).1.dirs dir ≡ true
there dir s =
    let (done, same, quiet, dirs) = created dir s in
    dirs ∙ first (within dir (join dir "temp")) _ (within-join dir "temp")
  where
    first : (b c : Bool) → b ≡ true → (b || c) ≡ true
    first b c h = ground arith

-- Removing a home that stands there leaves nothing within its root.
pub removed :
    (layout : DshHomeLayout) (s : Files) (path : String)
    → s.faults ≡ []
    → s.dirs layout.root ≡ true
    → within layout.root path ≡ true
    → ((remove layout s).0 ≡ ok tt) × ((remove layout s).1.contents path ≡ none)
unfolding remove exists remove_dir_all
removed layout s path quiet here below = (
  rw (quiet, or_true (is_some (s.contents layout.root)) (s.dirs layout.root) here) refl,
  rw (quiet, or_true (is_some (s.contents layout.root)) (s.dirs layout.root) here) (rw below refl),
)
