-- ===== src/Files/Laws.antt =====
-- What the operations of the file system leave behind.
use aiohub_plugin_dsh_worksp.Prelude.{
  String, false, ◌||◌, Option, none, some, ◌≡◌, refl, str_eq, str_eq_refl, Result, ok, err,
}
use aiohub_plugin_dsh_worksp.Files.{
  Files, Fault, works, fails, tears, put, head_fault, advance, attempt, move, IoError, failed,
  write, rename, create_dir_all, within,
}

-- `P` where the operation worked, `Q` where it did not.
abbrev pub Did : Result IoError (Unit {0}) → Type 0 → Type 0 → Type 0
Did (ok done) P Q = P
Did (err e) P Q = Q

pub Did-map :
    {P Q P' Q' : Type 0} (r : Result IoError (Unit {0}))
    → (P → P')
    → (Q → Q')
    → Did r P Q
    → Did r P' Q'
Did-map (ok done) f g p = f p
Did-map (err e) f g q = g q

pub put_self :
    (c : String → Option String) (path : String) (v : Option String) → put c path v path ≡ v
put_self c path v = rw (str_eq_refl path)

pub put_other :
    (c : String → Option String) (path other : String) (v : Option String)
    → str_eq path other ≡ false
    → put c path v other ≡ c other
put_other c path other v h = rw h

after_write : Fault → String → String → Files → Result IoError (Unit {0}) × Files
after_write fault path text s = elim fault [
  | works ↦ (ok tt, record (advance s) { contents = put s.contents path (some text) })
  | fails message ↦ (err (failed message), advance s)
  | tears left message ↦
      (err (failed message), record (advance s) { contents = put s.contents path (some left) })
]

write_other :
    (fault : Fault) (path text other : String) (s : Files)
    → str_eq path other ≡ false
    → (after_write fault path text s).1.contents other ≡ s.contents other
unfolding after_write
write_other works path text other s h = put_other s.contents path other (some text) h
write_other (fails message) path text other s h = refl
write_other (tears left message) path text other s h = put_other s.contents path other (some left) h

-- A write, whole or torn, leaves all other files alone.
pub write-other :
    (path text other : String) (s : Files)
    → str_eq path other ≡ false
    → (write path text s).1.contents other ≡ s.contents other
unfolding write after_write
write-other path text other s h = write_other (head_fault s.faults) path text other s h

write_path :
    (fault : Fault) (path text : String) (s : Files)
    → Did
        (after_write fault path text s).0
        ((after_write fault path text s).1.contents path ≡ some text)
        Unit
unfolding after_write
write_path works path text s = put_self s.contents path (some text)
write_path (fails message) path text s = tt
write_path (tears left message) path text s = tt

pub write-path :
    (path text : String) (s : Files)
    → Did (write path text s).0 ((write path text s).1.contents path ≡ some text) Unit
unfolding write after_write
write-path path text s = write_path (head_fault s.faults) path text s

moved :
    (o : Option String) (from to : String) (s : Files)
    → Did
        (move from to o s).0
        ((move from to o s).1.contents to ≡ o)
        ((move from to o s).1.contents to ≡ s.contents to)
unfolding move
moved none from to s = refl
moved (some text) from to s = put_self (put s.contents from none) to (some text)

renamed :
    (fault : Fault) (from to : String) (s : Files)
    → Did
        (attempt fault (λ t. move from to (t.contents from) t) s).0
        ((attempt fault (λ t. move from to (t.contents from) t) s).1.contents to ≡ s.contents from)
        ((attempt fault (λ t. move from to (t.contents from) t) s).1.contents to ≡ s.contents to)
renamed works from to s = moved (s.contents from) from to (advance s)
renamed (fails message) from to s = refl
renamed (tears left message) from to s = refl

-- A rename gives its target the source's text, or leaves the target as it was.
pub rename-target :
    (from to : String) (s : Files)
    → Did
        (rename from to s).0
        ((rename from to s).1.contents to ≡ s.contents from)
        ((rename from to s).1.contents to ≡ s.contents to)
unfolding rename
rename-target from to s = renamed (head_fault s.faults) from to s

made :
    (fault : Fault) (path : String) (s : Files)
    → (attempt fault
        (λ t. (ok tt, record t { dirs = λ dir. within dir path || t.dirs dir }))
        s).1.contents
      ≡ s.contents
made works path s = refl
made (fails message) path s = refl
made (tears left message) path s = refl

pub create_dir_all-contents :
    (path : String) (s : Files) → (create_dir_all path s).1.contents ≡ s.contents
unfolding create_dir_all
create_dir_all-contents path s = made (head_fault s.faults) path s
