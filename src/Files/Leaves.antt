-- ===== src/Files/Leaves.antt =====
-- Code that leaves the text at a path alone.
use aiohub_plugin_dsh_worksp.Prelude.{
  ℕ, is_some, String, Bool, false, ◌||◌, Option, none, some, ◌≡◌, ◌⊎◌, inl, inr, refl, ◌∙◌, str_eq,
  Result, ok, err, ap,
}
use aiohub_plugin_dsh_worksp.Files.{
  Files, Fault, works, fails, tears, head_fault, advance, attempt, Task, Io, write, create_dir_all,
  set_permissions, sync_all, create_new, create_at, remove_file, erase, rename, move, put, exists,
  continue, ◌>>=◌, or_else,
}
use aiohub_plugin_dsh_worksp.Files.Laws.{
  Did, put_self, put_other, write-other, create_dir_all-contents,
}

-- The text there is the same after the code as before.
pub record Leaves {A E : Type 0} (path : String) (m : Task E A) : Type 0 where
  pub left : (s : Files) → (m s).1.contents path ≡ s.contents path

attempt_left :
    {A : Type 0} (path : String) (op : Io A)
    → ((s : Files) → (op s).1.contents path ≡ s.contents path)
    → (fault : Fault) (s : Files) → (attempt fault op s).1.contents path ≡ s.contents path
attempt_left path op h works s = h (advance s)
attempt_left path op h (fails message) s = refl
attempt_left path op h (tears left message) s = refl

module _ {A B E : Type 0} (path : String) where
  pub bind-Leaves :
      {m : Task E A} {k : A → Task E B}
      → Leaves path m
      → ((a : A) → Leaves path (k a))
      → Leaves path (m >>= k)
  bind-Leaves {m} {k} f g = record { left = λ s. go (m s) (f.left s) }
    where
      go :
          {v : Option String} (x : Result E A × Files)
          → x.1.contents path ≡ v
          → (continue x.0 k x.1).1.contents path ≡ v
      go (ok a, t) h = (g a).left t ∙ h
      go (err e, t) h = h

module _ {A D E : Type 0} (path : String) where
  pub or_else-Leaves : (f : D → E) {m : Task D A} → Leaves path m → Leaves path (or_else f m)
  or_else-Leaves f h = record { left = λ s. h.left s }

pub pure-Leaves : {A E : Type 0} (path : String) (r : Result E A) → Leaves path (λ s. (r, s))
pure-Leaves path r = record { left = λ s. refl }

pub write-Leaves :
    (path other text : String) → str_eq path other ≡ false → Leaves other (write path text)
write-Leaves path other text h = record { left = λ s. write-other path text other s h }

pub create_dir_all-Leaves : (path other : String) → Leaves other (create_dir_all path)
create_dir_all-Leaves path other = record {
  left = λ s. ap (λ c. c other) (create_dir_all-contents path s);
}

pub set_permissions-Leaves :
    (path other : String) (mode : ℕ) → Leaves other (set_permissions path mode)
unfolding set_permissions
set_permissions-Leaves path other mode = record {
  left = λ s. attempt_left other _ (λ t. refl) (head_fault s.faults) s;
}

pub sync_all-Leaves : (path other : String) → Leaves other (sync_all path)
unfolding sync_all
sync_all-Leaves path other = record {
  left = λ s. attempt_left other _ (λ t. refl) (head_fault s.faults) s;
}

created :
    (path other : String) (mode : ℕ) (o : Option String) (s : Files)
    → str_eq path other ≡ false
    → (create_at path mode o s).1.contents other ≡ s.contents other
unfolding create_at
created path other mode none s h = put_other s.contents path other (some "") h
created path other mode (some text) s h = refl

pub create_new-Leaves :
    (path other : String) (mode : ℕ)
    → str_eq path other ≡ false
    → Leaves other (create_new path mode)
unfolding create_new
create_new-Leaves path other mode h = record {
  left = λ s.
      attempt_left other _ (λ t. created path other mode (t.contents path) t h)
        (head_fault s.faults) s;
}

erased :
    (path other : String) (o : Option String) (s : Files)
    → str_eq path other ≡ false
    → (erase path o s).1.contents other ≡ s.contents other
unfolding erase
erased path other none s h = refl
erased path other (some text) s h = put_other s.contents path other none h

pub remove_file-Leaves :
    (path other : String) → str_eq path other ≡ false → Leaves other (remove_file path)
unfolding remove_file
remove_file-Leaves path other h = record {
  left = λ s.
      attempt_left other _ (λ t. erased path other (t.contents path) t h) (head_fault s.faults) s;
}

exists_at : Fault → String → Files → Bool × Files
exists_at fault path s = elim fault [
  | works ↦ (is_some (s.contents path) || s.dirs path, advance s)
  | fails message ↦ (false, advance s)
  | tears left message ↦ (false, advance s)
]

exists_left :
    (fault : Fault) (path other : String) (s : Files)
    → (exists_at fault path s).1.contents other ≡ s.contents other
unfolding exists_at
exists_left works path other s = refl
exists_left (fails message) path other s = refl
exists_left (tears left message) path other s = refl

pub exists-contents :
    (path other : String) (s : Files) → (exists path s).1.contents other ≡ s.contents other
unfolding exists exists_at
exists-contents path other s = exists_left (head_fault s.faults) path other s

gone :
    (fault : Fault) (path : String) (s : Files)
    → ((attempt fault (λ t. erase path (t.contents path) t) s).1.contents path ≡ none)
      ⊎ ((attempt fault (λ t. erase path (t.contents path) t) s).1.contents path ≡ s.contents path)
unfolding erase
gone works path s = erases (s.contents path)
  where
    erases :
        (o : Option String)
        → ((erase path o (advance s)).1.contents path ≡ none)
          ⊎ ((erase path o (advance s)).1.contents path ≡ s.contents path)
    erases none = inr refl
    erases (some text) = inl (put_self s.contents path none)
gone (fails message) path s = inr refl
gone (tears left message) path s = inr refl

-- A removal takes the file away or leaves it as it was.
pub remove_file-path :
    (path : String) (s : Files)
    → ((remove_file path s).1.contents path ≡ none)
      ⊎ ((remove_file path s).1.contents path ≡ s.contents path)
unfolding remove_file
remove_file-path path s = gone (head_fault s.faults) path s

moves :
    (from to other : String) (o : Option String) (s : Files)
    → str_eq from other ≡ false
    → str_eq to other ≡ false
    → (move from to o s).1.contents other ≡ s.contents other
unfolding move
moves from to other none s h k = refl
moves from to other (some text) s h k =
    put_other (put s.contents from none) to other (some text) k
    ∙ put_other s.contents from other none h

pub rename-Leaves :
    (from to other : String)
    → str_eq from other ≡ false
    → str_eq to other ≡ false
    → Leaves other (rename from to)
unfolding rename
rename-Leaves from to other h k = record {
  left = λ s.
      attempt_left other _ (λ t. moves from to other (t.contents from) t h k) (head_fault s.faults)
        s;
}

stays :
    (fault : Fault) (from to : String) (s : Files)
    → Did
        (attempt fault (λ t. move from to (t.contents from) t) s).0
        Unit
        ((attempt fault (λ t. move from to (t.contents from) t) s).1.contents ≡ s.contents)
unfolding move
stays works from to s = go (s.contents from)
  where
    go :
        (o : Option String)
        → Did
            (move from to o (advance s)).0
            Unit
            ((move from to o (advance s)).1.contents ≡ s.contents)
    go none = refl
    go (some text) = tt
stays (fails message) from to s = refl
stays (tears left message) from to s = refl

-- A rename that fails changes no text.
pub rename_failed :
    (from to : String) (s : Files)
    → Did (rename from to s).0 Unit ((rename from to s).1.contents ≡ s.contents)
unfolding rename
rename_failed from to s = stays (head_fault s.faults) from to s

taken_away :
    (fault : Fault) (path : String) (s : Files)
    → Did
        (attempt fault (λ t. erase path (t.contents path) t) s).0
        ((attempt fault (λ t. erase path (t.contents path) t) s).1.contents path ≡ none)
        Unit
unfolding erase
taken_away works path s = go (s.contents path)
  where
    go :
        (o : Option String)
        → Did (erase path o (advance s)).0 ((erase path o (advance s)).1.contents path ≡ none) Unit
    go none = tt
    go (some text) = put_self s.contents path none
taken_away (fails message) path s = tt
taken_away (tears left message) path s = tt

-- A removal that succeeds takes the file away.
pub remove_file-Did :
    (path : String) (s : Files)
    → Did (remove_file path s).0 ((remove_file path s).1.contents path ≡ none) Unit
unfolding remove_file
remove_file-Did path s = taken_away (head_fault s.faults) path s
