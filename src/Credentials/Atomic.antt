-- ===== src/Credentials/Atomic.antt =====
-- The document of credentials on disk: whatever fails, it is the old one or the new one.
use aiohub_plugin_dsh_worksp.Prelude.{
  String, Bool, true, false, Option, none, some, List, [], ◌∷◌, ◌≡◌, refl, ◌∙◌, ◌⊎◌, inl, inr,
  str_eq, Result, ok, err, map_err,
}
use aiohub_plugin_dsh_worksp.Paths.{parent, with_extension}
use aiohub_plugin_dsh_worksp.Files.{
  remove_file, Files, Io, Task, IoError, continue, ◌>>◌, ◌>>=◌, rename, write, create_new, sync_all,
  exists, or_else, check,
}
use aiohub_plugin_dsh_worksp.Files.Laws.{Did, write-path, rename-target}
use aiohub_plugin_dsh_worksp.Files.Leaves.{
  Leaves, bind-Leaves, pure-Leaves, write-Leaves, create_new-Leaves, set_permissions-Leaves,
  create_dir_all-Leaves, sync_all-Leaves, remove_file-Leaves, remove_file-path, exists-contents,
}
use aiohub_plugin_dsh_worksp.Credentials.{
  Credentials, CredentialError, CredentialFormat, io, json, write_secret_file, apply_secret_mode,
  apply_directory_mode, make_parent, remove_if, remove_existing, replace_document, store, settle,
  replace_with, replace, gather,
}

abbrev pub temporary : String → String
temporary path = with_extension path "json.tmp"

-- The new text where the code succeeds; the new one or what was there before where it fails.
abbrev pub Outcome :
    {E : Type 0} → String → Option String → Option String → Result E (Unit {0}) × Files → Type 0
Outcome path new before (ok done, t) = t.contents path ≡ new
Outcome path new before (err e, t) = (t.contents path ≡ new) ⊎ (t.contents path ≡ before)

-- Code that leaves the path alone may come first.
after :
    {E A : Type 0} (path : String) (new before : Option String) (m : Task E A)
    (k : A → Task E (Unit {0}))
    → Leaves path m
    → ((a : A) (t : Files) → t.contents path ≡ before → Outcome path new before (k a t))
    → (s : Files) → s.contents path ≡ before
    → Outcome path new before ((m >>= k) s)
after path new before m k f g s h = go (m s) (f.left s ∙ h)
  where
    go :
        (x : Result _ _ × Files)
        → x.1.contents path ≡ before
        → Outcome path new before (continue x.0 k x.1)
    go (ok a, t) e = g a t e
    go (err e, t) same = inr same

written :
    (path text : String) (s : Files)
    → Did
        (write_secret_file path text s).0
        ((write_secret_file path text s).1.contents path ≡ some text)
        Unit
unfolding write_secret_file apply_secret_mode
written path text s = created (create_new path 384 s)
  where
    rest : Io (Unit {0})
    rest = sync_all path >> apply_secret_mode path

    kept :
        (x : Result IoError (Unit {0}) × Files)
        → x.1.contents path ≡ some text
        → Did x.0 (x.1.contents path ≡ some text) Unit
    kept (ok done, t) h = h
    kept (err e, t) h = tt

    synced :
        (x : Result IoError (Unit {0}) × Files)
        → Did x.0 (x.1.contents path ≡ some text) Unit
        → Did
            (continue x.0 (λ u. rest) x.1).0
            ((continue x.0 (λ u. rest) x.1).1.contents path ≡ some text)
            Unit
    synced (ok done, t) h = kept (rest t) (
        (bind-Leaves path (sync_all-Leaves path path)
            (λ u. set_permissions-Leaves path path 384)).left
          t
        ∙ h)
    synced (err e, t) h = tt

    created :
        (x : Result IoError (Unit {0}) × Files)
        → Did
            (continue x.0 (λ u. write path text >> rest) x.1).0
            ((continue x.0 (λ u. write path text >> rest) x.1).1.contents path ≡ some text)
            Unit
    created (ok done, t) = synced (write path text t) (write-path path text t)
    created (err e, t) = tt

write_secret_file-Leaves :
    (path other text : String)
    → str_eq path other ≡ false
    → Leaves other (write_secret_file path text)
unfolding write_secret_file apply_secret_mode
write_secret_file-Leaves path other text h =
    bind-Leaves other (create_new-Leaves path other 384 h) λ u.
      bind-Leaves other (write-Leaves path other text h) λ u.
        bind-Leaves other (sync_all-Leaves path other) λ u. set_permissions-Leaves path other 384

remove_if-Leaves :
    (there : Bool) (path other : String)
    → str_eq path other ≡ false
    → Leaves other (remove_if there path)
remove_if-Leaves true path other h = remove_file-Leaves path other h
remove_if-Leaves false path other h = pure-Leaves other (ok tt)

remove_existing-Leaves :
    (path other : String) → str_eq path other ≡ false → Leaves other (remove_existing path)
unfolding remove_existing
remove_existing-Leaves path other h = record {
  left = λ s.
      (remove_if-Leaves (exists path s).0 path other h).left (exists path s).1
      ∙ exists-contents path other s;
}

make_parent-Leaves : (o : Option String) (other : String) → Leaves other (make_parent o)
unfolding make_parent apply_directory_mode
make_parent-Leaves none other = pure-Leaves other (ok tt)
make_parent-Leaves (some dir) other =
    bind-Leaves other (create_dir_all-Leaves dir other) λ u. set_permissions-Leaves dir other 448

-- The last two steps, once the temporary file is written.
taken :
    (path text : String) (before : Option String) (t : Files)
    → t.contents (temporary path) ≡ some text
    → t.contents path ≡ before
    → Outcome path (some text) before ((rename (temporary path) path >> apply_secret_mode path) t)
unfolding apply_secret_mode
taken path text before t new old =
    go (rename (temporary path) path t) (rename-target (temporary path) path t)
  where
    ends :
        (x : Result IoError (Unit {0}) × Files)
        → x.1.contents path ≡ some text
        → Outcome path (some text) before x
    ends (ok done, t) h = h
    ends (err e, t) h = inl h

    go :
        (x : Result IoError (Unit {0}) × Files)
        → Did x.0
            (x.1.contents path ≡ t.contents (temporary path))
            (x.1.contents path ≡ t.contents path)
        → Outcome path (some text) before (continue x.0 (λ u. apply_secret_mode path) x.1)
    go (ok done, u) h =
        ends (apply_secret_mode path u) ((set_permissions-Leaves path path 384).left u ∙ h ∙ new)
    go (err e, u) h = inr (h ∙ old)

replace_document-Outcome :
    (path text : String) (before : Option String)
    → str_eq (temporary path) path ≡ false
    → (s : Files) → s.contents path ≡ before
    → Outcome path (some text) before (replace_document path text s)
unfolding replace_document
replace_document-Outcome path text before h =
    after path (some text) before (remove_existing (temporary path)) _
      (remove_existing-Leaves (temporary path) path h)
      λ u t same.
        go (write_secret_file (temporary path) text t) (written (temporary path) text t)
          ((write_secret_file-Leaves (temporary path) path text h).left t ∙ same)
  where
    go :
        (x : Result IoError (Unit {0}) × Files)
        → Did x.0 (x.1.contents (temporary path) ≡ some text) Unit
        → x.1.contents path ≡ before
        → Outcome path
            (some text)
            before
            (continue x.0 (λ u. rename (temporary path) path >> apply_secret_mode path) x.1)
    go (ok done, t) new old = taken path text before t new old
    go (err e, t) new old = inr old

cleared :
    (path : String) (s : Files)
    → ((remove_existing path s).1.contents path ≡ none)
      ⊎ ((remove_existing path s).1.contents path ≡ s.contents path)
unfolding remove_existing
cleared path s = go (exists path s).0 (exists path s).1 (exists-contents path path s)
  where
    there :
        {v : Option String} (t : Files)
        → t.contents path ≡ v
        → ((remove_file path t).1.contents path ≡ none)
          ⊎ ((remove_file path t).1.contents path ≡ t.contents path)
        → ((remove_file path t).1.contents path ≡ none) ⊎ ((remove_file path t).1.contents path ≡ v)
    there t e (inl h) = inl h
    there t e (inr h) = inr (h ∙ e)

    go :
        (b : Bool) (t : Files)
        → t.contents path ≡ s.contents path
        → ((remove_if b path t).1.contents path ≡ none)
          ⊎ ((remove_if b path t).1.contents path ≡ s.contents path)
    go true t e = there t e (remove_file-path path t)
    go false t e = inr e

module _ ⦃format : CredentialFormat⦄ where
  -- The disk holds the map's document: none for the empty map.
  abbrev pub Held : String → List (String × String) → Files → Type 0
  Held path [] s = s.contents path ≡ none
  Held path (entry ∷ next) s =
      (text : String) × (format.document_text (entry ∷ next) ≡ ok text)
      × (s.contents path ≡ some text)

  -- What may have come of a replacement by a map.
  abbrev pub Stored :
      String
      → List (String × String)
      → Option String
      → Result CredentialError (Unit {0}) × Files
      → Type 0
  Stored path next before (ok done, t) =
      Held path next t ⊎ ((next ≡ []) × (t.contents path ≡ before))
  Stored path next before (err e, t) = Held path next t ⊎ (t.contents path ≡ before)

  removed :
      (path : String) (before : Option String) (x : Result IoError (Unit {0}) × Files)
      → (x.1.contents path ≡ none) ⊎ (x.1.contents path ≡ before)
      → Stored path [] before (map_err io x.0, x.1)
  removed path before (ok done, t) (inl gone) = inl gone
  removed path before (ok done, t) (inr same) = inr (refl, same)
  removed path before (err e, t) h = h

  recorded :
      (path : String) (entry : String × String) (next : List (String × String)) (text : String)
      (before : Option String) (x : Result IoError (Unit {0}) × Files)
      → format.document_text (entry ∷ next) ≡ ok text
      → Outcome path (some text) before x
      → Stored path (entry ∷ next) before (map_err io x.0, x.1)
  recorded path entry next text before (ok done, t) e h = inl (text, e, h)
  recorded path entry next text before (err bad, t) e (inl new) = inl (text, e, new)
  recorded path entry next text before (err bad, t) e (inr old) = inr old

  documented :
      (path : String) (entry : String × String) (next : List (String × String))
      (before : Option String) (r : Result String String) (s : Files)
      → str_eq (temporary path) path ≡ false
      → format.document_text (entry ∷ next) ≡ r
      → s.contents path ≡ before
      → Stored path
          (entry ∷ next)
          before
          (continue (map_err json r) (λ text. or_else io (replace_document path text)) s)
  documented path entry next before (ok text) s h e same =
      recorded path entry next text before (replace_document path text s) e
        (replace_document-Outcome path text before h s same)
  documented path entry next before (err bad) s h e same = inr same

  store-Stored :
      (path : String) (next : List (String × String)) (s : Files)
      → str_eq (temporary path) path ≡ false
      → Stored path next (s.contents path) (store path next s)
  unfolding store
  store-Stored path [] s h =
      removed path (s.contents path) (remove_existing path s) (cleared path s)
  store-Stored path (entry ∷ next) s h =
      go (make_parent (parent path) s) ((make_parent-Leaves (parent path) path).left s)
    where
      go :
          (x : Result IoError (Unit {0}) × Files)
          → x.1.contents path ≡ s.contents path
          → Stored path (entry ∷ next) (s.contents path) (
              continue
                (map_err io x.0)
                (λ u. check (map_err json (format.document_text (entry ∷ next))) >>= λ text.
                  or_else io (replace_document path text))
                x.1)
      go (ok done, t) same =
          documented path entry next (s.contents path) (format.document_text (entry ∷ next)) t h
            refl same
      go (err e, t) same = inr same

  -- What may have come of a replacement: refused entries change nothing; a failure leaves the
  -- entries in memory, and the old document or the new one; success gives the new entries, and the
  -- new document, unless there are no entries and the old document could not be seen.
  abbrev pub Replaced :
      Credentials
      → Files
      → Result CredentialError (List (String × String))
      → Result CredentialError (Unit {0}) × Credentials × Files
      → Type 0
  Replaced c s (err e) (r, d, t) = (r ≡ err e) × (d ≡ c) × (t ≡ s)
  Replaced c s (ok next) (ok done, d, t) =
      (d ≡ record c { entries = next })
      × (Held c.path next t ⊎ ((next ≡ []) × (t.contents c.path ≡ s.contents c.path)))
  Replaced c s (ok next) (err e, d, t) =
      (d ≡ c) × (Held c.path next t ⊎ (t.contents c.path ≡ s.contents c.path))

  settled :
      (c : Credentials) (s : Files) (next : List (String × String))
      (x : Result CredentialError (Unit {0}) × Files)
      → Stored c.path next (s.contents c.path) x
      → Replaced c s (ok next) (settle c next x)
  settled c s next (ok done, t) h = (refl, h)
  settled c s next (err e, t) h = (refl, h)

  -- Under any faults of the disk, a replacement of a document that does not stand at the path of its
  -- temporary file never tears it: what is there afterwards is whole, the old one or the one of the
  -- given entries (with no entries, no document or the old one). Entries that are refused change
  -- nothing; the entries in memory are the given ones exactly after success.
  pub replace-Replaced :
      (entries : List (String × String)) (c : Credentials) (s : Files)
      → str_eq (temporary c.path) c.path ≡ false
      → Replaced c s (gather [] entries) (replace entries c s)
  unfolding replace
  replace-Replaced entries c s h = go (gather [] entries)
    where
      go :
          (r : Result CredentialError (List (String × String)))
          → Replaced c s r (replace_with c r s)
      go (ok next) = settled c s next (store c.path next s) (store-Stored c.path next s h)
      go (err e) = (refl, refl, refl)
