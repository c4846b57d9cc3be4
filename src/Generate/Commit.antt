-- ===== src/Generate/Commit.antt =====
-- The commit of the generated files: all of them are replaced, or none.
use aiohub_plugin_dsh_worksp.Prelude.{
  ℕ, suc, String, false, Option, List, [], ◌∷◌, All, Result, ok, err, map_err, ◌≡◌, refl, ap, sym,
  subst, ◌∙◌, ◌⊎◌, inl, inr, str_eq,
}
use aiohub_plugin_dsh_worksp.Prelude.Text.{format}
use aiohub_plugin_dsh_worksp.Files.{Files, IoError, Task, continue, rename, or_else}
use aiohub_plugin_dsh_worksp.Files.Laws.{Did, rename-target}
use aiohub_plugin_dsh_worksp.Files.Leaves.{
  Leaves, bind-Leaves, pure-Leaves, or_else-Leaves, rename-Leaves, rename_failed,
}
use aiohub_plugin_dsh_worksp.Generate.{
  StagedArtifact, CommitHook, rollback_artifacts, after_rollback, at_path, replace_artifact,
  commit_from, commit_staged_artifacts, join_commas,
}
use aiohub_plugin_dsh_worksp.Generate.Rollback.{
  OnBackup, Apart, All-map, All-zip, OnBackup-map, SavedAs-left, Saved, rolled, rollback-left,
  Separate, Pairwise, IsStaged,
}

-- Before its replacement: the target is as it was, the new text and the backup are there.
abbrev Waiting : (String → Option String) → (String → Option String) → StagedArtifact → Type 0
Waiting c k a =
    (k a.target ≡ c a.target)
    × (k a.replacement ≡ c a.replacement)
    × Saved c k a
    × OnBackup (λ b. (str_eq a.replacement b ≡ false) × (str_eq a.target b ≡ false)) a.backup

-- After it.
abbrev Replaced : (String → Option String) → (String → Option String) → StagedArtifact → Type 0
Replaced c k a = (k a.target ≡ c a.replacement) × Saved c k a

-- All targets hold the new texts; or each holds what it held, unless the error says that the rollback
-- failed too.
abbrev pub AllOrNone :
    (String → Option String)
    → List StagedArtifact
    → List StagedArtifact
    → Result String (Unit {0}) × Files
    → Type 0
AllOrNone c committed rest (ok done, t) =
    All (λ a. t.contents a.target ≡ c a.replacement) committed
    × All (λ a. t.contents a.target ≡ c a.replacement) rest
AllOrNone c committed rest (err e, t) =
    (All (λ a. t.contents a.target ≡ c a.target) committed
      × All (λ a. t.contents a.target ≡ c a.target) rest)
    ⊎ ((error : String) × (reasons : String) × (e
          ≡ format (error ∷ "; protocol artifact rollback also failed: " ∷ reasons ∷ [])))

replace_artifact-Leaves :
    (hook : CommitHook) (index : ℕ) (a : StagedArtifact) (p : String)
    → str_eq a.target p ≡ false
    → str_eq a.replacement p ≡ false
    → Leaves p (replace_artifact hook index a)
unfolding replace_artifact
replace_artifact-Leaves hook index a p h k =
    bind-Leaves p (pure-Leaves p (hook index a.target)) λ u.
      or_else-Leaves p (at_path "replace generated artifact" a.target)
        (rename-Leaves a.replacement a.target p k h)

-- Where the replacement succeeds, `P`; where it does not, `Q`.
abbrev Either : {E : Type 0} → Result E (Unit {0}) → Type 0 → Type 0 → Type 0
Either (ok done) P Q = P
Either (err e) P Q = Q

replaced :
    (hook : CommitHook) (index : ℕ) (a : StagedArtifact) (s : Files)
    → Either
        (replace_artifact hook index a s).0
        ((replace_artifact hook index a s).1.contents a.target ≡ s.contents a.replacement)
        ((replace_artifact hook index a s).1.contents ≡ s.contents)
unfolding replace_artifact
replaced hook index a s = asked (hook index a.target)
  where
    renamed :
        (x : Result IoError (Unit {0}) × Files)
        → Did x.0
            (x.1.contents a.target ≡ s.contents a.replacement)
            (x.1.contents a.target ≡ s.contents a.target)
        → Did x.0 Unit (x.1.contents ≡ s.contents)
        → Either
            (map_err (at_path "replace generated artifact" a.target) x.0)
            (x.1.contents a.target ≡ s.contents a.replacement)
            (x.1.contents ≡ s.contents)
    renamed (ok done, t) h k = h
    renamed (err e, t) h k = k

    replacing : Task String (Unit {0})
    replacing =
        or_else (at_path "replace generated artifact" a.target) (rename a.replacement a.target)

    asked :
        (r : Result String (Unit {0}))
        → Either
            (continue r (λ u. replacing) s).0
            ((continue r (λ u. replacing) s).1.contents a.target ≡ s.contents a.replacement)
            ((continue r (λ u. replacing) s).1.contents ≡ s.contents)
    asked (ok u) =
        renamed (rename a.replacement a.target s) (rename-target a.replacement a.target s)
          (rename_failed a.replacement a.target s)
    asked (err e) = refl

undone :
    (c : String → Option String) (committed rest : List StagedArtifact) (error : String)
    (x : List String × Files)
    → (x.0 ≡ [] → All (λ a. x.1.contents a.target ≡ c a.target) committed)
    → All (λ a. x.1.contents a.target ≡ c a.target) rest
    → AllOrNone c committed rest (after_rollback error x)
undone c committed rest error ([], t) h k = inl (h refl, k)
undone c committed rest error (failure ∷ failures, t) h k =
    inr (error, join_commas (failure ∷ failures), refl)

swap : (a b : StagedArtifact) → Separate a b → Separate b a
swap a b h = (h.1, h.0)

-- What a replacement of `a` does to the others, where it leaves alone all but its own two paths.
module _ (c k l : String → Option String) (a : StagedArtifact)
    (left : (p : String)
      → str_eq a.target p ≡ false
      → str_eq a.replacement p ≡ false
      → l p ≡ k p) where
  still-Saved :
      (b : StagedArtifact) → OnBackup (λ q. Apart q a) b.backup → Saved c k b → Saved c l b
  still-Saved b free h =
      SavedAs-left b.backup (c b.target) k l (OnBackup-map b.backup (λ q f. left q f.0 f.1) free) h

  still-Replaced :
      (committed : List StagedArtifact)
      → All (Separate a) committed
      → All (Replaced c k) committed
      → All (Replaced c l) committed
  still-Replaced committed = All-zip committed λ b sep (h : Replaced c k b).
      (left b.target sep.0.0.0 sep.0.0.1 ∙ h.0, still-Saved b sep.0.2 h.1)

  still-Waiting :
      (rest : List StagedArtifact)
      → All (Separate a) rest
      → All (Waiting c k) rest
      → All (Waiting c l) rest
  still-Waiting rest = All-zip rest λ b sep (h : Waiting c k b). (
    left b.target sep.0.0.0 sep.0.0.1 ∙ h.0,
    left b.replacement sep.0.1.0 sep.0.1.1 ∙ h.1,
    still-Saved b sep.0.2 h.2,
    h.3,
  )

  now-Replaced : l a.target ≡ k a.replacement → Waiting c k a → Replaced c l a
  now-Replaced new h = (
    new ∙ h.1,
    SavedAs-left a.backup (c a.target) k l (OnBackup-map a.backup (λ q d. left q d.1 d.0) h.3) h.2,
  )

reshuffle :
    (c : String → Option String) (a : StagedArtifact) (committed rest : List StagedArtifact)
    (x : Result String (Unit {0}) × Files)
    → AllOrNone c (a ∷ committed) rest x
    → AllOrNone c committed (a ∷ rest) x
reshuffle c a committed rest (ok u, t) h = (h.0.1, (h.0.0, h.1))
reshuffle c a committed rest (err e, t) (inl h) = inl (h.0.1, (h.0.0, h.1))
reshuffle c a committed rest (err e, t) (inr h) = inr h

commit_from-AllOrNone :
    (c : String → Option String) (hook : CommitHook) (committed : List StagedArtifact) (index : ℕ)
    (rest : List StagedArtifact) (s : Files)
    → All (Replaced c s.contents) committed
    → All (Waiting c s.contents) rest
    → Pairwise committed
    → Pairwise rest
    → All (λ b. All (Separate b) committed) rest
    → AllOrNone c committed rest (commit_from hook committed index rest s)
unfolding commit_from
commit_from-AllOrNone c hook committed index [] s done waiting pc pr cross =
    (All-map committed (λ a h. h.0) done, tt)
commit_from-AllOrNone c hook committed index (a ∷ rest) s done waiting pc pr cross =
    go (replace_artifact hook index a s) (replaced hook index a s)
      (λ p h k. (replace_artifact-Leaves hook index a p h k).left s)
      (commit_from-AllOrNone c hook (a ∷ committed) (suc index) rest)
  where
    go :
        (x : Result String (Unit {0}) × Files)
        → Either x.0 (x.1.contents a.target ≡ s.contents a.replacement) (x.1.contents ≡ s.contents)
        → ((p : String)
            → str_eq a.target p ≡ false
            → str_eq a.replacement p ≡ false
            → x.1.contents p ≡ s.contents p)
        → ((t : Files)
            → All (Replaced c t.contents) (a ∷ committed)
            → All (Waiting c t.contents) rest
            → Pairwise (a ∷ committed)
            → Pairwise rest
            → All (λ b. All (Separate b) (a ∷ committed)) rest
            → AllOrNone c
                (a ∷ committed)
                rest
                (commit_from hook (a ∷ committed) (suc index) rest t))
        → AllOrNone c committed (a ∷ rest) (elim x.0 [
          | ok u ↦ commit_from hook (a ∷ committed) (suc index) rest x.1
          | err error ↦ after_rollback error (rollback_artifacts committed x.1)
        ])
    go (ok u, t) new left next =
        reshuffle c a committed rest (commit_from hook (a ∷ committed) (suc index) rest t) (
          next t
            (
              now-Replaced c s.contents t.contents a left new waiting.0,
              still-Replaced c s.contents t.contents a left committed cross.0 done,
            )
            (still-Waiting c s.contents t.contents a left rest pr.0 waiting.1) (cross.0, pc) pr.1
            (All-zip rest (λ b sep others. (swap a b sep, others)) pr.0 cross.1))
    go (err error, t) same left next =
        undone c committed (a ∷ rest) error (rollback_artifacts committed t)
          (rolled c committed t
            (subst (λ k. All (Saved c k) committed) (sym same)
              (All-map committed (λ b h. h.1) done))
            pc)
          (All-zip (a ∷ rest)
            (λ b (h : Waiting c s.contents b) (sep : All (Separate b) committed).
              rollback-left b.target committed t (All-map committed (λ d e. e.1.0) sep)
              ∙ ap (λ k. k b.target) same
              ∙ h.0)
            waiting cross)

-- Where every artifact is staged and no two of them share a path, a commit does all or nothing,
-- whatever the hook answers and whichever file operations fail. Where it succeeds, each target holds
-- what its replacement held; where it fails, each target holds what it held before the commit, or
-- was absent as before, unless the error says that the rollback failed too.
pub commit_staged_artifacts-AllOrNone :
    (hook : CommitHook) (artifacts : List StagedArtifact) (s : Files)
    → All (IsStaged s.contents) artifacts
    → Pairwise artifacts
    → AllOrNone s.contents [] artifacts (commit_staged_artifacts hook artifacts s)
unfolding commit_staged_artifacts
commit_staged_artifacts-AllOrNone hook artifacts s staged apart =
    commit_from-AllOrNone s.contents hook [] 0 artifacts s tt
      (All-map artifacts (λ a h. (refl, refl, h.1, h.0)) staged) tt apart
      (All-map artifacts (λ a h. tt) staged)
