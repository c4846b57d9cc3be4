-- ===== src/Generate/Rollback.antt =====
-- The rollback of the generated files that were replaced.
use aiohub_plugin_dsh_worksp.Prelude.{
  String, false, Option, none, some, List, [], ◌∷◌, All, Result, ok, err, ◌≡◌, refl, sym, ◌∙◌,
  arith, str_eq,
}
use aiohub_plugin_dsh_worksp.Files.{Files, IoError, rename, remove_file}
use aiohub_plugin_dsh_worksp.Files.Laws.{Did, Did-map, rename-target}
use aiohub_plugin_dsh_worksp.Files.Leaves.{rename-Leaves, remove_file-Leaves, remove_file-Did}
use aiohub_plugin_dsh_worksp.Generate.{StagedArtifact, restore, note, rollback_artifacts}

-- What is claimed of the path of a backup, where there is one.
abbrev pub OnBackup : (String → Type 0) → Option String → Type 0
OnBackup P none = Unit
OnBackup P (some b) = P b

-- A path is none of an artifact's.
abbrev pub Apart : String → StagedArtifact → Type 0
Apart p a =
    (str_eq a.target p ≡ false)
    × (str_eq a.replacement p ≡ false)
    × OnBackup (λ b. str_eq b p ≡ false) a.backup

-- No path of the one artifact is one of the other's.
abbrev pub Separate : StagedArtifact → StagedArtifact → Type 0
Separate a b =
    (Apart b.target a × Apart b.replacement a × OnBackup (λ q. Apart q a) b.backup)
    × (Apart a.target b × Apart a.replacement b × OnBackup (λ q. Apart q b) a.backup)

abbrev pub Pairwise : List StagedArtifact → Type 0
Pairwise [] = Unit
Pairwise (a ∷ rest) = All (Separate a) rest × Pairwise rest

-- The backup holds what the target held at first, or there was no target.
abbrev pub SavedAs : Option String → Option String → (String → Option String) → Type 0
SavedAs none before contents = before ≡ none
SavedAs (some b) before contents = contents b ≡ before

-- An artifact as `stage_artifacts` leaves it: its own paths are different, and what is replaced is
-- saved.
abbrev pub IsStaged : (String → Option String) → StagedArtifact → Type 0
IsStaged contents a =
    OnBackup (λ b. (str_eq a.replacement b ≡ false) × (str_eq a.target b ≡ false)) a.backup
    × SavedAs a.backup (contents a.target) contents

restore-left :
    (target : String) (backup : Option String) (p : String) (s : Files)
    → str_eq target p ≡ false
    → OnBackup (λ b. str_eq b p ≡ false) backup
    → (restore target backup s).1.contents p ≡ s.contents p
unfolding restore
restore-left target none p s h k = (remove_file-Leaves target p h).left s
restore-left target (some b) p s h k = (rename-Leaves b target p k h).left s

-- A rollback leaves a path alone that is none of its artifacts'.
pub rollback-left :
    (p : String) (committed : List StagedArtifact) (s : Files)
    → All (Apart p) committed
    → (rollback_artifacts committed s).1.contents p ≡ s.contents p
unfolding rollback_artifacts
rollback-left p [] s h = refl
rollback-left p (a ∷ committed) s h =
    rollback-left p committed (restore a.target a.backup s).1 h.1
    ∙ restore-left a.target a.backup p s h.0.0 h.0.2

restored :
    (target : String) (backup before : Option String) (s : Files)
    → SavedAs backup before s.contents
    → Did (restore target backup s).0 ((restore target backup s).1.contents target ≡ before) Unit
unfolding restore
restored target none before s h =
    Did-map (remove_file target s).0 (λ e. e ∙ sym h) (λ u. tt) (remove_file-Did target s)
restored target (some b) before s h =
    Did-map (rename b target s).0 (λ e. e ∙ h) (λ u. tt) (rename-target b target s)

pub All-map :
    {A : Type 0} {P Q : A → Type 0} (xs : List A) → ((x : A) → P x → Q x) → All P xs → All Q xs
All-map [] f h = tt
All-map (x ∷ xs) f h = (f x h.0, All-map xs f h.1)

-- Two facts of each element give a third.
pub All-zip :
    {A : Type 0} {P Q R : A → Type 0} (xs : List A)
    → ((x : A) → P x → Q x → R x)
    → All P xs
    → All Q xs
    → All R xs
All-zip [] f h k = tt
All-zip (x ∷ xs) f h k = (f x h.0 k.0, All-zip xs f h.1 k.1)

pub OnBackup-map :
    {P Q : String → Type 0} (o : Option String)
    → ((b : String) → P b → Q b)
    → OnBackup P o
    → OnBackup Q o
OnBackup-map none f h = tt
OnBackup-map (some b) f h = f b h

pub SavedAs-left :
    (backup before : Option String) (k l : String → Option String)
    → OnBackup (λ b. l b ≡ k b) backup
    → SavedAs backup before k
    → SavedAs backup before l
SavedAs-left none before k l e h = h
SavedAs-left (some b) before k l e h = e ∙ h

noted :
    (target : String) (r : Result IoError (Unit {0})) (failures : List String) {P : Type 0}
    → note target r failures ≡ []
    → Did r P Unit
    → P × (failures ≡ [])
unfolding note
noted target (ok done) failures h p = (p, h)
noted target (err e) failures h p = absurd (ground arith)

abbrev pub Saved : (String → Option String) → (String → Option String) → StagedArtifact → Type 0
Saved c k a = SavedAs a.backup (c a.target) k

-- A rollback without failures gives each target back what it held.
pub rolled :
    (c : String → Option String) (committed : List StagedArtifact) (s : Files)
    → All (Saved c s.contents) committed
    → Pairwise committed
    → (rollback_artifacts committed s).0 ≡ []
    → All (λ a. (rollback_artifacts committed s).1.contents a.target ≡ c a.target) committed
unfolding rollback_artifacts
rolled c [] s saved apart h = tt
rolled c (a ∷ committed) s saved apart h =
    let t = (restore a.target a.backup s).1 in
    let (back, rest) =
      noted a.target (restore a.target a.backup s).0 (rollback_artifacts committed t).0 h
        (restored a.target a.backup (c a.target) s saved.0) in
    (
      rollback-left a.target committed t (All-map committed (λ b sep. sep.1.0) apart.0) ∙ back,
      rolled c committed t
          (All-zip committed
            (λ b sep (k : Saved c s.contents b).
              SavedAs-left b.backup (c b.target) s.contents t.contents
                (OnBackup-map b.backup (λ q free. restore-left a.target a.backup q s free.0 free.2)
                  sep.0.2)
                k)
            apart.0 saved.1)
          apart.1 rest,
    )
