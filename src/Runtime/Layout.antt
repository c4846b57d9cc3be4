-- ===== src/Runtime/Layout.antt =====
-- Which runtime files `validate_layout_against_root` accepts.
use aiohub_plugin_dsh_worksp.Prelude.{
  String, true, false, not, List, [], ◌∷◌, Result, ok, err, ◌>>◌, ◌>>=◌, map_err, any, All, ◌≡◌,
  refl, ◌↔◌, arith, ok-injective, subst, sym,
}
use aiohub_plugin_dsh_worksp.Runtime.Checks.{refused, both}
use aiohub_plugin_dsh_worksp.Files.{IoError}
use aiohub_plugin_dsh_worksp.Paths.{join}
use aiohub_plugin_dsh_worksp.Runtime.{
  RuntimeTree, RuntimeValidationError, io, refuse_if, is_normal, check_file, check_files,
  validate_layout,
}

module _ ⦃tree : RuntimeTree⦄ where
  -- A name with no `..`, root or prefix, which links and all leads to a file below the root.
  abbrev pub IsInside : String → String → Type 0
  IsInside root file =
      (any (λ c. not (is_normal c)) (tree.components file) ≡ false)
      × ((path : String) × (tree.canonicalize (join root file) ≡ ok path)
          × (tree.path_starts_with path root ≡ true)
          × (tree.is_file path ≡ true))

  reached :
      (root file : String) (r : Result IoError String) (e f : RuntimeValidationError)
      → ((map_err io r >>= λ path.
            refuse_if (not (tree.path_starts_with path root)) e
            >> refuse_if (not (tree.is_file path)) f)
          ≡ ok tt)
        ↔ ((path : String) × (r ≡ ok path)
            × (tree.path_starts_with path root ≡ true)
            × (tree.is_file path ≡ true))
  reached root file (err x) e f = (λ h. absurd (ground arith), λ h. absurd (ground (arith, h.1)))
  reached root file (ok path) e f =
      (λ h. (path, refl, ground arith, ground arith), λ h. ground (arith, ok-injective h.1))

  check_file-IsInside : (root file : String) → (check_file root file ≡ ok tt) ↔ IsInside root file
  unfolding check_file
  check_file-IsInside root file =
      both _ _ _ (refused _ _ (λ h. h, λ h. h))
        (reached root file (tree.canonicalize (join root file)) _ _)

  check_files-IsInside :
      (root : String) (files : List String)
      → (check_files root files ≡ ok tt) ↔ All (IsInside root) files
  unfolding check_files
  check_files-IsInside root [] = (λ h. tt, λ h. refl)
  check_files-IsInside root (file ∷ files) =
      both _ _ _ (check_file-IsInside root file) (check_files-IsInside root files)

  below :
      (r : Result IoError String) (files : List String)
      → ((map_err io r >>= λ root. check_files root files) ≡ ok tt)
        ↔ ((root : String) × (r ≡ ok root) × All (IsInside root) files)
  below (err e) files = (λ h. absurd (ground arith), λ h. absurd (ground (arith, h.1)))
  below (ok root) files = (
    λ h. (root, refl, (check_files-IsInside root files).0 h),
    λ h.
        (check_files-IsInside root files).1
          (subst (λ r. All (IsInside r) files) (sym (ok-injective h.1)) h.2),
  )

  -- A layout passes exactly when its root can be resolved and every listed file is inside it: the
  -- name has plain components only, and what it resolves to is a file below the resolved root.
  pub layout_iff :
      (root : String) (files : List String)
      → (validate_layout root files ≡ ok tt) ↔ (
          (canonical : String) × (tree.canonicalize root ≡ ok canonical)
          × All (IsInside canonical) files)
  unfolding validate_layout
  layout_iff root files = below (tree.canonicalize root) files
