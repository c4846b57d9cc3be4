-- ===== src/Runtime/Frozen.antt =====
-- Which locks `RuntimeValidator::validate` accepts.
use aiohub_plugin_dsh_worksp.Prelude.{
  ℕ, String, Bool, true, false, not, ◌||◌, some, ok, ◌≡◌, refl, ap, ◌↔◌, ◌⊎◌, ◌==◌, ==_iff, str_eq,
  str_eq_iff, arith, ok-injective, sym,
}
use aiohub_plugin_dsh_worksp.Files.{Files, works, head_fault, read}
use aiohub_plugin_dsh_worksp.Runtime.Checks.{refused, both}
use aiohub_plugin_dsh_worksp.Platform.{PlatformTarget}
use aiohub_plugin_dsh_worksp.Runtime.{
  RuntimeLockV1, RuntimePlatform, RuntimeTree, ValidatedRuntime, validate_toolchain,
  validate_source, is_spdx, offers, check_lock, validate, dsh_version, dsh_tag, dsh_commit,
  dsh_contract_hash,
}

-- The lock of the frozen release, built with the pinned tools from the official source.
abbrev pub IsFrozen : RuntimeLockV1 → Type 0
IsFrozen l =
    ((l.schema_version ≡ 1)
      × (l.version ≡ dsh_version)
      × (l.tag ≡ dsh_tag)
      × (l.commit ≡ dsh_commit))
    × (l.contract_hash ≡ dsh_contract_hash)
    × (l.profile_version ≡ "dsh-runtime-profile-v1")
    × (l.aio_semver_range ≡ ">=0.7.0-alpha.4")
    × ((l.toolchain.node ≡ "24")
        × (l.toolchain.pnpm ≡ "11.7.0")
        × (l.toolchain.python ≡ "3.10")
        × (l.toolchain.rust ≡ "1.89.0"))
    × ((l.source.kind ≡ "project-built-from-official-source")
        × (l.source.tag ≡ dsh_tag)
        × (l.source.commit ≡ dsh_commit))
    × ((l.license_result.spdx ≡ "MIT") ⊎ (l.license_result.spdx ≡ "Apache-2.0"))

differs : {a b : String} → (not (str_eq a b) ≡ false) ↔ (a ≡ b)
differs {a} {b} = ground (arith, str_eq_iff a b)

differs_ℕ : {a b : ℕ} → (not (a == b) ≡ false) ↔ (a ≡ b)
differs_ℕ {a} {b} = ground (arith, ==_iff a b)

neither :
    {b c : Bool} {P Q : Type 0} → (b ≡ false) ↔ P → (c ≡ false) ↔ Q → ((b || c) ≡ false) ↔ (P × Q)
neither {b = true} f g = (λ h. absurd (ground arith), λ h. absurd (ground (arith, f.1 h.0)))
neither {b = false} f g = (λ h. (f.0 refl, g.0 h), λ h. g.1 h.1)

offered : {b : Bool} → (not b ≡ false) ↔ (b ≡ true)
offered {b} = ground arith

licensed : (s : String) → (not (is_spdx s) ≡ false) ↔ ((s ≡ "MIT") ⊎ (s ≡ "Apache-2.0"))
unfolding is_spdx
licensed s = ground (arith, str_eq_iff s "MIT", str_eq_iff s "Apache-2.0")

abbrev Accepted : PlatformTarget → RuntimeLockV1 → ValidatedRuntime → Type 0
Accepted p l v =
    ((((((((((((l.schema_version ≡ 1) × (l.version ≡ dsh_version)) × (l.tag ≡ dsh_tag))
                      × (l.commit ≡ dsh_commit))
                    × (l.contract_hash ≡ dsh_contract_hash))
                  × (l.profile_version ≡ "dsh-runtime-profile-v1"))
                × (l.aio_semver_range ≡ ">=0.7.0-alpha.4"))
              × ((((l.toolchain.node ≡ "24") × (l.toolchain.pnpm ≡ "11.7.0"))
                    × (l.toolchain.python ≡ "3.10"))
                  × (l.toolchain.rust ≡ "1.89.0")))
            × (((l.source.kind ≡ "project-built-from-official-source") × (l.source.tag ≡ dsh_tag))
                × (l.source.commit ≡ dsh_commit)))
          × ((l.license_result.spdx ≡ "MIT") ⊎ (l.license_result.spdx ≡ "Apache-2.0")))
        × (offers l p ≡ true))
      × (record { platform = p } ≡ v))

-- The same, grouped by what is checked together.
abbrev Grouped : PlatformTarget → RuntimeLockV1 → ValidatedRuntime → Type 0
Grouped p l v = IsFrozen l × (offers l p ≡ true) × (v ≡ record { platform = p })

group :
    (p : PlatformTarget) (l : RuntimeLockV1) (v : ValidatedRuntime) → Accepted p l v → Grouped p l v
group p l v
      (
        (
          (
            (
              (((((((a, b), c), d), contract), profile), range), (((node, pnpm), python), rust)),
              ((kind, tag), commit),
            ),
            license,
          ),
          there,
        ),
        same,
      ) =
    (
      (
        (a, b, c, d),
        contract,
        profile,
        range,
        (node, pnpm, python, rust),
        (kind, tag, commit),
        license,
      ),
      there,
      sym same,
    )

ungroup :
    (p : PlatformTarget) (l : RuntimeLockV1) (v : ValidatedRuntime) → Grouped p l v → Accepted p l v
ungroup p l v
      (
        (
          (a, b, c, d),
          contract,
          profile,
          range,
          (node, pnpm, python, rust),
          (kind, tag, commit),
          license,
        ),
        there,
        same,
      ) =
    (
      (
        (
          (
            (((((((a, b), c), d), contract), profile), range), (((node, pnpm), python), rust)),
            ((kind, tag), commit),
          ),
          license,
        ),
        there,
      ),
      sym same,
    )

regroup :
    {C : Type 0} (p : PlatformTarget) (l : RuntimeLockV1) (v : ValidatedRuntime)
    → C ↔ Accepted p l v
    → C ↔ Grouped p l v
regroup p l v f = (λ h. group p l v (f.0 h), λ h. f.1 (ungroup p l v h))

module _ ⦃tree : RuntimeTree⦄ where
  accepted :
      (p : PlatformTarget) (l : RuntimeLockV1) (v : ValidatedRuntime)
      → (check_lock p l ≡ ok v) ↔ Accepted p l v
  unfolding check_lock validate_toolchain validate_source
  accepted p l v =
      both _ _ _
        (both _ _ _
          (both _ _ _
            (both _ _ _
              (both _ _ _
                (both _ _ _
                  (both _ _ _
                    (both _ _ _
                      (refused _ _ (neither (neither (neither differs_ℕ differs) differs) differs))
                      (refused _ _ differs))
                    (refused _ _ differs))
                  (refused _ _ differs))
                (refused _ _ (neither (neither (neither differs differs) differs) differs)))
              (refused _ _ (neither (neither differs differs) differs)))
            (refused _ _ (licensed l.license_result.spdx)))
          (refused _ _ offered))
        (ok-injective, λ e. ap ok e)

  -- With a disk whose next operation works, and a platform that resolves:
  -- a lock that can be read passes for the platform exactly when it is the frozen release's, with the
  -- pinned tools and source and a permitted license, and offers the platform.
  pub validate_iff :
      {P : Type 0} ⦃which : RuntimePlatform P⦄ (path : String) (p : P) (s : Files)
      (target : PlatformTarget) (raw : String) (l : RuntimeLockV1) (v : ValidatedRuntime)
      → which.resolve p ≡ ok target
      → head_fault s.faults ≡ works
      → s.contents path ≡ some raw
      → tree.read_lock raw ≡ ok l
      → ((validate path p s).0 ≡ ok v)
        ↔ (IsFrozen l × (offers l target ≡ true) × (v ≡ record { platform = target }))
  unfolding validate read
  validate_iff path p s target raw l v h works_now there reads =
      rw (h, works_now, there, reads) (regroup target l v (accepted target l v))
