-- ===== src/Protocol/Negotiation/Errors.antt =====
-- Each issue that a failed negotiation reports is one that the requests have.
use aiohub_plugin_dsh_worksp.Prelude.{
  String, true, false, List, [], ◌∷◌, ◌++◌, err, ◌≡◌, ◌≢◌, sym, ◌∙◌, arith, any, All, str_eq_iff,
}
use aiohub_plugin_dsh_worksp.Ordered.Order.{text_ord, same, same_iff}
use aiohub_plugin_dsh_worksp.Ordered.{contains, collect}
use aiohub_plugin_dsh_worksp.Ordered.Sets.{contains-collect}
use aiohub_plugin_dsh_worksp.Protocol.Initialize.{
  InitializeRequest, InitializeResult, CompatibilityIssue, major_version, contract_hash,
  missing_stable_capability, Endpoint, local_end, remote_end, incompatible_contract,
}
use aiohub_plugin_dsh_worksp.Protocol.Negotiation.{
  missing_at, missing, version_issues, hash_issues, issues, conclude, negotiate_initialize,
}

abbrev pub offers : Endpoint → InitializeRequest → InitializeRequest → List String
offers local_end ours theirs = ours.stable_capabilities
offers remote_end ours theirs = theirs.stable_capabilities

-- The issue names a real difference between the two requests.
abbrev pub IsReal : InitializeRequest → InitializeRequest → CompatibilityIssue → Type 0
IsReal ours theirs (major_version a b) =
    (a ≡ ours.protocol_version.major) × (b ≡ theirs.protocol_version.major) × (a ≢ b)
IsReal ours theirs (contract_hash a b) =
    (a ≡ ours.contract_hash) × (b ≡ theirs.contract_hash) × (a ≢ b)
IsReal ours theirs (missing_stable_capability endpoint c) =
    (any (same c) (ours.required_stable_capabilities ++ theirs.required_stable_capabilities) ≡ true)
    × (any (same c) (offers endpoint ours theirs) ≡ false)

module _ (ours theirs : InitializeRequest) where
  All-append :
      (xs ys : List CompatibilityIssue)
      → All (IsReal ours theirs) xs
      → All (IsReal ours theirs) ys
      → All (IsReal ours theirs) (xs ++ ys)
  All-append [] ys h k = k
  All-append (x ∷ xs) ys h k = (h.0, All-append xs ys h.1 k)

  missing_at-IsReal :
      (endpoint : Endpoint) (c : String)
      → any (same c) (ours.required_stable_capabilities ++ theirs.required_stable_capabilities)
        ≡ true
      → All (IsReal ours theirs) (missing_at endpoint c (collect (offers endpoint ours theirs)))
  unfolding missing_at
  missing_at-IsReal endpoint c h = ground (arith, contains-collect c (offers endpoint ours theirs))

  missing-IsReal :
      (required : List String)
      → ((c : String)
          → contains c required ≡ true
          → any (same c) (ours.required_stable_capabilities ++ theirs.required_stable_capabilities)
            ≡ true)
      → All
          (IsReal ours theirs)
          (missing (collect ours.stable_capabilities) (collect theirs.stable_capabilities) required)
  unfolding missing contains
  missing-IsReal [] h = tt
  missing-IsReal (c ∷ required) h =
      let here = h c (ground (arith, same_iff c c)) in
      All-append _ _ (missing_at-IsReal local_end c here) (
        All-append _ _ (missing_at-IsReal remote_end c here)
          (missing-IsReal required (λ d m. h d (ground arith))))

  issues-IsReal : All (IsReal ours theirs) (issues ours theirs)
  unfolding issues version_issues hash_issues
  issues-IsReal =
      All-append (version_issues ours.protocol_version.major theirs.protocol_version.major) _
        (ground arith)
        (All-append (hash_issues ours.contract_hash theirs.contract_hash) _
          (ground (arith, str_eq_iff ours.contract_hash theirs.contract_hash))
          (missing-IsReal _ (λ c m. sym (contains-collect c _) ∙ m)))

conclude-err :
    (found is : List CompatibilityIssue) (result : InitializeResult)
    → conclude found result ≡ err (incompatible_contract is)
    → (is ≡ found) × (found ≢ [])
unfolding conclude
conclude-err [] is result h = cc
conclude-err (i ∷ found) is result h = (ground arith, λ e. cc)

-- A negotiation that fails reports at least one issue, and every issue it reports is real: the
-- versions or hashes that it names are those of the requests and differ, and a capability that it
-- names is required by one of them and not offered by the endpoint it names.
pub negotiate_err :
    (ours theirs : InitializeRequest) (is : List CompatibilityIssue)
    → negotiate_initialize ours theirs ≡ err (incompatible_contract is)
    → (is ≢ []) × All (IsReal ours theirs) is
unfolding negotiate_initialize
negotiate_err ours theirs is h =
    let inv = conclude-err _ is _ h in rw inv.0 (inv.1, issues-IsReal ours theirs)
