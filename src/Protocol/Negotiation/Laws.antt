-- ===== src/Protocol/Negotiation/Laws.antt =====
-- When two endpoints agree, on what, and why they do not.
use aiohub_plugin_dsh_worksp.Prelude.{
  min, String, true, ◌&&◌, ◌||◌, List, [], ◌∷◌, ◌++◌, ok, str_eq_iff, ◌≡◌, ◌↔◌, refl, sym, ◌∙◌,
  arith, any, min,
}
use aiohub_plugin_dsh_worksp.Ordered.Order.{text_ord, same, same_iff}
use aiohub_plugin_dsh_worksp.Ordered.{contains, collect, intersection, IsSorted}
use aiohub_plugin_dsh_worksp.Ordered.Sets.{
  contains-collect, contains-intersection, collect-IsSorted, intersection-IsSorted,
}
use aiohub_plugin_dsh_worksp.Protocol.Initialize.{
  InitializeRequest, InitializeResult, CompatibilityIssue,
}
use aiohub_plugin_dsh_worksp.Protocol.Negotiation.{
  missing_at, missing, version_issues, hash_issues, issues, agreed, conclude, negotiate_initialize,
}

-- The capability stands in the list.
abbrev pub Lists : List String → String → Type 0
Lists xs c = any (same c) xs ≡ true

pub any-append :
    (c : String) (xs ys : List String)
    → any (same c) (xs ++ ys) ≡ (any (same c) xs || any (same c) ys)
any-append c [] ys = refl
any-append c (x ∷ xs) ys = ground (arith, any-append c xs ys)

-- Two requests fit: one major version, one contract, and each capability that either requires is
-- offered as stable by both.
pub record IsCompatible (ours theirs : InitializeRequest) : Type 0 where
  pub major : ours.protocol_version.major ≡ theirs.protocol_version.major
  pub contract : ours.contract_hash ≡ theirs.contract_hash
  pub required :
      (c : String)
      → Lists (ours.required_stable_capabilities ++ theirs.required_stable_capabilities) c
      → Lists ours.stable_capabilities c × Lists theirs.stable_capabilities c

missing-nil :
    (ours theirs required : List String) (c : String)
    → missing ours theirs required ≡ []
    → contains c required ≡ true
    → (contains c ours ≡ true) × (contains c theirs ≡ true)
unfolding missing missing_at contains
missing-nil ours theirs [] c h m = cc
missing-nil ours theirs (r ∷ required) c h m =
    ground (arith, same_iff c r, missing-nil ours theirs required c)

nil-missing :
    (ours theirs required : List String)
    → ((c : String)
        → contains c required ≡ true
        → (contains c ours ≡ true) × (contains c theirs ≡ true))
    → missing ours theirs required ≡ []
unfolding missing missing_at contains
nil-missing ours theirs [] h = refl
nil-missing ours theirs (r ∷ required) h =
    let here = h r (ground (arith, same_iff r r)) in
    ground (arith, here, nil-missing ours theirs required (λ c m. h c (ground arith)))

pub issues-nil :
    (ours theirs : InitializeRequest) → issues ours theirs ≡ [] → IsCompatible ours theirs
unfolding version_issues hash_issues issues
issues-nil ours theirs h = record {
  major = ground arith;
  contract = ground (arith, str_eq_iff ours.contract_hash theirs.contract_hash);
  required = λ c m.
      let both =
        missing-nil (collect ours.stable_capabilities) (collect theirs.stable_capabilities) _ c
          (ground arith) (contains-collect c _ ∙ m) in
      (sym (contains-collect c _) ∙ both.0, sym (contains-collect c _) ∙ both.1);
}

nil-issues : (ours theirs : InitializeRequest) → IsCompatible ours theirs → issues ours theirs ≡ []
unfolding version_issues hash_issues issues
nil-issues ours theirs h =
    let none_missing =
      nil-missing (collect ours.stable_capabilities) (collect theirs.stable_capabilities)
        (collect (ours.required_stable_capabilities ++ theirs.required_stable_capabilities))
        λ c m.
          let both = h.required c (sym (contains-collect c _) ∙ m) in
          (contains-collect c _ ∙ both.0, contains-collect c _ ∙ both.1) in
    ground (arith, none_missing, str_eq_iff ours.contract_hash theirs.contract_hash)

conclude-ok :
    (found : List CompatibilityIssue) (result r : InitializeResult)
    → conclude found result ≡ ok r
    → (found ≡ []) × (r ≡ result)
unfolding conclude
conclude-ok [] result r h = (refl, ground arith)
conclude-ok (i ∷ is) result r h = cc

-- The negotiation succeeds exactly when the two requests are compatible.
pub negotiate_iff :
    (ours theirs : InitializeRequest)
    → ((r : InitializeResult) × (negotiate_initialize ours theirs ≡ ok r))
      ↔ IsCompatible ours theirs
unfolding negotiate_initialize
negotiate_iff ours theirs = (
  λ h. issues-nil ours theirs (conclude-ok _ _ h.0 h.1).0,
  λ h. (agreed ours theirs, rw (nil-issues ours theirs h, conclude)),
)

-- What an endpoint may rely on after a negotiation that succeeded: the lower minor version, and
-- exactly the capabilities that both endpoints list, each once and in order.
pub record IsAgreement (ours theirs : InitializeRequest) (r : InitializeResult) : Type 0 where
  pub major_ours : r.protocol_version.major ≡ ours.protocol_version.major
  pub major_theirs : r.protocol_version.major ≡ theirs.protocol_version.major
  pub minor :
      r.protocol_version.minor ≡ min ours.protocol_version.minor theirs.protocol_version.minor
  pub contract : r.contract_hash ≡ theirs.contract_hash
  pub stable :
      (c : String)
      → contains c r.stable_capabilities
        ≡ (any (same c) ours.stable_capabilities && any (same c) theirs.stable_capabilities)
  pub experimental :
      (c : String)
      → contains c r.experimental_capabilities ≡ (
          any (same c) ours.experimental_capabilities
          && any (same c) theirs.experimental_capabilities)
  pub stable_sorted : IsSorted r.stable_capabilities
  pub experimental_sorted : IsSorted r.experimental_capabilities

pub contains-shared :
    (c : String) (xs ys : List String)
    → contains c (intersection (collect xs) (collect ys)) ≡ (any (same c) xs && any (same c) ys)
contains-shared c xs ys = rw (
  contains-intersection c (collect xs) (collect ys),
  contains-collect c xs,
  contains-collect c ys,
)

pub shared-IsSorted : (xs ys : List String) → IsSorted (intersection (collect xs) (collect ys))
shared-IsSorted xs ys = intersection-IsSorted (collect xs) (collect ys) (collect-IsSorted xs)

agreed-IsAgreement :
    (ours theirs : InitializeRequest)
    → IsCompatible ours theirs
    → IsAgreement ours theirs (agreed ours theirs)
unfolding agreed
agreed-IsAgreement ours theirs h = record {
  major_ours = refl;
  major_theirs = h.major;
  minor = refl;
  contract = h.contract;
  stable = λ c. contains-shared c _ _;
  experimental = λ c. contains-shared c _ _;
  stable_sorted = shared-IsSorted _ _;
  experimental_sorted = shared-IsSorted _ _;
}

pub negotiate_inv :
    (ours theirs : InitializeRequest) {r : InitializeResult}
    → negotiate_initialize ours theirs ≡ ok r
    → IsCompatible ours theirs × (r ≡ agreed ours theirs)
unfolding negotiate_initialize
negotiate_inv ours theirs h = let inv = conclude-ok _ _ _ h in (issues-nil ours theirs inv.0, inv.1)

-- A negotiation that succeeds agrees on the lower minor version and on exactly the capabilities that
-- both requests list, in order and without repetition.
pub negotiate-IsAgreement :
    (ours theirs : InitializeRequest) {r : InitializeResult}
    → negotiate_initialize ours theirs ≡ ok r
    → IsAgreement ours theirs r
negotiate-IsAgreement ours theirs h =
    let inv = negotiate_inv ours theirs h in rw inv.1 (agreed-IsAgreement ours theirs inv.0)
