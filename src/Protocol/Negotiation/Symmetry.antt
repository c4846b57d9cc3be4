-- ===== src/Protocol/Negotiation/Symmetry.antt =====
-- Both endpoints come to the same agreement, whichever of them negotiates.
use aiohub_plugin_dsh_worksp.Prelude.{String, List, [], ◌++◌, ok, ◌≡◌, refl, sym, ◌∙◌, arith, any}
use aiohub_plugin_dsh_worksp.Ordered.Order.{text_ord, same}
use aiohub_plugin_dsh_worksp.Ordered.{collect, intersection}
use aiohub_plugin_dsh_worksp.Ordered.Sets.{IsSorted-ext}
use aiohub_plugin_dsh_worksp.Protocol.Initialize.{InitializeRequest, InitializeResult}
use aiohub_plugin_dsh_worksp.Protocol.Negotiation.{agreed, negotiate_initialize}
use aiohub_plugin_dsh_worksp.Protocol.Negotiation.Laws.{
  IsCompatible, any-append, contains-shared, shared-IsSorted, negotiate_iff, negotiate_inv,
}

append_swap : (c : String) (xs ys : List String) → any (same c) (xs ++ ys) ≡ any (same c) (ys ++ xs)
append_swap c xs ys = ground (arith, any-append c xs ys, any-append c ys xs)

IsCompatible-symm : (a b : InitializeRequest) → IsCompatible a b → IsCompatible b a
IsCompatible-symm a b h = record {
  major = sym h.major;
  contract = sym h.contract;
  required = λ c m.
      let both =
        h.required c
          (append_swap c a.required_stable_capabilities b.required_stable_capabilities ∙ m) in
      (both.1, both.0);
}

shared_comm :
    (xs ys : List String)
    → intersection (collect xs) (collect ys) ≡ intersection (collect ys) (collect xs)
shared_comm xs ys =
    IsSorted-ext _ _ (shared-IsSorted xs ys) (shared-IsSorted ys xs)
      λ c. ground (arith, contains-shared c xs ys, contains-shared c ys xs)

-- If one endpoint's negotiation succeeds, so does the other's, with the same version, contract hash
-- and lists of capabilities.
pub negotiate_symm :
    (a b : InitializeRequest) {r : InitializeResult}
    → negotiate_initialize a b ≡ ok r
    → (r' : InitializeResult) × (negotiate_initialize b a ≡ ok r')
      × (r'.protocol_version ≡ r.protocol_version)
      × (r'.contract_hash ≡ r.contract_hash)
      × (r'.stable_capabilities ≡ r.stable_capabilities)
      × (r'.experimental_capabilities ≡ r.experimental_capabilities)
unfolding agreed
negotiate_symm a b {r} h =
    let inv = negotiate_inv a b h in
    let back = (negotiate_iff b a).1 (IsCompatible-symm a b inv.0) in
    let other = negotiate_inv b a back.1 in
    (
      back.0,
      back.1,
      ground (arith, inv.0.major),
      ground (arith, inv.0.contract),
      rw (other.1, inv.1) (shared_comm b.stable_capabilities a.stable_capabilities),
      rw (other.1, inv.1) (shared_comm b.experimental_capabilities a.experimental_capabilities),
    )

-- An endpoint that requires no capability agrees with itself.
pub negotiate_self :
    (a : InitializeRequest)
    → a.required_stable_capabilities ≡ []
    → (r : InitializeResult) × (negotiate_initialize a a ≡ ok r)
negotiate_self a e =
    (negotiate_iff a a).1
      (record { major = refl; contract = refl; required = λ c m. ground (arith, e) })
