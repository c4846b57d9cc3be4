-- ===== src/Driver/Leases/Table.antt =====
-- The table of controller leases: what each entry is, and that grants keep it so.
use aiohub_plugin_dsh_worksp.Prelude.{
  ℕ, ◌+◌, ◌<◌, String, some, List, [], ◌∷◌, ◌≡◌, ◌≢◌, sym, ap, ◌∙◌, arith, Bool-cases, ◌⊎◌, inl,
  inr,
}
use aiohub_plugin_dsh_worksp.Prelude.Text.{format, dec, format-dec-injective}
use aiohub_plugin_dsh_worksp.Ordered.{get, insert}
use aiohub_plugin_dsh_worksp.Ordered.Order.{text_ord, same, same_iff}
use aiohub_plugin_dsh_worksp.Ordered.Maps.{get-insert}
use aiohub_plugin_dsh_worksp.Protocol.Session.{controller}
use aiohub_plugin_dsh_worksp.Driver.State.{LeaseRecord}

abbrev pub lease_name : ℕ → String
lease_name i = format ("lease-" ∷ dec i ∷ [])

abbrev pub Table : Type 0
Table = List (String × LeaseRecord)

-- An entry stands at its own session, lets it be controlled, and carries a lease counted before `n`.
abbrev pub IsEntry : ℕ → String → LeaseRecord → Type 0
IsEntry n s r =
    (r.lease.session_id ≡ s)
    × (r.lease.mode ≡ controller)
    × ((i : ℕ) × ((i < n) × (r.lease.lease_id ≡ lease_name i)))

abbrev pub IsIssued : ℕ → Table → Type 0
IsIssued n leases = (s : String) (r : LeaseRecord) → get s leases ≡ some r → IsEntry n s r

-- No two sessions share a lease.
abbrev pub IsExclusive : Table → Type 0
IsExclusive leases =
    (s t : String) (r q : LeaseRecord)
    → get s leases ≡ some r
    → get t leases ≡ some q
    → r.lease.lease_id ≡ q.lease.lease_id
    → s ≡ t

abbrev pub IsTable : ℕ → Table → Type 0
IsTable n leases = IsIssued n leases × IsExclusive leases

-- The entry found after an insertion: the new one at its key, or an old one at another.
found :
    (k s : String) (v r : LeaseRecord) (m : Table)
    → get s (insert k v m) ≡ some r
    → ((s ≡ k) × (v ≡ r)) ⊎ (get s m ≡ some r)
found k s v r m h = elim (Bool-cases (same s k)) [
  | inl e ↦ inl ((same_iff s k).0 e, grind (arith, get-insert k s v m))
  | inr e ↦ inr (grind (arith, get-insert k s v m))
]

pub older : (n i : ℕ) → i < n → lease_name n ≢ lease_name i
older n i h e = absurd (grind (arith, format-dec-injective "lease-" n i e))

pub IsTable-nil : (n : ℕ) → IsTable n []
unfolding get
IsTable-nil n = (λ s r h. absurd (ground arith), λ s t r q h k e. absurd (ground arith))

-- An old table stays one when the count goes on.
pub IsTable-suc : (n : ℕ) (m : Table) → IsTable n m → IsTable (n + 1) m
IsTable-suc n m (a, b) =
    (λ s r h. let (e, c, (i, (l, d))) = a s r h in (e, c, (i, (omega arith, d))), b)

pub IsTable-insert :
    (n : ℕ) (k : String) (v : LeaseRecord) (m : Table)
    → v.lease.session_id ≡ k
    → v.lease.mode ≡ controller
    → v.lease.lease_id ≡ lease_name n
    → IsTable n m
    → IsTable (n + 1) (insert k v m)
IsTable-insert n k v m hs hc hl (a, b) = (issued, exclusive)
  where
    issued : IsIssued (n + 1) (insert k v m)
    issued s r h = elim (found k s v r m h) [
      | inl e ↦ (
        ap (λ u. u.lease.session_id) (sym e.1) ∙ hs ∙ sym e.0,
        ap (λ u. u.lease.mode) (sym e.1) ∙ hc,
        (n, (omega arith, ap (λ u. u.lease.lease_id) (sym e.1) ∙ hl)),
      )
      | inr e ↦ let (e', c, (i, (l, d))) = a s r e in (e', c, (i, (omega arith, d)))
    ]

    exclusive : IsExclusive (insert k v m)
    exclusive s t r q h g e = elim (found k s v r m h) [
      | inl x ↦ elim (found k t v q m g) [
        | inl y ↦ x.0 ∙ sym y.0
        | inr y ↦
            let (w, c, (i, (l, z))) = a t q y in
            absurd (older n i l (sym hl ∙ ap (λ u. u.lease.lease_id) x.1 ∙ e ∙ z))
      ]
      | inr x ↦ elim (found k t v q m g) [
        | inl y ↦
            let (w, c, (i, (l, z))) = a s r x in
            absurd (older n i l (sym hl ∙ ap (λ u. u.lease.lease_id) y.1 ∙ sym e ∙ z))
        | inr y ↦ b s t r q x y e
      ]
    ]
