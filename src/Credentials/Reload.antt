-- ===== src/Credentials/Reload.antt =====
-- The document of credentials is read back as it was written.
use aiohub_plugin_dsh_worksp.Prelude.{
  String, false, List, [], ◌∷◌, ◌≡◌, refl, inl, inr, arith, subst, str_eq, Result, ok, err,
}
use aiohub_plugin_dsh_worksp.Files.{Files, read, exists}
use aiohub_plugin_dsh_worksp.Home.{DshHomeLayout}
use aiohub_plugin_dsh_worksp.Credentials.{
  Credentials, CredentialError, CredentialFormat, gather, replace, new, loaded, document_of,
}
use aiohub_plugin_dsh_worksp.Credentials.Atomic.{temporary, Held, Replaced, replace-Replaced}

-- What serde promises: a document that was written is read back.
abbrev pub RoundTrips : CredentialFormat → Type 0
RoundTrips format =
    (entries : List (String × String)) (text : String)
    → format.document_text entries ≡ ok text
    → format.read_document text ≡ ok entries

-- The same disk, where nothing fails any more.
abbrev pub settled : Files → Files
settled s = record s { faults = [] }

module _ ⦃format : CredentialFormat⦄ (trips : RoundTrips format) where
  reads :
      (home : DshHomeLayout) (entry : String × String) (next : List (String × String)) (s : Files)
      → Held (document_of home) (entry ∷ next) s
      → (new home (settled s)).0 ≡ ok (record { path = document_of home; entries = entry ∷ next })
  unfolding new exists read loaded
  reads home entry next s (text, written, there) =
      rw there (rw (there, trips (entry ∷ next) text written) refl)

  -- If serde reads back what it writes, and the document does not stand at the path of its temporary
  -- file: after a replacement by at least one entry that succeeds, the store that is opened anew on
  -- that disk, where from then on no operation fails, is the store in memory.
  pub replace-new :
      (home : DshHomeLayout) (old entries next : List (String × String)) (entry : String × String)
      (s : Files)
      → let c : Credentials = record { path = document_of home; entries = old } in
        str_eq (temporary (document_of home)) (document_of home) ≡ false
        → gather [] entries ≡ ok (entry ∷ next)
        → (replace entries c s).0 ≡ ok tt
        → (new home (settled (replace entries c s).2)).0 ≡ ok (replace entries c s).1
  replace-new home old entries next entry s h g done =
      go (replace entries c s)
        (subst (λ r. Replaced c s r (replace entries c s)) g (replace-Replaced entries c s h)) done
    where
      c : Credentials
      c = record { path = document_of home; entries = old }

      go :
          (x : Result CredentialError (Unit {0}) × Credentials × Files)
          → Replaced c s (ok (entry ∷ next)) x
          → x.0 ≡ ok tt
          → (new home (settled x.2)).0 ≡ ok x.1
      go (ok u, d, t) (same, inl held) e = rw same (reads home entry next t held)
      go (ok u, d, t) (same, inr (empty, old)) e = absurd (ground arith)
      go (err bad, d, t) stored e = absurd (ground arith)
