-- ===== src/Credentials/Lookup.antt =====
-- The store of credentials as a map: what was given last under a name is what is found.
use aiohub_plugin_dsh_worksp.Prelude.{
  String, true, Option, none, some, is_some, List, [], ◌∷◌, ◌≡◌, refl, ap, sym, ◌∙◌, arith, Result,
  ok, err, ok-injective, if◌then◌else◌, ◌>>◌,
}
use aiohub_plugin_dsh_worksp.Ordered.{get, insert}
use aiohub_plugin_dsh_worksp.Ordered.Maps.{get-insert}
use aiohub_plugin_dsh_worksp.Ordered.Order.{text_ord, same}
use aiohub_plugin_dsh_worksp.Files.{Files}
use aiohub_plugin_dsh_worksp.Credentials.{
  Credentials, CredentialError, CredentialInfo, Credential, CredentialFormat, gather, validate_ref,
  replace, replace_with, settle, store, resolve, describe,
}

abbrev or : {A : Type 0} → Option A → Option A → Option A
or none o = o
or (some a) o = some a

-- The value that the last pair with the name gives.
abbrev pub last_given : String → List (String × String) → Option String
last_given key [] = none
last_given key ((other, v) ∷ entries) =
    or (last_given key entries) (if same key other then some v else none)

or_assoc : {A : Type 0} (a b c : Option A) → or (or a b) c ≡ or a (or b c)
or_assoc none b c = refl
or_assoc (some a) b c = refl

get-step :
    (key other v : String) (m : List (String × String))
    → get key (insert other v m) ≡ or (if same key other then some v else none) (get key m)
get-step key other v m = ground (arith, get-insert other key v m)

get-gather :
    (key : String) (m entries next : List (String × String))
    → gather m entries ≡ ok next
    → get key next ≡ or (last_given key entries) (get key m)
unfolding gather
get-gather key m [] next h = ap (get key) (sym (ok-injective h))
get-gather key m ((other, v) ∷ entries) next h =
    checked (validate_ref other) h (get-gather key (insert other v m) entries next)
    ∙ ap (or (last_given key entries)) (get-step key other v m)
    ∙ sym (or_assoc (last_given key entries) _ (get key m))
  where
    checked :
        (r : Result CredentialError (Unit {0}))
        → (r >> gather (insert other v m) entries) ≡ ok next
        → (gather (insert other v m) entries ≡ ok next
            → get key next ≡ or (last_given key entries) (get key (insert other v m)))
        → get key next ≡ or (last_given key entries) (get key (insert other v m))
    checked (ok done) e rest = rest e
    checked (err bad) e rest = absurd (ground arith)

-- The answer of `resolve` for a value that may be there.
abbrev pub answer : Option String → Result CredentialError (Option Credential)
answer none = ok none
answer (some v) = ok (some (record { secret = v }))

abbrev info : Option String → Result CredentialError CredentialInfo
info o = ok (record { configured = is_some o; writable = true })

answers :
    (o : Option String)
    → (elim o [ none ↦ ok none | some v ↦ ok (some (record { secret = v })) ]) ≡ answer o
answers none = refl
answers (some v) = refl

or-none : {A : Type 0} (a : Option A) → or a none ≡ a
or-none none = refl
or-none (some a) = refl

module _ ⦃format : CredentialFormat⦄ where
  replaced :
      (entries : List (String × String)) (c : Credentials) (s : Files)
      → (replace entries c s).0 ≡ ok tt
      → (next : List (String × String)) × ((gather [] entries ≡ ok next)
          × ((replace entries c s).1.entries ≡ next))
  unfolding replace
  replaced entries c s h = go (gather [] entries) h
    where
      done :
          (next : List (String × String)) (x : Result CredentialError (Unit {0}) × Files)
          → (settle c next x).0 ≡ ok tt
          → (settle c next x).1.entries ≡ next
      done next (ok u, t) e = refl
      done next (err bad, t) e = absurd (ground arith)

      go :
          (r : Result CredentialError (List (String × String)))
          → (replace_with c r s).0 ≡ ok tt
          → (next : List (String × String)) × ((r ≡ ok next)
              × ((replace_with c r s).1.entries ≡ next))
      go (ok next) e = (next, (refl, done next (store c.path next s) e))
      go (err bad) e = absurd (ground arith)

  -- After a replacement that succeeds, a lookup under a proper name gives what was given last under
  -- that name, and a description says whether there is such a value.
  pub resolve-replace :
      (entries : List (String × String)) (c : Credentials) (s : Files) (key : String)
      → (replace entries c s).0 ≡ ok tt
      → validate_ref key ≡ ok tt
      → (resolve key (replace entries c s).1 ≡ answer (last_given key entries))
        × (describe key (replace entries c s).1 ≡ info (last_given key entries))
  unfolding resolve describe get
  resolve-replace entries c s key h valid = go (replaced entries c s h)
    where
      found :
          (next : List (String × String))
          → gather [] entries ≡ ok next
          → get key next ≡ last_given key entries
      found next g = get-gather key [] entries next g ∙ or-none (last_given key entries)

      go :
          (next : List (String × String)) × ((gather [] entries ≡ ok next)
              × ((replace entries c s).1.entries ≡ next))
          → (resolve key (replace entries c s).1 ≡ answer (last_given key entries))
            × (describe key (replace entries c s).1 ≡ info (last_given key entries))
      go (next, (g, e)) = (
        rw (valid, e, found next g) (answers (last_given key entries)),
        rw (valid, e, found next g) refl,
      )
