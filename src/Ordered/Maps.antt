-- ===== src/Ordered/Maps.antt =====
-- Laws of maps.
use aiohub_plugin_dsh_worksp.Prelude.{
  true, false, some, List, [], ◌∷◌, ◌≡◌, refl, arith, if◌then◌else◌,
}
use aiohub_plugin_dsh_worksp.Ordered.Order.{Ord, same, same_iff}
use aiohub_plugin_dsh_worksp.Ordered.{get, insert, keys, IsSorted, Below, Below-trans}

module _ {ℓ κ} {K : Type ℓ} {V : Type κ} ⦃o : Ord K⦄ where
  pub get-insert :
      (k j : K) (v : V) (m : List (K × V))
      → get j (insert k v m) ≡ (if same j k then some v else get j m)
  unfolding get insert
  get-insert k j v [] = refl
  get-insert k j v ((i, w) ∷ m) =
      ground (arith, same_iff k i, same_iff j i, same_iff j k, get-insert k j v m)

  pub get-insert_other :
      (k j : K) (v : V) (m : List (K × V)) → same j k ≡ false → get j (insert k v m) ≡ get j m
  get-insert_other k j v m h = rw (get-insert k j v m, h)

  pub get-insert_self : (k : K) (v : V) (m : List (K × V)) → get k (insert k v m) ≡ some v
  get-insert_self k v m = rw (get-insert k k v m, (same_iff k k).1 refl)

  insert-Below :
      (i k : K) (v : V) (m : List (K × V))
      → o.lt i k ≡ true
      → Below i (keys m)
      → Below i (keys (insert k v m))
  unfolding insert
  insert-Below i k v [] h b = (h, tt)
  insert-Below i k v ((j, w) ∷ m) h b = ground (arith, insert-Below i k v m h b.1)

  pub insert-IsSorted :
      (k : K) (v : V) (m : List (K × V)) → IsSorted (keys m) → IsSorted (keys (insert k v m))
  unfolding insert
  insert-IsSorted k v [] s = (tt, tt)
  insert-IsSorted k v ((j, w) ∷ m) s = ground (
    arith,
    insert-IsSorted k v m s.1,
    insert-Below j k v m,
    Below-trans k j (keys m),
    same_iff k j,
    o.lt_total k j,
  )
