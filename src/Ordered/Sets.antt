-- ===== src/Ordered/Sets.antt =====
-- Laws of sets.
use mathlib.Core.Path.{ap₂}
use aiohub_plugin_dsh_worksp.Prelude.{
  true, false, ◌&&◌, ◌||◌, List, [], ◌∷◌, ◌≡◌, refl, sym, ◌∙◌, arith, any, Bool-cases, inl, inr,
}
use aiohub_plugin_dsh_worksp.Ordered.Order.{Ord, same, same_iff}
use aiohub_plugin_dsh_worksp.Ordered.{
  contains, add, collect, intersection, Below, IsSorted, Below-trans,
}

module _ {ℓ} {K : Type ℓ} ⦃o : Ord K⦄ where
  pub contains-add : (j k : K) (s : List K) → contains j (add k s) ≡ (same j k || contains j s)
  unfolding contains add
  contains-add j k [] = refl
  contains-add j k (i ∷ s) =
      ground (arith, same_iff k i, same_iff j i, same_iff j k, contains-add j k s)

  pub contains-collect : (k : K) (ks : List K) → contains k (collect ks) ≡ any (same k) ks
  unfolding collect contains
  contains-collect k [] = refl
  contains-collect k (j ∷ ks) = ground (arith, contains-add k j (collect ks), contains-collect k ks)

  pub contains-intersection :
      (k : K) (s t : List K) → contains k (intersection s t) ≡ (contains k s && contains k t)
  unfolding contains intersection
  contains-intersection k [] t = refl
  contains-intersection k (j ∷ s) t = elim (Bool-cases (same k j)) [
    | inl e ↦
        rw ((same_iff k j).0 e) (ground (arith, contains-intersection j s t, (same_iff j j).1 refl))
    | inr e ↦ ground (arith, contains-intersection k s t)
  ]

  add-Below : (i k : K) (s : List K) → o.lt i k ≡ true → Below i s → Below i (add k s)
  unfolding add
  add-Below i k [] h b = (h, tt)
  add-Below i k (j ∷ s) h b = ground (arith, add-Below i k s h b.1)

  pub add-IsSorted : (k : K) (s : List K) → IsSorted s → IsSorted (add k s)
  unfolding add
  add-IsSorted k [] h = (tt, tt)
  add-IsSorted k (j ∷ s) h = ground (
    arith,
    add-IsSorted k s h.1,
    add-Below j k s,
    Below-trans k j s,
    same_iff k j,
    o.lt_total k j,
  )

  pub collect-IsSorted : (ks : List K) → IsSorted (collect ks)
  unfolding collect
  collect-IsSorted [] = tt
  collect-IsSorted (k ∷ ks) = add-IsSorted k (collect ks) (collect-IsSorted ks)

  intersection-Below : (k : K) (s t : List K) → Below k s → Below k (intersection s t)
  unfolding intersection
  intersection-Below k [] t b = tt
  intersection-Below k (j ∷ s) t b = ground (arith, intersection-Below k s t b.1)

  pub intersection-IsSorted : (s t : List K) → IsSorted s → IsSorted (intersection s t)
  unfolding intersection
  intersection-IsSorted [] t h = tt
  intersection-IsSorted (k ∷ s) t h =
      ground (arith, intersection-IsSorted s t h.1, intersection-Below k s t h.0)

  Below-contains : (k : K) (s : List K) → Below k s → contains k s ≡ false
  unfolding contains
  Below-contains k [] b = refl
  Below-contains k (j ∷ s) b = ground (arith, Below-contains k s b.1)

  not_below :
      (k j : K) (s t : List K)
      → IsSorted (j ∷ t)
      → contains k (k ∷ s) ≡ contains k (j ∷ t)
      → o.lt k j ≡ false
  unfolding contains
  not_below k j s t ht h =
      ground (arith, Below-contains k (j ∷ t), Below-trans k j t, (same_iff k k).1 refl)

  heads_equal :
      (k j : K) (s t : List K)
      → IsSorted (k ∷ s)
      → IsSorted (j ∷ t)
      → ((i : K) → contains i (k ∷ s) ≡ contains i (j ∷ t))
      → k ≡ j
  heads_equal k j s t hs ht h =
      o.lt_total k j (not_below k j s t ht (h k)) (not_below j k t s hs (sym (h j)))

  tails_agree :
      (k : K) (s t : List K)
      → Below k s
      → Below k t
      → ((i : K) → contains i (k ∷ s) ≡ contains i (k ∷ t))
      → (i : K) → contains i s ≡ contains i t
  unfolding contains
  tails_agree k s t hs ht h i = elim (Bool-cases (same i k)) [
    | inl e ↦ rw ((same_iff i k).0 e) (Below-contains k s hs ∙ sym (Below-contains k t ht))
    | inr e ↦ ground (arith, h i)
  ]

  -- A set is determined by its elements.
  pub IsSorted-ext :
      (s t : List K) → IsSorted s → IsSorted t → ((k : K) → contains k s ≡ contains k t) → s ≡ t
  unfolding contains
  IsSorted-ext [] [] hs ht h = refl
  IsSorted-ext [] (j ∷ t) hs ht h = ground (arith, h j, (same_iff j j).1 refl)
  IsSorted-ext (k ∷ s) [] hs ht h = ground (arith, h k, (same_iff k k).1 refl)
  IsSorted-ext (k ∷ s) (j ∷ t) hs ht h =
      let e = heads_equal k j s t hs ht h in
      ap₂ ◌∷◌ e (IsSorted-ext s t hs.1 ht.1 (tails_agree k s t hs.0 (rw e ht.0) (λ i. h i ∙ rw e)))
