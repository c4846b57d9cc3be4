-- ===== src/Ordered.antt =====
-- The standard library's `BTreeMap` and `BTreeSet` as the code uses them: lists in strictly rising
-- order of keys.
pub mod Order
pub mod Maps
pub mod Sets
use aiohub_plugin_dsh_worksp.Prelude.{
  Bool, true, false, not, ◌&&◌, ◌||◌, Option, none, some, List, [], ◌∷◌, ◌≡◌, if◌then◌else◌,
}
use Order.{Ord, same}

module _ {ℓ κ} {K : Type ℓ} {V : Type κ} ⦃o : Ord K⦄ where
  unfoldable pub get : K → List (K × V) → Option V
  get k [] = none
  get k ((j, v) ∷ m) = if same k j then some v else get k m

  -- `BTreeMap::insert`: a new value takes the place of an old one.
  unfoldable pub insert : K → V → List (K × V) → List (K × V)
  insert k v [] = (k, v) ∷ []
  insert k v ((j, w) ∷ m) =
      if o.lt k j
      then (k, v) ∷ (j, w) ∷ m
      else if same k j
      then (k, v) ∷ m
      else (j, w) ∷ insert k v m

  abbrev pub keys : List (K × V) → List K
  keys [] = []
  keys ((k, v) ∷ m) = k ∷ keys m

module _ {ℓ} {K : Type ℓ} ⦃o : Ord K⦄ where
  unfoldable pub contains : K → List K → Bool
  contains k [] = false
  contains k (j ∷ s) = same k j || contains k s

  -- `BTreeSet::insert`, without its result.
  unfoldable pub add : K → List K → List K
  add k [] = k ∷ []
  add k (j ∷ s) = if o.lt k j then k ∷ j ∷ s else if same k j then j ∷ s else j ∷ add k s

  -- `collect` into a set.
  unfoldable pub collect : List K → List K
  collect [] = []
  collect (k ∷ ks) = add k (collect ks)

  unfoldable pub intersection : List K → List K → List K
  intersection [] t = []
  intersection (k ∷ s) t = let rest = intersection s t in if contains k t then k ∷ rest else rest

  -- Strictly rising: each key is below all that follow.
  abbrev pub Below : K → List K → Type 0
  Below k [] = Unit
  Below k (j ∷ s) = (o.lt k j ≡ true) × Below k s

  abbrev pub IsSorted : List K → Type 0
  IsSorted [] = Unit
  IsSorted (k ∷ s) = Below k s × IsSorted s

  pub Below-trans : (j k : K) (s : List K) → o.lt j k ≡ true → Below k s → Below j s
  Below-trans j k [] h b = tt
  Below-trans j k (i ∷ s) h b = (o.lt_trans j k i h b.0, Below-trans j k s h b.1)
