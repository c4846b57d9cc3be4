-- ===== src/Generate/Canonical/Sorted.antt =====
-- The canonical form of a schema is sorted, and it is its own canonical form.
use mathlib.Core.Option.{map as option_map}
use mathlib.Core.List.{append-nil, append_assoc}
use aiohub_plugin_dsh_worksp.Prelude.{
  Option, none, some, str_eq_iff, String, Bool, true, false, List, [], ◌∷◌, ◌++◌, All, ◌≡◌, refl,
  sym, subst, ap, ◌∙◌, arith, if◌then◌else◌, if-cases,
}
use aiohub_plugin_dsh_worksp.Json.{
  find, get, Json, Items, Members, null, bool, uint, number, str, arr, obj, nil, cons, end, member,
}
use aiohub_plugin_dsh_worksp.Ordered.{get as map_get, insert, keys, IsSorted, Below}
use aiohub_plugin_dsh_worksp.Ordered.Order.{same_iff, text_ord, text_lt_irrefl, text_lt_trans, same}
use aiohub_plugin_dsh_worksp.Ordered.Maps.{insert-IsSorted, get-insert}
use aiohub_plugin_dsh_worksp.Generate.Canonical.{
  to_members, canonicalize, canonical_items, canonical_members, names, IsCanonical, Elements,
  Values,
}

-- What holds of each value of a map.
abbrev pub Canonical : List (String × Json) → Type 0
Canonical m = All (λ p. IsCanonical p.1) m

to_members-Values : (m : List (String × Json)) → Canonical m → Values (to_members m)
to_members-Values [] h = tt
to_members-Values ((n, v) ∷ m) h = (h.0, to_members-Values m h.1)

names-to_members : (m : List (String × Json)) → names (to_members m) ≡ keys m
names-to_members [] = refl
names-to_members ((n, v) ∷ m) = rw (names-to_members m)

insert-Canonical :
    (n : String) (v : Json) (m : List (String × Json))
    → IsCanonical v
    → Canonical m
    → Canonical (insert n v m)
unfolding insert
insert-Canonical n v [] hv h = (hv, tt)
insert-Canonical n v ((k, w) ∷ m) hv h =
    if-cases (λ r. Canonical r) (text_ord.lt n k) _ _ (λ e. (hv, h))
      λ e.
        if-cases (λ r. Canonical r) (same n k) _ _ (λ d. (hv, h.1))
          λ d. (h.0, insert-Canonical n v m hv h.1)

-- A canonical form has its members in order, at every depth.
mutual
  unfolding canonicalize

  canonicalize_ordered : (v : Json) → IsCanonical (canonicalize v)
  canonicalize_ordered (obj ms) =
      let m = canonical_members ms [] in
      let (values, sorted) = members_ordered ms [] tt tt in
      (subst IsSorted (sym (names-to_members m)) sorted, to_members-Values m values)
  canonicalize_ordered (arr vs) = items_ordered vs
  canonicalize_ordered null = tt
  canonicalize_ordered (bool b) = tt
  canonicalize_ordered (uint n) = tt
  canonicalize_ordered (number n) = tt
  canonicalize_ordered (str s) = tt

  items_ordered : (vs : Items) → Elements (canonical_items vs)
  items_ordered nil = tt
  items_ordered (cons v vs) = (canonicalize_ordered v, items_ordered vs)

  members_ordered :
      (ms : Members) (m : List (String × Json))
      → Canonical m
      → IsSorted (keys m)
      → Canonical (canonical_members ms m) × IsSorted (keys (canonical_members ms m))
  members_ordered end m h s = (h, s)
  members_ordered (member n v ms) m h s =
      members_ordered ms (insert n (canonicalize v) m)
        (insert-Canonical n (canonicalize v) m (canonicalize_ordered v) h)
        (insert-IsSorted n (canonicalize v) m s)

abbrev of_members : Members → List (String × Json)
of_members end = []
of_members (member n v ms) = (n, v) ∷ of_members ms

of_members-to_members : (ms : Members) → to_members (of_members ms) ≡ ms
of_members-to_members end = refl
of_members-to_members (member n v ms) = rw (of_members-to_members ms)

-- The keys of a map are below some others.
abbrev Under : List String → List (String × Json) → Type 0
Under ns m = All (λ (p : String × Json). Below p.0 ns) m

Under-tail :
    (n : String) (ns : List String) (m : List (String × Json)) → Under (n ∷ ns) m → Under ns m
Under-tail n ns [] h = tt
Under-tail n ns ((k, w) ∷ m) h = (h.0.1, Under-tail n ns m h.1)

Under-last :
    (ns : List String) (n : String) (v : Json) (m : List (String × Json))
    → Under ns m
    → Below n ns
    → Under ns (m ++ (n, v) ∷ [])
Under-last ns n v [] h b = (b, tt)
Under-last ns n v ((k, w) ∷ m) h b = (h.0, Under-last ns n v m h.1 b)

-- A key above all of a map goes to its end.
insert-last :
    (n : String) (v : Json) (ns : List String) (m : List (String × Json))
    → Under (n ∷ ns) m
    → insert n v m ≡ m ++ (n, v) ∷ []
unfolding insert
insert-last n v ns [] h = refl
insert-last n v ns ((k, w) ∷ m) h =
    ground (arith, h.0.0, text_lt_irrefl k, text_lt_trans k n k, insert-last n v ns m h.1)

-- What is in canonical form stays as it is.
mutual
  unfolding canonicalize

  canonicalize_same : (v : Json) → IsCanonical v → canonicalize v ≡ v
  canonicalize_same (obj ms) h =
      ap (λ m. obj (to_members m)) (members_same ms [] h.0 h.1 tt)
      ∙ ap obj (of_members-to_members ms)
  canonicalize_same (arr vs) h = ap arr (items_same vs h)
  canonicalize_same null h = refl
  canonicalize_same (bool b) h = refl
  canonicalize_same (uint n) h = refl
  canonicalize_same (number n) h = refl
  canonicalize_same (str s) h = refl

  items_same : (vs : Items) → Elements vs → canonical_items vs ≡ vs
  items_same nil h = refl
  items_same (cons v vs) h = rw (canonicalize_same v h.0, items_same vs h.1)

  members_same :
      (ms : Members) (m : List (String × Json))
      → IsSorted (names ms)
      → Values ms
      → Under (names ms) m
      → canonical_members ms m ≡ m ++ of_members ms
  members_same end m s h u = sym (append-nil m)
  members_same (member n v ms) m s h u =
      ap (λ x. canonical_members ms (insert n x m)) (canonicalize_same v h.0)
      ∙ ap (canonical_members ms) (insert-last n v (names ms) m u)
      ∙ members_same ms (m ++ (n, v) ∷ []) s.1 h.1
          (Under-last (names ms) n v m (Under-tail n (names ms) m u) s.0)
      ∙ append_assoc m ((n, v) ∷ []) (of_members ms)

-- The value of the last member with a name.
abbrev last : String → Members → Option Json
last k end = none
last k (member n v ms) = elim (last k ms) [
  | some w ↦ some w
  | none ↦ if same k n then some v else none
]

abbrev pub last_value : Json → String → Option Json
last_value (obj ms) k = last k ms
last_value _ k = none

find-to_members : (k : String) (m : List (String × Json)) → find k (to_members m) ≡ map_get k m
unfolding find map_get
find-to_members k [] = refl
find-to_members k ((n, v) ∷ m) = ground (arith, find-to_members k m, str_eq_iff n k, same_iff k n)

-- What the code finds after it put in the members that follow.
abbrev over : Option Json → Option Json → Option Json
over none before = before
over (some v) before = some (canonicalize v)

get-canonical_members :
    (k : String) (ms : Members) (m : List (String × Json))
    → map_get k (canonical_members ms m) ≡ over (last k ms) (map_get k m)
unfolding canonicalize
get-canonical_members k end m = refl
get-canonical_members k (member n v ms) m =
    get-canonical_members k ms (insert n (canonicalize v) m)
    ∙ ap (over (last k ms)) (get-insert n k (canonicalize v) m)
    ∙ go (last k ms) (same k n)
  where
    go :
        (o : Option Json) (b : Bool)
        → over o (if b then some (canonicalize v) else map_get k m)
          ≡ over (elim o [ some w ↦ some w | none ↦ if b then some v else none ]) (map_get k m)
    go none true = refl
    go none false = refl
    go (some w) b = refl

over-none : (o : Option Json) → over o none ≡ option_map canonicalize o
over-none none = refl
over-none (some v) = refl

canonicalize_get : (v : Json) (k : String) → get (canonicalize v) k ≡ over (last_value v k) none
unfolding canonicalize get map_get
canonicalize_get (obj ms) k =
    find-to_members k (canonical_members ms []) ∙ get-canonical_members k ms []
canonicalize_get (arr vs) k = refl
canonicalize_get null k = refl
canonicalize_get (bool b) k = refl
canonicalize_get (uint n) k = refl
canonicalize_get (number n) k = refl
canonicalize_get (str s) k = refl

-- The members of each object of a canonical form rise strictly by name, at every depth; a value in
-- canonical form is its own canonical form; and under each name it has the canonical form of the
-- last value that the original has there, or nothing where the original has nothing.
pub canonicalize-IsCanonical :
    (v : Json)
    → IsCanonical (canonicalize v)
      × (canonicalize (canonicalize v) ≡ canonicalize v)
      × ((k : String) → get (canonicalize v) k ≡ option_map canonicalize (last_value v k))
canonicalize-IsCanonical v = (
  canonicalize_ordered v,
  canonicalize_same (canonicalize v) (canonicalize_ordered v),
  λ k. canonicalize_get v k ∙ over-none (last_value v k),
)
