-- ===== src/Generate/Canonical.antt =====
-- crates/protocol/src/generate.rs: the canonical form of a schema, whose hash both sides compare.

pub mod Sorted
use mathlib.Core.List.{append-nil, append_assoc}
use aiohub_plugin_dsh_worksp.Prelude.{
  ℕ, String, Bool, true, false, not, ◌&&◌, List, [], ◌∷◌, ◌++◌, All, ◌≡◌, refl, sym, subst, ap, ◌∙◌,
  arith, if◌then◌else◌, if-cases,
}
use aiohub_plugin_dsh_worksp.Json.{
  Json, Items, Members, null, bool, uint, number, str, arr, obj, nil, cons, end, member,
}
use aiohub_plugin_dsh_worksp.Ordered.{insert, keys, IsSorted, Below}
use aiohub_plugin_dsh_worksp.Ordered.Order.{text_ord, text_lt_irrefl, text_lt_trans, same}
use aiohub_plugin_dsh_worksp.Ordered.Maps.{insert-IsSorted}

-- The map of the loop as the members of an object.
abbrev pub to_members : List (String × Json) → Members
to_members [] = end
to_members ((n, v) ∷ m) = member n v (to_members m)

unfoldable mutual
  pub canonicalize : Json → Json
  canonicalize (obj ms) = obj (to_members (canonical_members ms []))
  canonicalize (arr vs) = arr (canonical_items vs)
  canonicalize null = null
  canonicalize (bool b) = bool b
  canonicalize (uint n) = uint n
  canonicalize (number n) = number n
  canonicalize (str s) = str s

  pub canonical_items : Items → Items
  canonical_items nil = nil
  canonical_items (cons v vs) = cons (canonicalize v) (canonical_items vs)

  -- The members go into a map, one after the other.
  pub canonical_members : Members → List (String × Json) → List (String × Json)
  canonical_members end m = m
  canonical_members (member n v ms) m = canonical_members ms (insert n (canonicalize v) m)

abbrev pub names : Members → List String
names end = []
names (member n v ms) = n ∷ names ms

-- The members of each object rise strictly by name, at every depth.
abbrev mutual
  pub IsCanonical : Json → Type 0
  IsCanonical (obj ms) = IsSorted (names ms) × Values ms
  IsCanonical (arr vs) = Elements vs
  IsCanonical null = Unit
  IsCanonical (bool b) = Unit
  IsCanonical (uint n) = Unit
  IsCanonical (number n) = Unit
  IsCanonical (str s) = Unit

  pub Elements : Items → Type 0
  Elements nil = Unit
  Elements (cons v vs) = IsCanonical v × Elements vs

  pub Values : Members → Type 0
  Values end = Unit
  Values (member n v ms) = IsCanonical v × Values ms
