-- ===== src/Generate/Types/Fits.antt =====
-- The parts of a schema node have fewer nodes than it.
use aiohub_plugin_dsh_worksp.Prelude.{
  ℕ, ◌+◌, ◌≤◌, String, Option, none, some, arith, str_eq, if-cases,
}
use aiohub_plugin_dsh_worksp.Json.{
  Json, Items, Members, null, bool, uint, number, str, arr, obj, end, member, find,
}
use aiohub_plugin_dsh_worksp.Generate.Names.{as_array, as_object}
use aiohub_plugin_dsh_worksp.Generate.Types.{size, item_sizes, sizes}

-- A value that may be missing has at most so many nodes.
abbrev pub Fits : Option Json → ℕ → Type 0
Fits none n = Unit
Fits (some v) n = size v ≤ n

abbrev pub ItemsFit : Option Items → ℕ → Type 0
ItemsFit none n = Unit
ItemsFit (some vs) n = item_sizes vs ≤ n

pub find-Fits : (k : String) (ms : Members) → Fits (find k ms) (sizes ms)
unfolding find
find-Fits k end = tt
find-Fits k (member n v ms) =
    if-cases (λ o. Fits o (size v + sizes ms)) (str_eq n k) (some v) (find k ms) (λ e. omega arith)
      λ e. more (find k ms) (find-Fits k ms)
  where
    more : (o : Option Json) → Fits o (sizes ms) → Fits o (size v + sizes ms)
    more none h = tt
    more (some w) h = omega (arith, h)

pub as_array-Fits : (o : Option Json) (n : ℕ) → Fits o n → ItemsFit (as_array o) n
as_array-Fits none n h = tt
as_array-Fits (some null) n h = tt
as_array-Fits (some (bool b)) n h = tt
as_array-Fits (some (uint b)) n h = tt
as_array-Fits (some (number b)) n h = tt
as_array-Fits (some (str b)) n h = tt
as_array-Fits (some (arr vs)) n h = omega (arith, h)
as_array-Fits (some (obj ms)) n h = tt

pub as_object-Fits : (o : Option Json) (n : ℕ) → Fits o n → sizes (as_object o) ≤ n
as_object-Fits none n h = omega arith
as_object-Fits (some null) n h = omega arith
as_object-Fits (some (bool b)) n h = omega arith
as_object-Fits (some (uint b)) n h = omega arith
as_object-Fits (some (number b)) n h = omega arith
as_object-Fits (some (str b)) n h = omega arith
as_object-Fits (some (arr vs)) n h = omega arith
as_object-Fits (some (obj ms)) n h = omega (arith, h)
