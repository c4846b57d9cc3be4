-- ===== src/Json.antt =====
-- `serde_json::Value`, as the code reads and builds it.
use aiohub_plugin_dsh_worksp.Prelude.{
  ℕ, String, Bool, Option, none, some, List, [], ◌∷◌, str_eq, if◌then◌else◌,
}

-- A number is told apart only by whether it is a u64; any other keeps its text. An object is the
-- list of its members, of which the first with a name counts.
mutual
  pub data Json : Type 0 where
    null : Json
    bool : Bool → Json
    uint : ℕ → Json
    number : String → Json
    str : String → Json
    arr : Items → Json
    obj : Members → Json

  pub data Items : Type 0 where
    nil : Items
    cons : Json → Items → Items

  pub data Members : Type 0 where
    end : Members
    member : String → Json → Members → Members

unfoldable pub find : String → Members → Option Json
find name end = none
find name (member n v ms) = if str_eq n name then some v else find name ms

-- `Value::get` with a name: `None` also for what is no object.
unfoldable pub get : Json → String → Option Json
unfolding find
get (obj ms) name = find name ms
get _ name = none

abbrev pub as_str : Json → Option String
as_str (str s) = some s
as_str _ = none

abbrev pub as_u64 : Json → Option ℕ
as_u64 (uint n) = some n
as_u64 _ = none

-- The macro `json!` on an object.
abbrev pub json : List (String × Json) → Json
json ms = obj (members ms)
  where
    members : List (String × Json) → Members
    members [] = end
    members ((n, v) ∷ rest) = member n v (members rest)
