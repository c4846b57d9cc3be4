-- ===== src/Generate/Types.antt =====
-- crates/protocol/src/generate.rs: the TypeScript types of a schema.
pub mod Fits
pub mod Terminates
use Prim.Native.Char.{Char, code}
use aiohub_plugin_dsh_worksp.Prelude.{
  ℕ, zero, suc, ◌+◌, String, Bool, true, false, not, ◌&&◌, ◌||◌, Option, none, some, is_some,
  unwrap_or, List, [], ◌∷◌, ◌++◌, map, replicate, Result, ok, err, ◌>>=◌, str_eq, ◌==◌, leb, any,
  all, if◌then◌else◌,
}
use aiohub_plugin_dsh_worksp.Prelude.Text.{chars, of_chars, format, dec, contains}
use aiohub_plugin_dsh_worksp.Json.{
  Json, Items, Members, null, bool, uint, number, str, arr, obj, nil, cons, end, member, find, get,
}
use aiohub_plugin_dsh_worksp.Generate.Names.{
  space, underscore, between, is_letter, is_word, type_name, is_identifier, strip_prefix, join,
  joined, collect_results, join_schema_types, parenthesize_composite, spaces, as_array, as_object,
  strings, required_names, as_text,
}

-- `serde_json::to_string` on a text, which does not fail, `Display` of a value, and `{:?}` on a text.
pub record RenderEnv : Type 0 where
  pub string_json : String → String
  pub display_json : Json → String
  pub debug_text : String → String

module _ ⦃env : RenderEnv⦄ where
  open env use {string_json, display_json, debug_text}

  property_name : String → String
  unfolding is_identifier
  property_name value = if is_identifier (chars value) then value else string_json value

  unfoldable pub ts_literal : Json → Result String String
  ts_literal null = ok "null"
  ts_literal (bool b) = ok (if b then "true" else "false")
  ts_literal (uint n) = ok (dec n)
  ts_literal (number n) = ok n
  ts_literal (str s) = ok (string_json s)
  ts_literal (arr vs) =
      err (format ("unsupported TypeScript literal " ∷ display_json (arr vs) ∷ []))
  ts_literal (obj ms) =
      err (format ("unsupported TypeScript literal " ∷ display_json (obj ms) ∷ []))

  pub literals : Items → List (Result String String)
  unfolding ts_literal
  literals nil = []
  literals (cons v vs) = ts_literal v ∷ literals vs

  pub reference_type : String → Option String → Result String String
  reference_type reference none =
      err (format ("unsupported schema reference " ∷ debug_text reference ∷ []))
  reference_type reference (some name) = ok (type_name name)

  pub braces : ℕ → List String → String
  unfolding join spaces
  braces indent [] = "Record<string, never>"
  braces indent (m ∷ ms) = format ("{\n" ∷ join "\n" (m ∷ ms) ∷ "\n" ∷ spaces indent ∷ "}" ∷ [])

  -- The body of `ts_type`, whose own calls are an argument: a schema node and an indentation.
  module _ (rec : Json → ℕ → Result String String) where
    pub variants : Items → ℕ → List (Result String String)
    unfolding parenthesize_composite
    variants nil indent = []
    variants (cons v vs) indent =
        (rec v indent >>= λ t. ok (parenthesize_composite t)) ∷ variants vs indent

    pub kinds : Items → ℕ → List (Result String String)
    kinds nil indent = []
    kinds (cons v vs) indent = rec (obj (member "type" v end)) indent ∷ kinds vs indent

    pub properties : List String → Members → ℕ → List (Result String String)
    unfolding property_name spaces
    properties required end indent = []
    properties required (member name v ms) indent =
        (rec v indent >>= λ t. ok (
          format (
            spaces indent
            ∷ property_name name
            ∷ (if any (str_eq name) required then "" else "?")
            ∷ ": "
            ∷ t
            ∷ ";"
            ∷ [])))
        ∷ properties required ms indent

    -- The match on `additionalProperties`, after the members that there are.
    pub additional : Option Json → List String → ℕ → Result String (List String)
    unfolding spaces
    additional none [] indent = ok (format (spaces indent ∷ "[key: string]: unknown;" ∷ []) ∷ [])
    additional none (m ∷ ms) indent = ok (m ∷ ms)
    additional (some (bool false)) ms indent = ok ms
    additional (some (bool true)) ms indent =
        ok (ms ++ format (spaces indent ∷ "[key: string]: unknown;" ∷ []) ∷ [])
    additional (some v) ms indent = rec v indent >>= λ t.
        ok (ms ++ format (spaces indent ∷ "[key: string]: " ∷ t ∷ ";" ∷ []) ∷ [])

    pub ts_object : Members → ℕ → Result String String
    unfolding collect_results additional braces required_names
    ts_object ms indent =
        collect_results (
          properties (required_names (as_array (find "required" ms)))
            (as_object (find "properties" ms)) (indent + 2))
        >>= λ members.
            additional (find "additionalProperties" ms) members (indent + 2) >>= λ members.
            ok (braces indent members)

    pub of_kind : String → Members → ℕ → Result String String
    unfolding ts_object
    of_kind kind ms indent = elim (str_eq kind "null" || str_eq kind "boolean") [
      | true ↦ ok kind
      | false ↦ elim (str_eq kind "integer" || str_eq kind "number") [
        | true ↦ ok "number"
        | false ↦ elim (str_eq kind "string") [
          | true ↦ ok "string"
          | false ↦ elim (str_eq kind "array") [
            | true ↦ rec (unwrap_or (find "items" ms) (bool true)) indent >>= λ t.
                ok (format ("Array<" ∷ t ∷ ">" ∷ []))
            | false ↦ elim (str_eq kind "object") [
              | true ↦ ts_object ms indent
              | false ↦ err (format ("unsupported JSON Schema type " ∷ debug_text kind ∷ []))
            ]
          ]
        ]
      ]
    ]

    -- The match on `type`.
    pub of_type : Option Json → Members → ℕ → Result String String
    unfolding of_kind kinds
    of_type (some (arr types)) ms indent = join_schema_types (kinds types indent) " | "
    of_type (some (str kind)) ms indent = of_kind kind ms indent
    of_type (some other) ms indent =
        err (format ("invalid JSON Schema type " ∷ display_json other ∷ []))
    of_type none ms indent =
        elim (is_some (find "properties" ms) || is_some (find "additionalProperties" ms)) [
          | true ↦ ts_object ms indent
          | false ↦ ok "unknown"
        ]

    -- `oneOf`, `anyOf` and `allOf`; where the keyword has no array, what follows.
    pub combined : Option Items → String → ℕ → Result String String → Result String String
    unfolding variants
    combined (some vs) separator indent otherwise = join_schema_types (variants vs indent) separator
    combined none separator indent otherwise = otherwise

    pub of_object : Members → ℕ → Result String String
    unfolding combined of_type reference_type strip_prefix literals
    of_object ms indent = elim (as_text (find "$ref" ms)) [
      | some reference ↦ reference_type reference (strip_prefix "#/$defs/" reference)
      | none ↦ elim (find "const" ms) [
        | some value ↦ ts_literal value
        | none ↦ elim (as_array (find "enum" ms)) [
          | some values ↦ join_schema_types (literals values) " | "
          | none ↦ combined (as_array (find "oneOf" ms)) " | " indent (
              combined (as_array (find "anyOf" ms)) " | " indent (
                combined (as_array (find "allOf" ms)) " & " indent
                  (of_type (find "type" ms) ms indent)))
        ]
      ]
    ]

    unfoldable pub ts_node : Json → ℕ → Result String String
    unfolding of_object
    ts_node (bool true) indent = ok "unknown"
    ts_node (bool false) indent = ok "never"
    ts_node (obj ms) indent = of_object ms indent
    ts_node _ indent = err "schema node must be an object or boolean"

-- The nodes of a value.
abbrev mutual
  pub size : Json → ℕ
  size (obj ms) = suc (sizes ms)
  size (arr vs) = suc (item_sizes vs)
  size _ = 1

  pub item_sizes : Items → ℕ
  item_sizes nil = 0
  item_sizes (cons v vs) = size v + item_sizes vs

  pub sizes : Members → ℕ
  sizes end = 0
  sizes (member n v ms) = size v + sizes ms

module _ ⦃env : RenderEnv⦄ where
  -- `ts_type`, on fuel; where that runs out, the answer is the first argument.
  unfoldable pub ts_type_on : Result String String → ℕ → Json → ℕ → Result String String
  unfolding ts_node
  ts_type_on stop zero schema indent = stop
  ts_type_on stop (suc n) schema indent = ts_node (ts_type_on stop n) schema indent

  -- The nodes of the schema and one are fuel enough.
  unfoldable pub ts_type : Json → ℕ → Result String String
  unfolding ts_type_on
  ts_type schema indent = ts_type_on (err "out of fuel") (suc (size schema)) schema indent

  declarations : Members → Result String String
  unfolding ts_type
  declarations end = ok ""
  declarations (member name definition ms) = ts_type definition 0 >>= λ t.
      declarations ms >>= λ rest.
      ok (format ("export type " ∷ type_name name ∷ " = " ∷ t ∷ ";\n\n" ∷ rest ∷ []))

  with_definitions : Json → String → Option Json → Result String String
  unfolding declarations
  with_definitions schema contract_hash (some (obj definitions)) =
      declarations definitions >>= λ types. ts_type schema 0 >>= λ root. ok (
        format (
          "/* This file is generated by aio-dsh-protocol. Do not edit. */\n\nexport const CONTRACT_HASH = \""
          ∷ contract_hash
          ∷ "\";\n\n"
          ∷ types
          ∷ "export type "
          ∷ type_name (unwrap_or (as_text (get schema "title")) "ProtocolSchema")
          ∷ " = "
          ∷ root
          ∷ ";\n"
          ∷ []))
  with_definitions schema contract_hash _ = err "protocol schema is missing $defs"

  unfoldable pub typescript_declarations : Json → String → Result String String
  unfolding with_definitions
  typescript_declarations schema contract_hash =
      with_definitions schema contract_hash (get schema "$defs")
