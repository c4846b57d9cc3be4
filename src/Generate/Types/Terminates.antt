-- ===== src/Generate/Types/Terminates.antt =====
-- The recursion of `ts_type` ends: its fuel is enough for every schema.
use aiohub_plugin_dsh_worksp.Prelude.{
  ℕ, zero, suc, ◌+◌, ◌≤◌, ◌<◌, String, true, false, Option, none, some, unwrap_or, is_some, ◌||◌,
  List, [], ◌∷◌, Result, ok, err, ◌>>=◌, ◌≡◌, refl, ap, ◌∙◌, arith, str_eq,
}
use aiohub_plugin_dsh_worksp.Prelude.Text.{format}
use aiohub_plugin_dsh_worksp.Json.{
  Json, Items, Members, null, bool, uint, number, str, arr, obj, nil, cons, end, member, find,
}
use aiohub_plugin_dsh_worksp.Generate.Names.{
  as_array, as_object, as_text, join_schema_types, required_names, collect_results, strip_prefix,
}
use aiohub_plugin_dsh_worksp.Generate.Types.{
  RenderEnv, size, item_sizes, sizes, variants, kinds, properties, additional, ts_object, of_kind,
  of_type, combined, of_object, ts_node, ts_type_on, ts_type, braces, literals, ts_literal,
  reference_type,
}
use aiohub_plugin_dsh_worksp.Generate.Types.Fits.{
  Fits, ItemsFit, find-Fits, as_array-Fits, as_object-Fits,
}

-- Two functions for the calls that agree on what has fewer nodes give the same.
module _ ⦃env : RenderEnv⦄ (f g : Json → ℕ → Result String String) (d : ℕ)
    (same : (v : Json) → size v < d → (i : ℕ) → f v i ≡ g v i) where
  open env use {debug_text}

  variants_same : (vs : Items) (i : ℕ) → item_sizes vs < d → variants f vs i ≡ variants g vs i
  unfolding variants
  variants_same nil i h = refl
  variants_same (cons v vs) i h =
      rw (same v (omega (arith, h)) i, variants_same vs i (omega (arith, h)))

  kinds_same : (vs : Items) (i : ℕ) → suc (item_sizes vs) < d → kinds f vs i ≡ kinds g vs i
  unfolding kinds
  kinds_same nil i h = refl
  kinds_same (cons v vs) i h =
      rw (same (obj (member "type" v end)) (omega (arith, h)) i, kinds_same vs i (omega (arith, h)))

  properties_same :
      (required : List String) (ms : Members) (i : ℕ)
      → sizes ms < d
      → properties f required ms i ≡ properties g required ms i
  unfolding properties
  properties_same required end i h = refl
  properties_same required (member n v ms) i h =
      rw (same v (omega (arith, h)) i, properties_same required ms i (omega (arith, h)))

  additional_same :
      (o : Option Json) (n : ℕ) (ms : List String) (i : ℕ)
      → n < d
      → Fits o n
      → additional f o ms i ≡ additional g o ms i
  unfolding additional
  additional_same none n [] i h k = refl
  additional_same none n (m ∷ ms) i h k = refl
  additional_same (some (bool true)) n ms i h k = refl
  additional_same (some (bool false)) n ms i h k = refl
  additional_same (some null) n ms i h k = rw (same null (omega (arith, h, k)) i)
  additional_same (some (uint v)) n ms i h k = rw (same (uint v) (omega (arith, h, k)) i)
  additional_same (some (number v)) n ms i h k = rw (same (number v) (omega (arith, h, k)) i)
  additional_same (some (str v)) n ms i h k = rw (same (str v) (omega (arith, h, k)) i)
  additional_same (some (arr v)) n ms i h k = rw (same (arr v) (omega (arith, h, k)) i)
  additional_same (some (obj v)) n ms i h k = rw (same (obj v) (omega (arith, h, k)) i)

  then_same :
      {A B : Type 0} (r : Result String A) (p q : A → Result String B)
      → ((a : A) → p a ≡ q a)
      → (r >>= p) ≡ (r >>= q)
  then_same (ok a) p q h = h a
  then_same (err e) p q h = refl

  ts_object_same : (ms : Members) (i : ℕ) → sizes ms < d → ts_object f ms i ≡ ts_object g ms i
  unfolding ts_object
  ts_object_same ms i h =
      ap (λ rs. collect_results rs >>= rest f)
        (properties_same (required_names (as_array (find "required" ms)))
          (as_object (find "properties" ms)) (i + 2)
          (omega (
            arith,
            h,
            as_object-Fits (find "properties" ms) (sizes ms) (find-Fits "properties" ms),
          )))
      ∙ then_same
          (collect_results (
            properties g (required_names (as_array (find "required" ms)))
              (as_object (find "properties" ms)) (i + 2)))
          (rest f) (rest g)
          (λ members.
            ap (λ r. r >>= λ all. ok (braces i all))
              (additional_same (find "additionalProperties" ms) (sizes ms) members (i + 2) h
                (find-Fits "additionalProperties" ms)))
    where
      rest : (Json → ℕ → Result String String) → List String → Result String String
      rest k members =
          additional k (find "additionalProperties" ms) members (i + 2) >>= λ all. ok (braces i all)

  of_kind_same :
      (kind : String) (ms : Members) (i : ℕ)
      → suc (sizes ms) ≤ d
      → 1 ≤ sizes ms
      → of_kind f kind ms i ≡ of_kind g kind ms i
  unfolding of_kind
  of_kind_same kind ms i h k =
      ap (shape (ts_object f ms i)) (
        same (unwrap_or (find "items" ms) (bool true))
          (fits (find "items" ms) (find-Fits "items" ms)) i)
      ∙ ap (λ t. shape t (g (unwrap_or (find "items" ms) (bool true)) i))
          (ts_object_same ms i (omega (arith, h)))
    where
      fits : (o : Option Json) → Fits o (sizes ms) → size (unwrap_or o (bool true)) < d
      fits none e = omega (arith, h, k)
      fits (some v) e = omega (arith, h, e)

      shape : Result String String → Result String String → Result String String
      shape object item = elim (str_eq kind "null" || str_eq kind "boolean") [
        | true ↦ ok kind
        | false ↦ elim (str_eq kind "integer" || str_eq kind "number") [
          | true ↦ ok "number"
          | false ↦ elim (str_eq kind "string") [
            | true ↦ ok "string"
            | false ↦ elim (str_eq kind "array") [
              | true ↦ item >>= λ t. ok (format ("Array<" ∷ t ∷ ">" ∷ []))
              | false ↦ elim (str_eq kind "object") [
                | true ↦ object
                | false ↦ err (format ("unsupported JSON Schema type " ∷ debug_text kind ∷ []))
              ]
            ]
          ]
        ]
      ]

  of_type_same :
      (o : Option Json) (ms : Members) (i : ℕ)
      → suc (sizes ms) ≤ d
      → Fits o (sizes ms)
      → of_type f o ms i ≡ of_type g o ms i
  unfolding of_type
  of_type_same none ms i h k =
      ap
        (λ (t : Result String String).
          elim (is_some (find "properties" ms) || is_some (find "additionalProperties" ms)) [
            | true ↦ t
            | false ↦ ok "unknown"
          ])
        (ts_object_same ms i (omega (arith, h)))
  of_type_same (some (arr types)) ms i h k =
      ap (λ rs. join_schema_types rs " | ") (kinds_same types i (omega (arith, h, k)))
  of_type_same (some (str kind)) ms i h k = of_kind_same kind ms i h k
  of_type_same (some null) ms i h k = refl
  of_type_same (some (bool b)) ms i h k = refl
  of_type_same (some (uint n)) ms i h k = refl
  of_type_same (some (number n)) ms i h k = refl
  of_type_same (some (obj m)) ms i h k = refl

  combined_same :
      (o : Option Items) (n : ℕ) (separator : String) (i : ℕ) (r s : Result String String)
      → n < d
      → ItemsFit o n
      → r ≡ s
      → combined f o separator i r ≡ combined g o separator i s
  unfolding combined
  combined_same none n separator i r s h k e = e
  combined_same (some vs) n separator i r s h k e =
      ap (λ rs. join_schema_types rs separator) (variants_same vs i (omega (arith, h, k)))

  of_object_same : (ms : Members) (i : ℕ) → suc (sizes ms) ≤ d → of_object f ms i ≡ of_object g ms i
  unfolding of_object
  of_object_same ms i h = ap shape (
      keyword "oneOf" " | " _ _ (
        keyword "anyOf" " | " _ _
          (keyword "allOf" " & " _ _ (of_type_same (find "type" ms) ms i h (find-Fits "type" ms)))))
    where
      shape : Result String String → Result String String
      shape t = elim (as_text (find "$ref" ms)) [
        | some reference ↦ reference_type reference (strip_prefix "#/$defs/" reference)
        | none ↦ elim (find "const" ms) [
          | some value ↦ ts_literal value
          | none ↦ elim (as_array (find "enum" ms)) [
            | some values ↦ join_schema_types (literals values) " | "
            | none ↦ t
          ]
        ]
      ]

      keyword :
          (k separator : String) (r s : Result String String)
          → r ≡ s
          → combined f (as_array (find k ms)) separator i r
            ≡ combined g (as_array (find k ms)) separator i s
      keyword k separator r s e =
          combined_same (as_array (find k ms)) (sizes ms) separator i r s (omega (arith, h))
            (as_array-Fits (find k ms) (sizes ms) (find-Fits k ms)) e

  ts_node_same : (v : Json) (i : ℕ) → size v ≤ d → ts_node f v i ≡ ts_node g v i
  unfolding ts_node
  ts_node_same (obj ms) i h = of_object_same ms i h
  ts_node_same (bool true) i h = refl
  ts_node_same (bool false) i h = refl
  ts_node_same null i h = refl
  ts_node_same (uint n) i h = refl
  ts_node_same (number n) i h = refl
  ts_node_same (str s) i h = refl
  ts_node_same (arr vs) i h = refl

module _ ⦃env : RenderEnv⦄ where
  -- Any fuel above the number of nodes gives the same, whatever stands for its end.
  fuel_enough :
      (stop halt : Result String String) (m n : ℕ) (v : Json) (i : ℕ)
      → size v < m
      → size v < n
      → ts_type_on stop m v i ≡ ts_type_on halt n v i
  unfolding ts_type_on
  fuel_enough stop halt zero n v i h k = absurd (omega (arith, h))
  fuel_enough stop halt (suc m) zero v i h k = absurd (omega (arith, k))
  fuel_enough stop halt (suc m) (suc n) v i h k =
      ts_node_same (ts_type_on stop m) (ts_type_on halt n) (size v)
        (λ w e j. fuel_enough stop halt m n w j (omega (arith, h, e)) (omega (arith, k, e))) v i
        (omega arith)

  pub ts_type_solves : (v : Json) (i : ℕ) → ts_type v i ≡ ts_node ts_type v i
  unfolding ts_type
  ts_type_solves v i =
      ts_node_same (ts_type_on stop (size v)) ts_type (size v)
        (λ w e j. fuel_enough stop stop (size v) (suc (size w)) w j e (omega arith)) v i
        (omega arith)
    where
      stop : Result String String
      stop = err "out of fuel"

  -- Every function that satisfies the equation of the code is `ts_type`.
  solution_same :
      (f : Json → ℕ → Result String String)
      → ((v : Json) (i : ℕ) → f v i ≡ ts_node f v i)
      → (n : ℕ) (v : Json) (i : ℕ) → size v < n
      → f v i ≡ ts_type_on (err "out of fuel") n v i
  unfolding ts_type_on
  solution_same f solves zero v i h = absurd (omega (arith, h))
  solution_same f solves (suc n) v i h =
      solves v i
      ∙ ts_node_same f (ts_type_on (err "out of fuel") n) (size v)
          (λ w e j. solution_same f solves n w j (omega (arith, h, e))) v i (omega arith)

  -- The recursion of `ts_type` ends on every schema. With more fuel than the schema has nodes the
  -- result is that of `ts_type`, whatever answer stands for the end of the fuel: that answer is never
  -- reached. And `ts_type` is the one function that satisfies the recursive equation of the code: it
  -- satisfies it, and every function that does gives what it gives.
  pub ts_type_terminates :
      (stop : Result String String) (fuel : ℕ) (schema : Json) (indent : ℕ)
      (f : Json → ℕ → Result String String)
      → size schema < fuel
      → ((v : Json) (i : ℕ) → f v i ≡ ts_node f v i)
      → (ts_type_on stop fuel schema indent ≡ ts_type schema indent)
        × (ts_type schema indent ≡ ts_node ts_type schema indent)
        × (f schema indent ≡ ts_type schema indent)
  unfolding ts_type
  ts_type_terminates stop fuel schema indent f h solves = (
    fuel_enough stop (err "out of fuel") fuel (suc (size schema)) schema indent h (omega arith),
    ts_type_solves schema indent,
    solution_same f solves (suc (size schema)) schema indent (omega arith),
  )
