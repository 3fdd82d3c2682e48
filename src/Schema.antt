-- ===== src/Schema.antt =====
-- server.go: the schemas of a request's tools, which `normalizeToolSchemas` brings into the form that
-- the upstream accepts. A nil map is an empty one; where the code changes a map that it has just made,
-- the definition returns the changed one.
pub mod Values
pub mod Tidy
pub mod Clean
pub mod Nulls
pub mod Depth
pub mod Refs
mod Tests
use freebuff2api.Base.{
  ℕ, zero, suc, ◌+◌, Bool, true, false, ◌&&◌, ◌||◌, not, Option, none, some, List, [], ◌∷◌, ◌++◌,
  if◌then◌else◌, ◌==◌, Text, codes, text_eq, trim_space,
}
use freebuff2api.TextSearch.{has_prefix, trim_prefix, contains_string}
use freebuff2api.Json.{
  Json, null, bool, num, str, arr, obj, Items, nil, cons, Fields, end, field, get_field, drop_field,
  set_field, set_all, field_count, map_fields, map_items,
}
use freebuff2api.Schema.Values.{clone_map, clone_slice, enum_key}

abbrev pub definitions_key : Text
definitions_key = codes "definitions"

abbrev pub defs_key : Text
defs_key = codes "$defs"

abbrev pub nullable_key : Text
nullable_key = codes "nullable"

abbrev pub type_key : Text
type_key = codes "type"

abbrev pub enum_key_name : Text
enum_key_name = codes "enum"

abbrev pub const_key : Text
const_key = codes "const"

abbrev pub ref_key : Text
ref_key = codes "$ref"

abbrev pub null_name : Text
null_name = codes "null"

-- `v.(map[string]any)`, an empty map if it is none.
abbrev pub as_map : Option Json → Fields
as_map (some (obj f)) = f
as_map _ = end

-- `v.([]any)`
unfoldable pub as_list : Option Json → Option Items
as_list (some (arr xs)) = some xs
as_list _ = none

-- `v.(string)`
unfoldable pub as_text : Option Json → Option Text
as_text (some (str t)) = some t
as_text _ = none

-- `extractDefinitions`
unfoldable pub extract_definitions : Fields → Fields
extract_definitions schema =
    set_all (set_all end (as_map (get_field definitions_key schema)))
      (as_map (get_field defs_key schema))

-- `mergeDefinitions`
unfoldable pub merge_definitions : Fields → Fields → Fields
merge_definitions parent local =
    if field_count parent == 0
    then local
    else if field_count local == 0
    then parent
    else set_all (set_all end parent) local

-- `isNullSchema`
abbrev pub is_null_name : Option Json → Bool
is_null_name (some (str t)) = text_eq t null_name
is_null_name _ = false

abbrev pub is_nil : Option Json → Bool
is_nil (some null) = true
is_nil _ = false

abbrev pub is_only_nil : Option Json → Bool
is_only_nil (some (arr (cons null nil))) = true
is_only_nil _ = false

unfoldable pub is_null_schema : Fields → Bool
is_null_schema schema =
    if is_null_name (get_field type_key schema)
    then true
    else if is_nil (get_field const_key schema)
    then true
    else is_only_nil (get_field enum_key_name schema)

-- The options that `simplifyNullableCombinator` keeps.
abbrev pub is_null_option : Json → Bool
is_null_option (obj f) = is_null_schema f
is_null_option _ = false

unfoldable pub real_options : Items → Items
real_options nil = nil
real_options (cons v xs) =
    let rest = real_options xs in if is_null_option v then rest else cons v rest

unfoldable pub with_options : Fields → Text → Items → Fields
with_options schema key nil = drop_field key schema
with_options schema key (cons (obj option) nil) = set_all (drop_field key schema) option
with_options schema key options = set_field key (arr options) schema

-- `simplifyNullableCombinator`
unfoldable pub simplify_nullable_combinator : Fields → Text → Fields
simplify_nullable_combinator schema key = elim (as_list (get_field key schema)) [
  | none ↦ schema
  | some options ↦ with_options schema key (real_options options)
]

-- The type names of `normalizeTypeField` that are not "null".
unfoldable pub real_types : Items → List Text
real_types nil = []
real_types (cons (str t) xs) =
    let rest = real_types xs in
    if text_eq t null_name || text_eq (trim_space t) [] then rest else t ∷ rest
real_types (cons v xs) = real_types xs

unfoldable pub with_type : Fields → List Text → Fields
with_type schema [] = drop_field type_key schema
with_type schema (t ∷ rest) = set_field type_key (str t) schema

-- `normalizeTypeField`
unfoldable pub normalize_type_field : Fields → Fields
normalize_type_field schema = elim (as_list (get_field type_key schema)) [
  | none ↦ schema
  | some types ↦ with_type schema (real_types types)
]

-- The loop of `normalizeEnumField`, with the keys seen so far.
unfoldable pub real_values : List Text → Items → Items
real_values seen nil = nil
real_values seen (cons null xs) = real_values seen xs
real_values seen (cons v xs) =
    let known = real_values seen xs in
    let new = real_values (enum_key v ∷ seen) xs in
    if contains_string seen (enum_key v) then known else cons v new

unfoldable pub with_enum : Fields → Items → Fields
with_enum schema nil = drop_field enum_key_name schema
with_enum schema values = set_field enum_key_name (arr values) schema

-- `normalizeEnumField`
unfoldable pub normalize_enum_field : Fields → Fields
normalize_enum_field schema = elim (as_list (get_field enum_key_name schema)) [
  | none ↦ schema
  | some values ↦ with_enum schema (real_values [] values)
]

-- `normalizeConstField`
unfoldable pub normalize_const_field : Fields → Fields
normalize_const_field schema =
    if is_nil (get_field const_key schema) then drop_field const_key schema else schema

-- The name that a reference in the document gives; empty if it gives none.
unfoldable pub ref_name : Text → Text
ref_name ref =
    if has_prefix ref (codes "#/definitions/")
    then trim_prefix ref (codes "#/definitions/")
    else if has_prefix ref (codes "#/$defs/")
    then trim_prefix ref (codes "#/$defs/")
    else []

abbrev pub definition_copy : Option Json → Json
definition_copy none = null
definition_copy (some (obj f)) = obj (clone_map f)
definition_copy (some v) = v

-- `tryResolveRef`; nil, where nothing is resolved, is `null`, as is a definition that is null.
unfoldable pub try_resolve_ref : Fields → Fields → Json
try_resolve_ref node defs = elim (as_text (get_field ref_key node)) [
  | none ↦ null
  | some ref ↦
      if not (field_count node == 1)
      then null
      else if text_eq (ref_name ref) []
      then null
      else definition_copy (get_field (ref_name ref) defs)
]

-- What `normalizeSchemaMap` does once the values are normalised.
unfoldable pub drop_definitions : Fields → Fields
drop_definitions f = drop_field nullable_key (drop_field defs_key (drop_field definitions_key f))

unfoldable pub tidy : Fields → Fields
tidy f = normalize_const_field (
    normalize_enum_field (
      normalize_type_field (
        simplify_nullable_combinator
          (simplify_nullable_combinator (drop_definitions f) (codes "anyOf")) (codes "oneOf"))))

-- `normalizeSchemaValue`, by what it calls on a map and on a slice.
unfoldable pub value_with : (Fields → Fields) → (Items → Items) → Json → Json
value_with on_map on_slice (obj f) = obj (on_map f)
value_with on_map on_slice (arr xs) = arr (on_slice xs)
value_with on_map on_slice v = v

-- How `normalizeSchemaMap` goes on once the reference, if any, is resolved: with the map referred to,
-- with the map itself, or with a copy.
unfoldable pub by_reference : (Fields → Fields) → Fields → Fields → Json → Fields
by_reference follow own node (obj replaced) = follow replaced
by_reference follow own node null = own
by_reference follow own node _ = clone_map node

-- `normalizeSchemaMap` and `normalizeSchemaSlice`, with `maxDepth` as fuel.
unfoldable mutual
  pub schema_map : ℕ → Fields → Fields → Fields
  schema_map zero defs node = clone_map node
  schema_map (suc n) defs node =
      let defs = merge_definitions defs (extract_definitions node) in
      by_reference (schema_map n defs)
        (tidy (map_fields (value_with (schema_map n defs) (schema_slice n defs)) node)) node
        (try_resolve_ref node defs)

  pub schema_slice : ℕ → Fields → Items → Items
  schema_slice zero defs slice = clone_slice slice
  schema_slice (suc n) defs slice =
      map_items (value_with (schema_map n defs) (schema_slice n defs)) slice

-- `normalizeSchemaValue`
unfoldable pub schema_value : ℕ → Fields → Json → Json
schema_value n defs v = value_with (schema_map n defs) (schema_slice n defs) v

abbrev pub top_depth : ℕ
top_depth = 12

abbrev with_parameters : Fields → Option Json → Json
with_parameters fn (some (obj params)) = obj (
    set_field (codes "parameters") (obj (schema_map top_depth (extract_definitions params) params))
      fn)
with_parameters fn _ = obj fn

abbrev with_function : Fields → Option Json → Json
with_function tool (some (obj fn)) =
    obj (set_field (codes "function") (with_parameters fn (get_field (codes "parameters") fn)) tool)
with_function tool _ = obj tool

unfoldable pub normalize_tool : Json → Json
normalize_tool (obj tool) = with_function tool (get_field (codes "function") tool)
normalize_tool v = v

-- `normalizeToolSchemas`
unfoldable pub normalize_tool_schemas : Items → Items
normalize_tool_schemas tools = map_items normalize_tool tools
