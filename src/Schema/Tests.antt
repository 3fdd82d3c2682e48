-- ===== src/Schema/Tests.antt =====
-- Schemas at concrete inputs.
use freebuff2api.Base.{◌≡◌, refl, inr, true, some, ◌++◌, Text, codes, text_eq, trim_space, arith}
use freebuff2api.TextSearch.{has_prefix, drop_prefix, trim_prefix, contains_string}
use freebuff2api.Json.{
  null, bool, str, arr, obj, nil, cons, Fields, end, field, get_field, drop_field, set_field,
  set_all, field_count, map_fields, map_items,
}
use freebuff2api.Schema.{
  as_text, by_reference, defs_key, ref_name, nullable_key, type_key, enum_key_name, const_key,
  is_null_name, is_null_schema, schema_map, top_depth, extract_definitions, merge_definitions,
  try_resolve_ref, tidy, drop_definitions, simplify_nullable_combinator, as_list, real_options,
  with_options, normalize_type_field, real_types, with_type, normalize_enum_field, real_values,
  with_enum, normalize_const_field, value_with,
}
use freebuff2api.Schema.Values.{clone_value, enum_key, type_name, printed}
use freebuff2api.Schema.Tidy.{all_tidy}
use freebuff2api.Schema.Depth.{
  is_within, passes_by_reference, every_field, every_item, value_passes, schema_map-all_tidy,
}
use freebuff2api.Schema.Nulls.{is_null_schema-normalized}
use freebuff2api.Schema.Refs.{defs_path, reference, schema_map-reference}

-- {"type": ["string", "null"], "nullable": true, "enum": ["a", null, "a"]}
abbrev optional_text : Fields
optional_text = field type_key (arr (cons (str (codes "string")) (cons (str (codes "null")) nil))) (
    field nullable_key (bool true) (
      field enum_key_name (arr (cons (str (codes "a")) (cons null (cons (str (codes "a")) nil))))
        end))

-- {"properties": {"name": {"anyOf": [<the above>, {"type": "null"}]}}}
abbrev parameters : Fields
parameters =
    field (codes "properties")
      (obj (
        field (codes "name")
          (obj (
            field (codes "anyOf")
              (arr (
                cons (obj optional_text)
                  (cons (obj (field type_key (str (codes "null")) end)) nil)))
              end))
          end))
      end

-- {"properties": {"name": {"type": "string", "enum": ["a"]}}}
parameters_test :
    schema_map top_depth end parameters
    ≡ field
        (codes "properties")
        (obj (
          field
            (codes "name")
            (obj (
              field enum_key_name
                (arr (cons (str (codes "a")) nil))
                (field type_key (str (codes "string")) end)))
            end))
        end
unfolding schema_map by_reference extract_definitions merge_definitions try_resolve_ref as_text tidy
    drop_definitions simplify_nullable_combinator as_list real_options with_options
    normalize_type_field real_types with_type normalize_enum_field real_values with_enum
    normalize_const_field value_with get_field drop_field set_field set_all field_count map_fields
    map_items text_eq trim_space is_null_schema contains_string enum_key type_name printed
parameters_test = refl

abbrev node_name : Text
node_name = codes "Node"

-- {"$defs": {"Node": <the first>}, "properties": {"next": {"$ref": "#/$defs/Node"}}}
abbrev with_reference : Fields
with_reference = field defs_key (obj (field node_name (obj optional_text) end)) (
    field (codes "properties")
      (obj (field (codes "next") (obj (reference (defs_path ++ node_name))) end)) end)

within : is_within top_depth end with_reference ≡ true
unfolding is_within passes_by_reference every_field every_item value_passes try_resolve_ref as_text
    ref_name has_prefix drop_prefix trim_prefix clone_value extract_definitions merge_definitions
    get_field drop_field set_field set_all field_count text_eq
within = refl

schema_map-all_tidy_example : all_tidy (obj (schema_map top_depth end with_reference)) ≡ true
schema_map-all_tidy_example = schema_map-all_tidy top_depth end with_reference within

-- {"const": null}
abbrev null_const : Fields
null_const = field const_key null end

null_const_within : is_within top_depth end null_const ≡ true
unfolding is_within passes_by_reference every_field value_passes try_resolve_ref as_text
    extract_definitions merge_definitions get_field set_all field_count text_eq
null_const_within = refl

is_null_schema-normalized_example :
    is_null_schema (schema_map top_depth end null_const)
    ≡ is_null_name (get_field type_key (schema_map top_depth end null_const))
is_null_schema-normalized_example =
    is_null_schema-normalized top_depth end null_const null_const_within

null_const_test : is_null_schema null_const ≡ true
unfolding is_null_schema get_field text_eq
null_const_test = refl

abbrev scope : Fields
scope = field node_name (obj optional_text) end

node_found : get_field node_name scope ≡ some (obj optional_text)
unfolding get_field text_eq
node_found = refl

schema_map-reference_example :
    schema_map top_depth scope (reference (defs_path ++ node_name))
    ≡ schema_map 11 scope optional_text
schema_map-reference_example =
    schema_map-reference 11 defs_path node_name scope optional_text (inr refl) (λ e. ground arith)
      node_found
