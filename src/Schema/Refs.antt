-- ===== src/Schema/Refs.antt =====
-- server.go: references, which `normalizeSchemaMap` follows.
use freebuff2api.Base.{
  ℕ, suc, ◌≡◌, ◌≢◌, ◌∙◌, ap, refl, true, false, ◌⊎◌, inl, inr, some, [], ◌∷◌, ◌++◌, Text, codes,
  text_eq, text_eq_iff, arith,
}
use freebuff2api.TextSearch.{has_prefix, drop_prefix, trim_prefix}
use freebuff2api.Json.{str, obj, Fields, end, field, get_field, set_all, field_count}
use freebuff2api.Schema.{
  as_text, ref_key, ref_name, try_resolve_ref, extract_definitions, merge_definitions,
  definition_copy, by_reference, schema_map,
}
use freebuff2api.Schema.Values.{clone_map-same}

has_prefix-append : (p s : Text) → has_prefix (p ++ s) p ≡ true
unfolding has_prefix
has_prefix-append [] [] = refl
has_prefix-append [] (a ∷ s) = refl
has_prefix-append (b ∷ p) s = ground (arith, has_prefix-append p s)

drop_prefix-append : (p s : Text) → drop_prefix (p ++ s) p ≡ s
unfolding drop_prefix
drop_prefix-append [] [] = refl
drop_prefix-append [] (a ∷ s) = refl
drop_prefix-append (b ∷ p) s = drop_prefix-append p s

abbrev pub definitions_path : Text
definitions_path = codes "#/definitions/"

abbrev pub defs_path : Text
defs_path = codes "#/$defs/"

trim_prefix-append : (p s : Text) → trim_prefix (p ++ s) p ≡ s
unfolding trim_prefix
trim_prefix-append p s = ground (arith, has_prefix-append p s, drop_prefix-append p s)

other_path : (name : Text) → has_prefix (defs_path ++ name) definitions_path ≡ false
unfolding has_prefix
other_path name = refl

pub ref_name-append :
    (path name : Text)
    → (path ≡ definitions_path) ⊎ (path ≡ defs_path)
    → ref_name (path ++ name) ≡ name
unfolding ref_name
ref_name-append path name (inl e) =
    rw (e, has_prefix-append definitions_path name) (trim_prefix-append definitions_path name)
ref_name-append path name (inr e) =
    rw (e, other_path name, has_prefix-append defs_path name) (trim_prefix-append defs_path name)

abbrev pub reference : Text → Fields
reference ref = field ref_key (str ref) end

extract_definitions-reference : (ref : Text) → extract_definitions (reference ref) ≡ end
unfolding extract_definitions get_field set_all text_eq
extract_definitions-reference ref = refl

merge_definitions-end : (defs : Fields) → merge_definitions defs end ≡ defs
unfolding merge_definitions field_count
merge_definitions-end end = refl
merge_definitions-end (field k v f) = ground arith

scope-reference :
    (ref : Text) (defs : Fields)
    → merge_definitions defs (extract_definitions (reference ref)) ≡ defs
scope-reference ref defs = rw (extract_definitions-reference ref) (merge_definitions-end defs)

try_resolve_ref-found :
    (path name : Text) (defs : Fields)
    → (path ≡ definitions_path) ⊎ (path ≡ defs_path)
    → name ≢ []
    → try_resolve_ref (reference (path ++ name)) defs ≡ definition_copy (get_field name defs)
unfolding try_resolve_ref as_text get_field field_count text_eq
try_resolve_ref-found path name defs p n =
    rw (ref_name-append path name p) (ground (arith, text_eq_iff name []))

try_resolve_ref-target :
    (path name : Text) (defs target : Fields)
    → (path ≡ definitions_path) ⊎ (path ≡ defs_path)
    → name ≢ []
    → get_field name defs ≡ some (obj target)
    → try_resolve_ref (reference (path ++ name)) defs ≡ obj target
try_resolve_ref-target path name defs target p other found =
    try_resolve_ref-found path name defs p other ∙ rw found (ap obj (clone_map-same target))

-- A schema that is only a reference to a definition in scope, by either path, is normalised to what
-- the definition is normalised to, one level deeper, if that is a map.
pub schema_map-reference :
    (n : ℕ) (path name : Text) (defs target : Fields)
    → (path ≡ definitions_path) ⊎ (path ≡ defs_path)
    → name ≢ []
    → get_field name defs ≡ some (obj target)
    → schema_map (suc n) defs (reference (path ++ name)) ≡ schema_map n defs target
unfolding schema_map by_reference
schema_map-reference n path name defs target p other found =
    rw
      (
        schema_map,
        scope-reference (path ++ name) defs,
        try_resolve_ref-target path name defs target p other found,
      )
      refl
