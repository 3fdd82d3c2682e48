-- ===== src/Schema/Depth.antt =====
-- server.go: `normalizeSchemaMap` reaches the bottom of a schema, along its references, if `maxDepth` is
-- enough for it.
use freebuff2api.Base.{
  ℕ, zero, suc, ◌≡◌, ◌≢◌, refl, subst, sym, inl, inr, Bool, true, false, ◌&&◌, none, some, ◌==◌,
  ◌⊎◌, Text, text_eq, text_eq_iff, arith, Bool-cases,
}
use freebuff2api.Json.{
  Json, null, bool, num, str, arr, obj, Items, nil, cons, Fields, end, field, get_field, map_fields,
  map_items, field_count,
}
use freebuff2api.Schema.{
  ref_key, as_text, value_with, by_reference, schema_map, schema_slice, try_resolve_ref,
  merge_definitions, extract_definitions,
}
use freebuff2api.Schema.Values.{clone_map-same}
use freebuff2api.Schema.Tidy.{all_tidy, items_tidy, fields_tidy, is_tidy, is_self_contained}
use freebuff2api.Schema.Clean.{tidy-all_tidy}

-- Every value of a map, and every entry of a slice, passes a test.
unfoldable pub every_field : (Json → Bool) → Fields → Bool
every_field p end = true
every_field p (field k v f) = p v && every_field p f

unfoldable pub every_item : (Json → Bool) → Items → Bool
every_item p nil = true
every_item p (cons v xs) = p v && every_item p xs

unfoldable pub value_passes : (Fields → Bool) → (Items → Bool) → Json → Bool
value_passes on_map on_slice (obj f) = on_map f
value_passes on_map on_slice (arr xs) = on_slice xs
value_passes on_map on_slice v = true

unfoldable pub passes_by_reference : (Fields → Bool) → Bool → Json → Bool
passes_by_reference follow own (obj replaced) = follow replaced
passes_by_reference follow own null = own
passes_by_reference follow own _ = true

-- The depth is not used up at any map or slice that is reached, those that references lead to
-- included.
unfoldable mutual
  pub is_within : ℕ → Fields → Fields → Bool
  is_within zero defs node = false
  is_within (suc n) defs node =
      let defs = merge_definitions defs (extract_definitions node) in
      passes_by_reference (is_within n defs)
        (every_field (value_passes (is_within n defs) (is_within_slice n defs)) node)
        (try_resolve_ref node defs)

  pub is_within_slice : ℕ → Fields → Items → Bool
  is_within_slice zero defs slice = false
  is_within_slice (suc n) defs slice =
      every_item (value_passes (is_within n defs) (is_within_slice n defs)) slice

module _ (h : Json → Json) (p : Json → Bool)
    (ih : (v : Json) → p v ≡ true → all_tidy (h v) ≡ true) where
  fields_tidy-map_fields :
      (f : Fields) → every_field p f ≡ true → fields_tidy (map_fields h f) ≡ true
  unfolding map_fields all_tidy every_field
  fields_tidy-map_fields end d = refl
  fields_tidy-map_fields (field k v f) d = ground (arith, ih v, fields_tidy-map_fields f)

  items_tidy-map_items : (xs : Items) → every_item p xs ≡ true → items_tidy (map_items h xs) ≡ true
  unfolding map_items all_tidy every_item
  items_tidy-map_items nil d = refl
  items_tidy-map_items (cons v xs) d = ground (arith, ih v, items_tidy-map_items xs)

module _ (on_map : Fields → Fields) (on_slice : Items → Items) (in_map : Fields → Bool)
    (in_slice : Items → Bool)
    (for_map : (f : Fields) → in_map f ≡ true → all_tidy (obj (on_map f)) ≡ true)
    (for_slice : (xs : Items) → in_slice xs ≡ true → items_tidy (on_slice xs) ≡ true) where
  value_with-tidy :
      (v : Json)
      → value_passes in_map in_slice v ≡ true
      → all_tidy (value_with on_map on_slice v) ≡ true
  unfolding value_with value_passes
  value_with-tidy null d = unfold all_tidy in refl
  value_with-tidy (bool b) d = unfold all_tidy in refl
  value_with-tidy (num t) d = unfold all_tidy in refl
  value_with-tidy (str t) d = unfold all_tidy in refl
  value_with-tidy (arr xs) d = unfold all_tidy in for_slice xs d
  value_with-tidy (obj f) d = for_map f d

try_resolve_ref-absent :
    (node defs : Fields)
    → as_text (get_field ref_key node) ≡ none
    → try_resolve_ref node defs ≡ null
unfolding try_resolve_ref
try_resolve_ref-absent node defs h = rw (h, try_resolve_ref) refl

try_resolve_ref-long :
    (node defs : Fields) → (field_count node == 1) ≡ false → try_resolve_ref node defs ≡ null
unfolding try_resolve_ref
try_resolve_ref-long node defs h = ground arith

text_only-tidy : (v : Json) → as_text (some v) ≢ none → all_tidy (obj (field ref_key v end)) ≡ true
unfolding as_text all_tidy is_tidy is_self_contained get_field text_eq
text_only-tidy null h = absurd (h refl)
text_only-tidy (bool b) h = absurd (h refl)
text_only-tidy (num t) h = absurd (h refl)
text_only-tidy (str t) h = refl
text_only-tidy (arr xs) h = absurd (h refl)
text_only-tidy (obj f) h = absurd (h refl)

reference_field-tidy :
    (k : Text) (v : Json) (defs : Fields)
    → (text_eq k ref_key ≡ true) ⊎ (text_eq k ref_key ≡ false)
    → try_resolve_ref (field k v end) defs ≢ null
    → all_tidy (obj (field k v end)) ≡ true
reference_field-tidy k v defs (inl same) h =
    subst (λ j. all_tidy (obj (field j v end)) ≡ true) (sym ((text_eq_iff k ref_key).0 same))
      (text_only-tidy v (λ z.
        h (try_resolve_ref-absent (field k v end) defs (unfold get_field in rw (same, z) refl))))
reference_field-tidy k v defs (inr other) h =
    absurd
      (h (try_resolve_ref-absent (field k v end) defs (unfold get_field as_text in rw other refl)))

-- A map that is only a reference is tidy.
lone_reference-tidy :
    (node defs : Fields) → try_resolve_ref node defs ≢ null → all_tidy (obj node) ≡ true
lone_reference-tidy end defs h =
    absurd (h (try_resolve_ref-absent end defs (unfold get_field as_text in refl)))
lone_reference-tidy (field k v end) defs h =
    reference_field-tidy k v defs (Bool-cases (text_eq k ref_key)) h
lone_reference-tidy (field k v (field j w f)) defs h =
    absurd
      (h (try_resolve_ref-long (field k v (field j w f)) defs (unfold field_count in ground arith)))

by_reference-tidy :
    (follow : Fields → Fields) (own node defs : Fields) (in_map : Fields → Bool) (in_own : Bool)
    (r : Json)
    → try_resolve_ref node defs ≡ r
    → ((f : Fields) → in_map f ≡ true → all_tidy (obj (follow f)) ≡ true)
    → (in_own ≡ true → all_tidy (obj own) ≡ true)
    → passes_by_reference in_map in_own r ≡ true
    → all_tidy (obj (by_reference follow own node r)) ≡ true
unfolding by_reference passes_by_reference
by_reference-tidy follow own node defs in_map in_own (obj f) e for_map for_own d = for_map f d
by_reference-tidy follow own node defs in_map in_own null e for_map for_own d = for_own d
by_reference-tidy follow own node defs in_map in_own (bool b) e for_map for_own d =
    rw (clone_map-same node) (lone_reference-tidy node defs (λ z. ground arith))
by_reference-tidy follow own node defs in_map in_own (num t) e for_map for_own d =
    rw (clone_map-same node) (lone_reference-tidy node defs (λ z. ground arith))
by_reference-tidy follow own node defs in_map in_own (str t) e for_map for_own d =
    rw (clone_map-same node) (lone_reference-tidy node defs (λ z. ground arith))
by_reference-tidy follow own node defs in_map in_own (arr xs) e for_map for_own d =
    rw (clone_map-same node) (lone_reference-tidy node defs (λ z. ground arith))

mutual
  unfolding schema_map is_within

  schema_map-tidy :
      (n : ℕ) (defs node : Fields)
      → is_within n defs node ≡ true
      → all_tidy (obj (schema_map n defs node)) ≡ true
  schema_map-tidy zero defs node d = ground arith
  schema_map-tidy (suc n) defs node d =
      by_reference-tidy _ _ node (merge_definitions defs (extract_definitions node))
        (is_within n (merge_definitions defs (extract_definitions node))) _ _ refl
        (schema_map-tidy n (merge_definitions defs (extract_definitions node)))
        (λ own. tidy-all_tidy _ (
          fields_tidy-map_fields _ _
            (value_with-tidy _ _ _ _
              (schema_map-tidy n (merge_definitions defs (extract_definitions node)))
              (schema_slice-tidy n (merge_definitions defs (extract_definitions node))))
            node own))
        d

  schema_slice-tidy :
      (n : ℕ) (defs : Fields) (xs : Items)
      → is_within_slice n defs xs ≡ true
      → items_tidy (schema_slice n defs xs) ≡ true
  schema_slice-tidy zero defs xs d = ground arith
  schema_slice-tidy (suc n) defs xs d =
      items_tidy-map_items _ _
        (value_with-tidy _ _ _ _ (schema_map-tidy n defs) (schema_slice-tidy n defs)) xs d

-- If the depth is not used up at any map or slice that is reached, those that references lead to
-- included, then in what `normalizeSchemaMap` makes of a schema every map, those of property names
-- included, has no definitions and no "nullable", no list of types, no null constant, and no
-- enumeration that is empty, or has a null or the same value twice.
pub schema_map-all_tidy :
    (n : ℕ) (defs node : Fields)
    → is_within n defs node ≡ true
    → all_tidy (obj (schema_map n defs node)) ≡ true
schema_map-all_tidy n defs node d = schema_map-tidy n defs node d
