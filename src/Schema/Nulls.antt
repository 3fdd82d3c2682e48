-- ===== src/Schema/Nulls.antt =====
-- server.go: which options `simplifyNullableCombinator` takes for null once they are normalised.
use freebuff2api.Base.{ℕ, ◌≡◌, refl, true, false, Option, none, some, arith}
use freebuff2api.Json.{Json, null, bool, num, str, arr, obj, nil, cons, Fields, get_field}
use freebuff2api.Schema.{
  type_key, enum_key_name, is_null_name, is_only_nil, is_null_schema, schema_map,
}
use freebuff2api.Schema.Tidy.{is_tidy, is_enum, different}
use freebuff2api.Schema.Tidy.{all_tidy}
use freebuff2api.Schema.Depth.{is_within, schema_map-all_tidy}

is_enum-only_nil : (o : Option Json) → is_enum o ≡ true → is_only_nil o ≡ false
unfolding different
is_enum-only_nil none h = refl
is_enum-only_nil (some null) h = refl
is_enum-only_nil (some (bool b)) h = refl
is_enum-only_nil (some (num t)) h = refl
is_enum-only_nil (some (str t)) h = refl
is_enum-only_nil (some (arr nil)) h = refl
is_enum-only_nil (some (arr (cons null nil))) h = absurd (ground arith)
is_enum-only_nil (some (arr (cons null (cons v xs)))) h = refl
is_enum-only_nil (some (arr (cons (bool b) xs))) h = refl
is_enum-only_nil (some (arr (cons (num t) xs))) h = refl
is_enum-only_nil (some (arr (cons (str t) xs))) h = refl
is_enum-only_nil (some (arr (cons (arr ys) xs))) h = refl
is_enum-only_nil (some (arr (cons (obj f) xs))) h = refl
is_enum-only_nil (some (obj f)) h = refl

tidy-null_schema :
    (f : Fields) → all_tidy (obj f) ≡ true → is_null_schema f ≡ is_null_name (get_field type_key f)
unfolding is_null_schema all_tidy is_tidy
tidy-null_schema f h = ground (arith, is_enum-only_nil (get_field enum_key_name f))

-- If the depth is not used up in an option, along its references, then once it is normalised
-- `isNullSchema` takes it for null exactly if its type is the name "null": a null constant, or an
-- enumeration of null alone, is not recognised.
pub is_null_schema-normalized :
    (n : ℕ) (defs option : Fields)
    → is_within n defs option ≡ true
    → is_null_schema (schema_map n defs option)
      ≡ is_null_name (get_field type_key (schema_map n defs option))
is_null_schema-normalized n defs option d =
    tidy-null_schema (schema_map n defs option) (schema_map-all_tidy n defs option d)
