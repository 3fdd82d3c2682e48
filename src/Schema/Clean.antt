-- ===== src/Schema/Clean.antt =====
-- server.go: each step of `normalizeSchemaMap` makes a map tidy, if its values are.
use freebuff2api.Base.{
  ◌≡◌, refl, inl, inr, Bool, true, false, ◌&&◌, not, Option, none, some, List, [], ◌∷◌, Text, codes,
  text_eq, arith, Option-cases,
}
use freebuff2api.Json.{
  Json, null, bool, num, str, arr, obj, Items, nil, cons, Fields, get_field, drop_field,
}
use freebuff2api.Json.Keys.{get_field-drop_field, get_field-set_field}
use freebuff2api.Schema.{
  definitions_key, defs_key, nullable_key, type_key, enum_key_name, const_key, real_options,
  as_list, with_options, with_type, with_enum, simplify_nullable_combinator, real_types,
  normalize_type_field, real_values, normalize_enum_field, normalize_const_field, drop_definitions,
  tidy,
}
use freebuff2api.Schema.Values.{enum_key}
use freebuff2api.Schema.Tidy.{
  all_tidy, items_tidy, fields_tidy, is_list, different, is_enum, is_self_contained, is_tidy,
  fields_tidy-drop_field, fields_tidy-set_field, fields_tidy-set_all, tidy-get_field,
  items_tidy-real_options, self_contained-set_all, self_contained-drop_field, is_other_key,
  self_contained-set_field, drop_definitions-self_contained,
}

-- What the steps keep.
abbrev kept : Fields → Bool
kept f = is_self_contained f && fields_tidy f

kept-with_options :
    (f : Fields) (key : Text) (xs : Items)
    → is_other_key key ≡ true
    → items_tidy xs ≡ true
    → kept f ≡ true
    → kept (with_options f key xs) ≡ true
unfolding with_options all_tidy is_tidy
kept-with_options f key nil o hx h =
    ground (arith, self_contained-drop_field key f, fields_tidy-drop_field key f)
kept-with_options f key (cons (obj g) nil) o hx h = ground (
  arith,
  self_contained-drop_field key f,
  fields_tidy-drop_field key f,
  self_contained-set_all (drop_field key f) g,
  fields_tidy-set_all (drop_field key f) g,
)
kept-with_options f key xs o hx h =
    ground (arith, self_contained-set_field key (arr xs) f, fields_tidy-set_field key (arr xs) f)

pub as_list-some : (o : Option Json) (xs : Items) → as_list o ≡ some xs → o ≡ some (arr xs)
unfolding as_list
as_list-some none xs h = ground arith
as_list-some (some null) xs h = ground arith
as_list-some (some (bool b)) xs h = ground arith
as_list-some (some (num t)) xs h = ground arith
as_list-some (some (str t)) xs h = ground arith
as_list-some (some (arr ys)) xs h = ground arith
as_list-some (some (obj f)) xs h = ground arith

as_list-none : (o : Option Json) → as_list o ≡ none → is_list o ≡ false
unfolding as_list
as_list-none none h = refl
as_list-none (some null) h = refl
as_list-none (some (bool b)) h = refl
as_list-none (some (num t)) h = refl
as_list-none (some (str t)) h = refl
as_list-none (some (arr ys)) h = ground arith
as_list-none (some (obj f)) h = refl

listed-tidy :
    (k : Text) (f : Fields) (xs : Items)
    → fields_tidy f ≡ true
    → as_list (get_field k f) ≡ some xs
    → items_tidy xs ≡ true
unfolding all_tidy
listed-tidy k f xs h e = tidy-get_field k f (arr xs) h (as_list-some (get_field k f) xs e)

kept-simplify :
    (f : Fields) (key : Text)
    → is_other_key key ≡ true
    → kept f ≡ true
    → kept (simplify_nullable_combinator f key) ≡ true
unfolding simplify_nullable_combinator
kept-simplify f key o h = elim (Option-cases (as_list (get_field key f))) [
  | inl other ↦ rw (other, simplify_nullable_combinator) h
  | inr (xs, e) ↦
      rw (e, simplify_nullable_combinator)
        (kept-with_options f key (real_options xs) o
          (items_tidy-real_options xs (listed-tidy key f xs (ground arith) e)) h)
]

fields_tidy-drop_definitions :
    (f : Fields) → fields_tidy f ≡ true → fields_tidy (drop_definitions f) ≡ true
unfolding drop_definitions
fields_tidy-drop_definitions f h =
    fields_tidy-drop_field nullable_key _
      (fields_tidy-drop_field defs_key _ (fields_tidy-drop_field definitions_key f h))

kept-drop_definitions : (f : Fields) → fields_tidy f ≡ true → kept (drop_definitions f) ≡ true
kept-drop_definitions f h =
    ground (arith, drop_definitions-self_contained f, fields_tidy-drop_definitions f h)

-- What a step leaves that `type` asks for.
abbrev typed : Fields → Bool
typed f = kept f && not (is_list (get_field type_key f))

typed-with_type : (f : Fields) (ts : List Text) → kept f ≡ true → typed (with_type f ts) ≡ true
unfolding with_type all_tidy text_eq
typed-with_type f [] h = ground (
  arith,
  self_contained-drop_field type_key f,
  fields_tidy-drop_field type_key f,
  get_field-drop_field type_key type_key f,
)
typed-with_type f (t ∷ ts) h = ground (
  arith,
  self_contained-set_field type_key (str t) f,
  fields_tidy-set_field type_key (str t) f,
  get_field-set_field type_key type_key (str t) f,
)

typed-normalize_type : (f : Fields) → kept f ≡ true → typed (normalize_type_field f) ≡ true
unfolding normalize_type_field
typed-normalize_type f h = elim (Option-cases (as_list (get_field type_key f))) [
  | inl other ↦
      rw (other, normalize_type_field) (ground (arith, as_list-none (get_field type_key f)))
  | inr (xs, e) ↦ rw (e, normalize_type_field) (typed-with_type f (real_types xs) h)
]

real_values-different :
    (seen : List Text) (xs : Items) → different seen (real_values seen xs) ≡ true
unfolding real_values different
real_values-different seen nil = refl
real_values-different seen (cons null xs) = real_values-different seen xs
real_values-different seen (cons v xs) =
    ground (arith, real_values-different seen xs, real_values-different (enum_key v ∷ seen) xs)

items_tidy-real_values :
    (seen : List Text) (xs : Items) → items_tidy xs ≡ true → items_tidy (real_values seen xs) ≡ true
unfolding real_values all_tidy
items_tidy-real_values seen nil h = refl
items_tidy-real_values seen (cons null xs) h = ground (arith, items_tidy-real_values seen xs)
items_tidy-real_values seen (cons v xs) h =
    ground (arith, items_tidy-real_values seen xs, items_tidy-real_values (enum_key v ∷ seen) xs)

abbrev listed : Fields → Bool
listed f = typed f && is_enum (get_field enum_key_name f)

listed-with_enum :
    (f : Fields) (xs : Items)
    → typed f ≡ true
    → items_tidy xs ≡ true
    → different [] xs ≡ true
    → listed (with_enum f xs) ≡ true
unfolding with_enum all_tidy text_eq
listed-with_enum f nil h hx d = ground (
  arith,
  self_contained-drop_field enum_key_name f,
  fields_tidy-drop_field enum_key_name f,
  get_field-drop_field enum_key_name enum_key_name f,
  get_field-drop_field enum_key_name type_key f,
)
listed-with_enum f (cons v xs) h hx d = ground (
  arith,
  self_contained-set_field enum_key_name (arr (cons v xs)) f,
  fields_tidy-set_field enum_key_name (arr (cons v xs)) f,
  get_field-set_field enum_key_name enum_key_name (arr (cons v xs)) f,
  get_field-set_field enum_key_name type_key (arr (cons v xs)) f,
)

is_enum-other : (o : Option Json) → is_list o ≡ false → is_enum o ≡ true
is_enum-other none h = refl
is_enum-other (some null) h = refl
is_enum-other (some (bool b)) h = refl
is_enum-other (some (num t)) h = refl
is_enum-other (some (str t)) h = refl
is_enum-other (some (arr ys)) h = absurd (ground arith)
is_enum-other (some (obj f)) h = refl

listed-normalize_enum : (f : Fields) → typed f ≡ true → listed (normalize_enum_field f) ≡ true
unfolding normalize_enum_field
listed-normalize_enum f h = elim (Option-cases (as_list (get_field enum_key_name f))) [
  | inl other ↦
      rw (other, normalize_enum_field)
        (ground (
          arith,
          as_list-none (get_field enum_key_name f),
          is_enum-other (get_field enum_key_name f),
        ))
  | inr (xs, e) ↦
      rw (e, normalize_enum_field)
        (listed-with_enum f (real_values [] xs) h
          (items_tidy-real_values [] xs (listed-tidy enum_key_name f xs (ground arith) e))
          (real_values-different [] xs))
]

tidy-normalize_const :
    (f : Fields)
    → listed f ≡ true
    → (is_tidy (normalize_const_field f) && fields_tidy (normalize_const_field f)) ≡ true
unfolding normalize_const_field is_tidy text_eq
tidy-normalize_const f h = ground (
  arith,
  self_contained-drop_field const_key f,
  fields_tidy-drop_field const_key f,
  get_field-drop_field const_key const_key f,
  get_field-drop_field const_key type_key f,
  get_field-drop_field const_key enum_key_name f,
)

-- Once the values are tidy, so is the map.
pub tidy-all_tidy : (f : Fields) → fields_tidy f ≡ true → all_tidy (obj (tidy f)) ≡ true
unfolding tidy all_tidy text_eq
tidy-all_tidy f h = tidy-normalize_const _ (
    listed-normalize_enum _ (
      typed-normalize_type _ (
        kept-simplify _ (codes "oneOf") refl
          (kept-simplify _ (codes "anyOf") refl (kept-drop_definitions f h)))))
