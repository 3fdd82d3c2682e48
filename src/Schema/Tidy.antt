-- ===== src/Schema/Tidy.antt =====
-- server.go: what a normalised schema looks like, and what assignments and deletions do to that.
use freebuff2api.Base.{
  ◌≡◌, refl, Bool, true, false, ◌&&◌, not, Option, none, some, List, [], ◌∷◌, Text, text_eq, arith,
}
use freebuff2api.TextSearch.{contains_string}
use freebuff2api.Json.{
  Json, null, bool, num, str, arr, obj, Items, nil, cons, Fields, end, field, get_field, drop_field,
  set_field, set_all,
}
use freebuff2api.Json.Keys.{get_field-drop_field, get_field-set_field, absent-set_all}
use freebuff2api.Schema.{
  definitions_key, defs_key, nullable_key, type_key, enum_key_name, const_key, is_nil, real_options,
  drop_definitions,
}
use freebuff2api.Schema.Values.{enum_key}

abbrev pub is_there : Option Json → Bool
is_there none = false
is_there (some v) = true

abbrev pub is_list : Option Json → Bool
is_list (some (arr xs)) = true
is_list _ = false

-- Values that are all there, with keys unlike each other and unlike the given ones.
unfoldable pub different : List Text → Items → Bool
different seen nil = true
different seen (cons null xs) = false
different seen (cons v xs) =
    not (contains_string seen (enum_key v)) && different (enum_key v ∷ seen) xs

abbrev pub is_enum : Option Json → Bool
is_enum (some (arr nil)) = false
is_enum (some (arr xs)) = different [] xs
is_enum _ = true

-- No definitions, and no "nullable".
unfoldable pub is_self_contained : Fields → Bool
is_self_contained f =
    not (is_there (get_field definitions_key f))
    && not (is_there (get_field defs_key f))
    && not (is_there (get_field nullable_key f))

-- Moreover one type at most, no null constant, and an enumeration, if any, of different values.
unfoldable pub is_tidy : Fields → Bool
is_tidy f =
    is_self_contained f
    && not (is_list (get_field type_key f))
    && not (is_nil (get_field const_key f))
    && is_enum (get_field enum_key_name f)

-- Every map in a value is tidy.
unfoldable mutual
  pub all_tidy : Json → Bool
  all_tidy null = true
  all_tidy (bool b) = true
  all_tidy (num t) = true
  all_tidy (str t) = true
  all_tidy (arr xs) = items_tidy xs
  all_tidy (obj f) = is_tidy f && fields_tidy f

  pub items_tidy : Items → Bool
  items_tidy nil = true
  items_tidy (cons v xs) = all_tidy v && items_tidy xs

  pub fields_tidy : Fields → Bool
  fields_tidy end = true
  fields_tidy (field k v f) = all_tidy v && fields_tidy f

pub fields_tidy-drop_field :
    (k : Text) (f : Fields) → fields_tidy f ≡ true → fields_tidy (drop_field k f) ≡ true
unfolding all_tidy drop_field
fields_tidy-drop_field k end h = refl
fields_tidy-drop_field k (field j v f) h = ground (arith, fields_tidy-drop_field k f)

pub fields_tidy-set_field :
    (k : Text) (v : Json) (f : Fields)
    → all_tidy v ≡ true
    → fields_tidy f ≡ true
    → fields_tidy (set_field k v f) ≡ true
unfolding all_tidy set_field
fields_tidy-set_field k v f hv h = ground (arith, fields_tidy-drop_field k f h)

pub fields_tidy-set_all :
    (f g : Fields) → fields_tidy f ≡ true → fields_tidy g ≡ true → fields_tidy (set_all f g) ≡ true
unfolding all_tidy set_all
fields_tidy-set_all f end h hg = h
fields_tidy-set_all f (field k v g) h hg =
    fields_tidy-set_all (set_field k v f) g (fields_tidy-set_field k v f (ground arith) h)
      (ground arith)

pub tidy-get_field :
    (k : Text) (f : Fields) (v : Json)
    → fields_tidy f ≡ true
    → get_field k f ≡ some v
    → all_tidy v ≡ true
unfolding all_tidy get_field
tidy-get_field k end v h e = ground arith
tidy-get_field k (field j w f) v h e = ground (arith, tidy-get_field k f v)

pub items_tidy-real_options :
    (xs : Items) → items_tidy xs ≡ true → items_tidy (real_options xs) ≡ true
unfolding all_tidy real_options
items_tidy-real_options nil h = refl
items_tidy-real_options (cons v xs) h = ground (arith, items_tidy-real_options xs)

pub there-set_all :
    (k : Text) (f g : Fields)
    → is_there (get_field k f) ≡ false
    → is_there (get_field k g) ≡ false
    → is_there (get_field k (set_all f g)) ≡ false
there-set_all k f g hf hg = ground (arith, absent-set_all k f g)

pub self_contained-set_all :
    (f g : Fields)
    → is_self_contained f ≡ true
    → is_self_contained g ≡ true
    → is_self_contained (set_all f g) ≡ true
unfolding is_self_contained
self_contained-set_all f g h hg = ground (
  arith,
  there-set_all definitions_key f g,
  there-set_all defs_key f g,
  there-set_all nullable_key f g,
)

pub self_contained-drop_field :
    (k : Text) (f : Fields) → is_self_contained f ≡ true → is_self_contained (drop_field k f) ≡ true
unfolding is_self_contained
self_contained-drop_field k f h = ground (
  arith,
  get_field-drop_field k definitions_key f,
  get_field-drop_field k defs_key f,
  get_field-drop_field k nullable_key f,
)

-- The keys that the code assigns are none of the three.
abbrev pub is_other_key : Text → Bool
is_other_key k =
    not (text_eq k definitions_key) && not (text_eq k defs_key) && not (text_eq k nullable_key)

pub self_contained-set_field :
    (k : Text) (v : Json) (f : Fields)
    → is_other_key k ≡ true
    → is_self_contained f ≡ true
    → is_self_contained (set_field k v f) ≡ true
unfolding is_self_contained
self_contained-set_field k v f o h = ground (
  arith,
  get_field-set_field k definitions_key v f,
  get_field-set_field k defs_key v f,
  get_field-set_field k nullable_key v f,
)

pub drop_definitions-self_contained : (f : Fields) → is_self_contained (drop_definitions f) ≡ true
unfolding is_self_contained drop_definitions text_eq
drop_definitions-self_contained f = ground (
  arith,
  get_field-drop_field nullable_key definitions_key
      (drop_field defs_key (drop_field definitions_key f)),
  get_field-drop_field defs_key definitions_key (drop_field definitions_key f),
  get_field-drop_field definitions_key definitions_key f,
  get_field-drop_field nullable_key defs_key (drop_field defs_key (drop_field definitions_key f)),
  get_field-drop_field defs_key defs_key (drop_field definitions_key f),
  get_field-drop_field nullable_key nullable_key
      (drop_field defs_key (drop_field definitions_key f)),
)
