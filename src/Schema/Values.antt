-- ===== src/Schema/Values.antt =====
-- server.go: copies of JSON values, and the keys under which `normalizeEnumField` tells values apart,
-- which are what `fmt.Sprintf("%T:%v", v, v)` prints.
use freebuff2api.Base.{
  ◌≡◌, refl, ap, true, false, List, [], ◌∷◌, ◌++◌, if◌then◌else◌, Text, codes, text_lt,
}
use freebuff2api.Json.{Json, null, bool, num, str, arr, obj, Items, nil, cons, Fields, end, field}

unfoldable mutual
  pub clone_value : Json → Json
  clone_value null = null
  clone_value (bool b) = bool b
  clone_value (num t) = num t
  clone_value (str t) = str t
  clone_value (arr xs) = arr (clone_slice xs)
  clone_value (obj f) = obj (clone_map f)

  -- `cloneSlice`
  pub clone_slice : Items → Items
  clone_slice nil = nil
  clone_slice (cons v xs) = cons (clone_value v) (clone_slice xs)

  -- `cloneMap`
  pub clone_map : Fields → Fields
  clone_map end = end
  clone_map (field k v f) = field k (clone_value v) (clone_map f)

mutual
  unfolding clone_value

  clone_value-same : (v : Json) → clone_value v ≡ v
  clone_value-same null = refl
  clone_value-same (bool b) = refl
  clone_value-same (num t) = refl
  clone_value-same (str t) = refl
  clone_value-same (arr xs) = ap arr (clone_slice-same xs)
  clone_value-same (obj f) = ap obj (clone_map-same f)

  pub clone_slice-same : (xs : Items) → clone_slice xs ≡ xs
  clone_slice-same nil = refl
  clone_slice-same (cons v xs) = cc (clone_value-same v, clone_slice-same xs)

  pub clone_map-same : (f : Fields) → clone_map f ≡ f
  clone_map-same end = refl
  clone_map-same (field k v f) = cc (clone_value-same v, clone_map-same f)

-- The entries of a map that is printed, in the order of the keys.
unfoldable pub insert_entry : Text → Text → List (Text × Text) → List (Text × Text)
insert_entry k t [] = (k, t) ∷ []
insert_entry k t ((j, s) ∷ rest) =
    let later = insert_entry k t rest in
    if text_lt j k then (j, s) ∷ later else (k, t) ∷ (j, s) ∷ rest

unfoldable pub joined : List Text → Text
joined [] = []
joined (t ∷ []) = t
joined (t ∷ s ∷ rest) = t ++ (32 ∷ joined (s ∷ rest))

unfoldable pub joined_entries : List (Text × Text) → List Text
joined_entries [] = []
joined_entries ((k, t) ∷ rest) = (k ++ (58 ∷ t)) ∷ joined_entries rest

-- `%v`
unfoldable mutual
  pub printed : Json → Text
  printed null = codes "<nil>"
  printed (bool true) = codes "true"
  printed (bool false) = codes "false"
  printed (num t) = t
  printed (str t) = t
  printed (arr xs) = codes "[" ++ (joined (printed_items xs) ++ codes "]")
  printed (obj f) = codes "map[" ++ (joined (joined_entries (printed_fields f)) ++ codes "]")

  pub printed_items : Items → List Text
  printed_items nil = []
  printed_items (cons v xs) = printed v ∷ printed_items xs

  pub printed_fields : Fields → List (Text × Text)
  printed_fields end = []
  printed_fields (field k v f) = insert_entry k (printed v) (printed_fields f)

-- `%T`
unfoldable pub type_name : Json → Text
type_name null = codes "<nil>"
type_name (bool b) = codes "bool"
type_name (num t) = codes "float64"
type_name (str t) = codes "string"
type_name (arr xs) = codes "[]interface {}"
type_name (obj f) = codes "map[string]interface {}"

unfoldable pub enum_key : Json → Text
enum_key v = type_name v ++ (58 ∷ printed v)
