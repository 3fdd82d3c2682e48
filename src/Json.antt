-- ===== src/Json.antt =====
-- JSON values as `encoding/json` decodes them into `any`, maps and slices among them.
pub mod Keys
use freebuff2api.Base.{
  ℕ, zero, suc, Bool, true, false, Option, none, some, List, [], ◌∷◌, if◌then◌else◌, ltb, Text,
  codes, text_eq,
}

-- `any`: nil, bool, float64 (by what `%v` prints of it), string, []any and map[string]any.
mutual
  pub data Json : Type 0 where
    null : Json
    bool : Bool → Json
    num : Text → Json
    str : Text → Json
    arr : Items → Json
    obj : Fields → Json

  pub data Items : Type 0 where
    nil : Items
    cons : Json → Items → Items

  -- The order stands for the order of iteration.
  pub data Fields : Type 0 where
    end : Fields
    field : Text → Json → Fields → Fields

-- `m[k]`, for reading.
unfoldable pub get_field : Text → Fields → Option Json
get_field k end = none
get_field k (field j v f) = if text_eq j k then some v else get_field k f

-- `delete(m, k)`
unfoldable pub drop_field : Text → Fields → Fields
drop_field k end = end
drop_field k (field j v f) =
    let rest = drop_field k f in if text_eq j k then rest else field j v rest

-- `m[k] = v`
unfoldable pub set_field : Text → Json → Fields → Fields
set_field k v f = field k v (drop_field k f)

-- `for k, v := range g { f[k] = v }`
unfoldable pub set_all : Fields → Fields → Fields
set_all f end = f
set_all f (field k v g) = set_all (set_field k v f) g

-- `len(m)`
unfoldable pub field_count : Fields → ℕ
field_count end = 0
field_count (field k v f) = suc (field_count f)

-- `for k, v := range f { g[k] = h(v) }` on a new map `g`.
unfoldable pub map_fields : (Json → Json) → Fields → Fields
map_fields h end = end
map_fields h (field k v f) = field k (h v) (map_fields h f)

unfoldable pub map_items : (Json → Json) → Items → Items
map_items h nil = nil
map_items h (cons v xs) = cons (h v) (map_items h xs)
