-- ===== src/Json/Keys.antt =====
-- What a key of a JSON object means after an assignment, a deletion and a merge.
use freebuff2api.Base.{
  ◌≡◌, refl, Option, none, some, if◌then◌else◌, Text, text_eq, text_eq_iff, arith,
}
use freebuff2api.Json.{
  Json, Fields, end, field, get_field, drop_field, set_field, set_all, map_fields,
}

pub get_field-drop_field :
    (k j : Text) (f : Fields)
    → get_field j (drop_field k f) ≡ (if text_eq k j then none else get_field j f)
unfolding get_field drop_field
get_field-drop_field k j end = ground arith
get_field-drop_field k j (field i w f) =
    ground (arith, text_eq_iff k j, text_eq_iff i k, text_eq_iff i j, get_field-drop_field k j f)

pub get_field-set_field :
    (k j : Text) (v : Json) (f : Fields)
    → get_field j (set_field k v f) ≡ (if text_eq k j then some v else get_field j f)
unfolding get_field set_field
get_field-set_field k j v f = ground (arith, get_field-drop_field k j f)

-- No key stands twice.
abbrev pub Distinct : Fields → Type 0
Distinct end = Unit
Distinct (field k v f) = (get_field k f ≡ none) × Distinct f

-- The first of two answers that there is.
abbrev pub or_else : Option Json → Option Json → Option Json
or_else none o = o
or_else (some v) o = some v

pub get_field-set_all :
    (k : Text) (f g : Fields)
    → Distinct g
    → get_field k (set_all f g) ≡ or_else (get_field k g) (get_field k f)
unfolding get_field set_all
get_field-set_all k f end u = refl
get_field-set_all k f (field j v g) u = ground (
  arith,
  get_field-set_all k (set_field j v f) g u.1,
  get_field-set_field j k v f,
  text_eq_iff j k,
)

pub map_option : (Json → Json) → Option Json → Option Json
map_option h none = none
map_option h (some v) = some (h v)

pub get_field-map_fields :
    (h : Json → Json) (k : Text) (f : Fields)
    → get_field k (map_fields h f) ≡ map_option h (get_field k f)
unfolding get_field map_fields map_option
get_field-map_fields h k end = refl
get_field-map_fields h k (field j v f) = ground (arith, get_field-map_fields h k f)

pub absent-set_all :
    (k : Text) (f g : Fields)
    → get_field k f ≡ none
    → get_field k g ≡ none
    → get_field k (set_all f g) ≡ none
unfolding get_field set_all
absent-set_all k f end hf hg = hf
absent-set_all k f (field j v g) hf hg =
    ground (arith, absent-set_all k (set_field j v f) g, get_field-set_field j k v f)
