-- ===== src/Store/Find.antt =====
-- What the SQL statements on the table do to what is found under an identifier.
use freebuff2api.Base.{
  ◌≡◌, ◌⊎◌, inl, inr, refl, Option, none, some, List, [], ◌∷◌, ◌++◌, arith, if◌then◌else◌, Text,
  text_eq, text_eq_iff, trim_space,
}
use freebuff2api.Errors.{Error, Outcome, ok, fail}
use freebuff2api.Store.{
  Row, normalize_status, find_row, update_rows, delete_rows, status_unknown, status_healthy,
  status_error, status_invalid,
}

pub Outcome-cases {ℓ} :
    {A : Type ℓ} (o : Outcome A) → ((e : Error) × (o ≡ fail e)) ⊎ ((a : A) × (o ≡ ok a))
Outcome-cases (fail e) = inl (e, refl)
Outcome-cases (ok a) = inr (a, refl)

-- A change of a row that keeps its identifier.
abbrev pub option_map : (Row → Row) → Option Row → Option Row
option_map f none = none
option_map f (some row) = some (f row)

pub find_row-update_rows :
    (id k : Text) (f : Row → Row) (table : List Row)
    → ((row : Row) → (f row).columns.id ≡ row.columns.id)
    → find_row k (update_rows id f table)
      ≡ (if text_eq id k then option_map f (find_row k table) else find_row k table)
unfolding find_row update_rows
find_row-update_rows id k f [] h = ground arith
find_row-update_rows id k f (row ∷ rest) h = ground (
  arith,
  find_row-update_rows id k f rest h,
  h row,
  text_eq_iff row.columns.id id,
  text_eq_iff row.columns.id k,
  text_eq_iff id k,
)

pub find_row-append :
    (k : Text) (table : List Row) (row : Row)
    → find_row k (table ++ row ∷ []) ≡ elim (find_row k table) [
      | some found ↦ some found
      | none ↦ if text_eq row.columns.id k then some row else none
    ]
unfolding find_row
find_row-append k [] row = ground arith
find_row-append k (q ∷ table) row = ground (arith, find_row-append k table row)

pub find_row-delete_rows :
    (id k : Text) (table : List Row)
    → find_row k (delete_rows id table) ≡ (if text_eq id k then none else find_row k table)
unfolding find_row delete_rows
find_row-delete_rows id k [] = ground arith
find_row-delete_rows id k (row ∷ rest) = ground (
  arith,
  find_row-delete_rows id k rest,
  text_eq_iff row.columns.id id,
  text_eq_iff row.columns.id k,
  text_eq_iff id k,
)

pub find_row-id :
    (k : Text) (table : List Row) (row : Row) → find_row k table ≡ some row → row.columns.id ≡ k
unfolding find_row
find_row-id k [] row h = absurd (ground arith)
find_row-id k (q ∷ table) row h =
    ground (arith, find_row-id k table row, text_eq_iff q.columns.id k)

pub normalize_status_idem : (s : Text) → normalize_status (normalize_status s) ≡ normalize_status s
unfolding normalize_status
normalize_status_idem s = ground (arith, named)
  where
    named :
        (normalize_status status_healthy ≡ status_healthy)
        × (normalize_status status_error ≡ status_error)
        × (normalize_status status_invalid ≡ status_invalid)
        × (normalize_status status_unknown ≡ status_unknown)
    named = unfold trim_space in unfold text_eq in (refl, refl, refl, refl)
