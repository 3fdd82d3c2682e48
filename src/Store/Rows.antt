-- ===== src/Store/Rows.antt =====
-- account_store.go, the operations of `AccountStore`.
use freebuff2api.Base.{
  ℕ, Bool, true, false, ◌&&◌, not, Option, none, some, List, [], ◌∷◌, ◌++◌, if◌then◌else◌, eq_int,
  lt_int, Text, trim_space,
}
use freebuff2api.Errors.{
  encrypting_failed, decrypting_failed, account_not_found, account_exists, Outcome, ok, fail,
}
use freebuff2api.Store.{
  AccountRecord, Row, AccountInput, AccountUpdateInput, mask_token, normalize_status,
  validate_record, normalize_input, checked, columns_of, find_row, update_rows, delete_rows,
  status_unknown,
}

-- `ORDER BY enabled DESC, priority DESC, weight DESC, created_at ASC`
module _ (created_before : ℕ → ℕ → Bool) where
  unfoldable pub row_before : AccountRecord → AccountRecord → Bool
  row_before r q =
      if not r.enabled && q.enabled
      then false
      else if r.enabled && not q.enabled
      then true
      else if not (eq_int r.priority q.priority)
      then lt_int q.priority r.priority
      else if not (eq_int r.weight q.weight)
      then lt_int q.weight r.weight
      else created_before r.created_at q.created_at

  unfoldable pub insert_row : Row → List Row → List Row
  insert_row row [] = row ∷ []
  insert_row row (q ∷ rest) =
      let later = insert_row row rest in
      if row_before q.columns row.columns then q ∷ later else row ∷ q ∷ rest

  unfoldable pub sort_rows : List Row → List Row
  sort_rows [] = []
  sort_rows (row ∷ rest) = insert_row row (sort_rows rest)

abbrev pub opened : AccountRecord → Outcome Text → Outcome AccountRecord
opened r (fail e) = fail (decrypting_failed e)
opened r (ok token) = ok (record r { token = token; last_status = normalize_status r.last_status })

abbrev pub and_then :
    Outcome AccountRecord → Outcome (List AccountRecord) → Outcome (List AccountRecord)
and_then (fail e) later = fail e
and_then (ok r) (fail e) = fail e
and_then (ok r) (ok rs) = ok (r ∷ rs)

module _ (decrypt : Text → Outcome Text) where
  -- `scanAccount`
  unfoldable pub scan_account : Row → Outcome AccountRecord
  scan_account row = opened row.columns (decrypt row.sealed)

  unfoldable pub scan_all : List Row → Outcome (List AccountRecord)
  scan_all [] = ok []
  scan_all (row ∷ rest) = and_then (scan_account row) (scan_all rest)

  -- `List`
  unfoldable pub list : (ℕ → ℕ → Bool) → List Row → Outcome (List AccountRecord)
  list created_before table = scan_all (sort_rows created_before table)

  -- `Get`
  unfoldable pub get : List Row → Text → Outcome AccountRecord
  get table id = elim (find_row (trim_space id) table) [
    | none ↦ fail (account_not_found id)
    | some row ↦ scan_account row
  ]

-- The `INSERT` of a record; the identifier is the primary key.
unfoldable pub insert_record :
    List Row → AccountRecord → Outcome Text → List Row × Outcome AccountRecord
insert_record table r (fail e) = (table, fail (encrypting_failed e))
insert_record table r (ok sealed) = elim (find_row r.id table) [
  | some _ ↦ (table, fail (account_exists r.id))
  | none ↦ (table ++ record { sealed = sealed; columns = columns_of r } ∷ [], ok r)
]

-- `Create`, given what `newAccountID` and the clock return.
unfoldable pub create_normal :
    List Row
    → Outcome AccountRecord
    → (Text → Outcome Text)
    → Text
    → ℕ
    → List Row × Outcome AccountRecord
create_normal table (fail e) encrypt id now = (table, fail e)
create_normal table (ok r) encrypt id now =
    insert_record table
      (record r {
        id = id;
        created_at = now;
        updated_at = now;
        last_status = status_unknown;
        last_checked_at = 0;
      })
      (encrypt r.token)

unfoldable pub create_account :
    List Row → AccountInput → (Text → Outcome Text) → Text → ℕ → List Row × Outcome AccountRecord
unfolding create_normal
create_account table input encrypt id now =
    create_normal table (normalize_input input) encrypt id now

-- The fields that `Update` replaces.
abbrev pub or_keep {ℓ} : {A : Type ℓ} → Option A → A → A
or_keep none a = a
or_keep (some b) a = b

unfoldable pub with_token : Option Text → AccountRecord → AccountRecord
with_token none r = r
with_token (some token) r = record r {
  token = trim_space token;
  token_preview = mask_token (trim_space token);
  last_status = status_unknown;
  last_error = [];
  last_checked_at = 0;
}

abbrev pub trimmed : Option Text → Option Text
trimmed none = none
trimmed (some t) = some (trim_space t)

unfoldable pub with_input : AccountUpdateInput → AccountRecord → AccountRecord
with_input input r =
    let r' = with_token input.token (record r { label = or_keep (trimmed input.label) r.label }) in
    record r' {
      enabled = or_keep input.enabled r'.enabled;
      priority = or_keep input.priority r'.priority;
      weight = or_keep input.weight r'.weight;
    }

-- What the `UPDATE` leaves of a row: the identifier and the time of creation.
abbrev pub written : Text → AccountRecord → ℕ → Row → Row
written sealed r now row = record {
  sealed = sealed;
  columns = record (columns_of r) {
    id = row.columns.id;
    created_at = row.columns.created_at;
    updated_at = now;
  };
}

unfoldable pub write_record :
    List Row → AccountRecord → ℕ → Outcome Text → List Row × Outcome AccountRecord
write_record table r now (fail e) = (table, fail (encrypting_failed e))
write_record table r now (ok sealed) =
    (update_rows r.id (written sealed r now) table, ok (record r { updated_at = now }))

unfoldable pub update_checked :
    List Row → Outcome AccountRecord → (Text → Outcome Text) → ℕ → List Row × Outcome AccountRecord
unfolding write_record
update_checked table (fail e) encrypt now = (table, fail e)
update_checked table (ok r) encrypt now = write_record table r now (encrypt r.token)

unfoldable pub update_got :
    List Row
    → Outcome AccountRecord
    → AccountUpdateInput
    → (Text → Outcome Text)
    → ℕ
    → List Row × Outcome AccountRecord
unfolding update_checked
update_got table (fail e) input encrypt now = (table, fail e)
update_got table (ok r) input encrypt now =
    let r' = with_input input r in
    update_checked table (checked r' (validate_record r')) encrypt now

-- `Update`
unfoldable pub update_account :
    (Text → Outcome Text)
    → List Row
    → Text
    → AccountUpdateInput
    → (Text → Outcome Text)
    → ℕ
    → List Row × Outcome AccountRecord
unfolding update_got
update_account decrypt table id input encrypt now =
    update_got table (get decrypt table id) input encrypt now

-- A statement that changes no row reports an account that is not there.
unfoldable pub affected : Text → List Row → Outcome (Unit {0})
affected id table = elim (find_row (trim_space id) table) [
  | none ↦ fail (account_not_found id)
  | some _ ↦ ok tt
]

-- `Delete`
unfoldable pub delete_account : List Row → Text → List Row × Outcome (Unit {0})
delete_account table id = (delete_rows (trim_space id) table, affected id table)

-- `UpdateValidation`; `now` is the time of the update.
unfoldable pub update_validation :
    List Row → Text → Text → Text → ℕ → ℕ → List Row × Outcome (Unit {0})
update_validation table id status last_error checked_at now = (
  update_rows (trim_space id)
      (λ row. record row {
        columns = record (row.columns) {
          last_status = normalize_status status;
          last_error = trim_space last_error;
          last_checked_at = checked_at;
          updated_at = now;
        };
      })
      table,
  affected id table,
)
