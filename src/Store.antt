-- ===== src/Store.antt =====
-- account_store.go: the accounts as a table of rows. A row's token is stored encrypted; `encrypt` and
-- `decrypt` are `TokenCipher.Encrypt`, a new function for each nonce that it draws, and
-- `TokenCipher.Decrypt`. Times stand for their texts in the format RFC3339Nano, 0 for the empty one,
-- and `created_before` compares two such texts. The database itself does not fail here.
pub mod Rows
pub mod Stats
pub mod Find
pub mod Laws
pub mod Cipher
pub mod Tests
use freebuff2api.Base.{
  ℕ, suc, ◌+◌, ◌-◌, Bool, true, false, ◌&&◌, ◌||◌, not, Option, none, some, List, [], ◌∷◌, ◌++◌,
  ltb, leb, ◌==◌, if◌then◌else◌, ℤ, pos, eq_int, lt_int, is_positive, Text, codes, text_eq,
  trim_space, length, take, drop, replicate,
}
use freebuff2api.Errors.{
  Error, label_required, token_required, priority_negative, weight_not_positive, encrypting_failed,
  decrypting_failed, account_not_found, account_exists, Outcome, ok, fail,
}

abbrev pub status_unknown : Text
status_unknown = codes "unknown"

abbrev pub status_healthy : Text
status_healthy = codes "healthy"

abbrev pub status_error : Text
status_error = codes "error"

abbrev pub status_invalid : Text
status_invalid = codes "invalid"

-- `AccountRecord`
pub record AccountRecord : Type 0 where
  pub id : Text
  pub label : Text
  pub token : Text
  pub token_preview : Text
  pub enabled : Bool
  pub priority : ℤ
  pub weight : ℤ
  pub last_status : Text
  pub last_error : Text
  pub last_checked_at : ℕ
  pub total_requests : ℕ
  pub success_requests : ℕ
  pub failed_requests : ℕ
  pub last_used_at : ℕ
  pub last_success_at : ℕ
  pub last_failure_at : ℕ
  pub created_at : ℕ
  pub updated_at : ℕ

-- A row: the encrypted token, and the other columns; the token of `columns` is not stored.
pub record Row : Type 0 where
  pub sealed : Text
  pub columns : AccountRecord

-- `AccountInput`
pub record AccountInput : Type 0 where
  pub label : Text
  pub token : Text
  pub enabled : Bool
  pub priority : ℤ
  pub weight : ℤ

-- `AccountUpdateInput`; a nil pointer is none.
pub record AccountUpdateInput : Type 0 where
  pub label : Option Text
  pub token : Option Text
  pub enabled : Option Bool
  pub priority : Option ℤ
  pub weight : Option ℤ

-- `maskToken`
mask_trimmed : Text → Text
mask_trimmed token =
    if text_eq token []
    then []
    else if leb (length token) 8
    then replicate (length token) 42
    else take 4 token ++ (codes "..." ++ drop (length token - 4) token)

unfoldable pub mask_token : Text → Text
unfolding mask_trimmed
mask_token token = mask_trimmed (trim_space token)

-- `normalizeAccountStatus`
unfoldable pub normalize_status : Text → Text
normalize_status status =
    let s = trim_space status in
    if text_eq s status_healthy
    then status_healthy
    else if text_eq s status_error
    then status_error
    else if text_eq s status_invalid
    then status_invalid
    else status_unknown

-- `validateAccountRecord`; none if nothing is wrong.
unfoldable pub validate_record : AccountRecord → Option Error
validate_record r =
    if text_eq (trim_space r.label) []
    then some label_required
    else if text_eq (trim_space r.token) []
    then some token_required
    else if lt_int r.priority (pos 0)
    then some priority_negative
    else if not (is_positive r.weight)
    then some weight_not_positive
    else none

abbrev pub checked : AccountRecord → Option Error → Outcome AccountRecord
checked r none = ok r
checked r (some e) = fail e

-- `normalizeAccountInput`
input_record : AccountInput → AccountRecord
input_record input = record {
  id = [];
  label = trim_space input.label;
  token = trim_space input.token;
  token_preview = mask_token (trim_space input.token);
  enabled = input.enabled;
  priority = if eq_int input.priority (pos 0) then pos 100 else input.priority;
  weight = if eq_int input.weight (pos 0) then pos 1 else input.weight;
  last_status = [];
  last_error = [];
  last_checked_at = 0;
  total_requests = 0;
  success_requests = 0;
  failed_requests = 0;
  last_used_at = 0;
  last_success_at = 0;
  last_failure_at = 0;
  created_at = 0;
  updated_at = 0;
}

unfoldable pub normalize_input : AccountInput → Outcome AccountRecord
unfolding input_record
normalize_input input = checked (input_record input) (validate_record (input_record input))

-- What is written of a record beside the encrypted token.
abbrev pub columns_of : AccountRecord → AccountRecord
columns_of r = record r { token = [] }

-- `WHERE id = ?`
unfoldable pub find_row : Text → List Row → Option Row
find_row id [] = none
find_row id (row ∷ rest) =
    let later = find_row id rest in if text_eq row.columns.id id then some row else later

-- `UPDATE ... WHERE id = ?`
unfoldable pub update_rows : Text → (Row → Row) → List Row → List Row
update_rows id f [] = []
update_rows id f (row ∷ rest) =
    let later = update_rows id f rest in
    if text_eq row.columns.id id then f row ∷ later else row ∷ later

-- `DELETE ... WHERE id = ?`
unfoldable pub delete_rows : Text → List Row → List Row
delete_rows id [] = []
delete_rows id (row ∷ rest) =
    let later = delete_rows id rest in if text_eq row.columns.id id then later else row ∷ later
