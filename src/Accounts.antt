-- ===== src/Accounts.antt =====
-- accounts.go, `AccountManager` with a store, over it and the run manager. `validated` is what
-- `validateToken` comes to, `error_text` the text of an error.
pub mod Retired
pub mod Manage
pub mod Rejected
pub mod Keyed
mod Tests
use freebuff2api.Base.{
  ℕ, Bool, true, false, ◌&&◌, ◌||◌, not, Option, none, some, List, [], ◌∷◌, ◌++◌, if◌then◌else◌,
  leb, Text, codes, text_eq, trim_space, length, take,
}
use freebuff2api.Errors.{Error, Outcome, ok, fail}
use freebuff2api.Store.{
  AccountRecord, Row, AccountInput, AccountUpdateInput, status_healthy, status_error,
  status_invalid,
}
use freebuff2api.Store.Rows.{
  list, get, create_account, update_account, delete_account, update_validation,
}
use freebuff2api.TextSearch.{to_lower, contains}
use freebuff2api.Manager.{RuntimeAccount, Manager, sync_accounts}

-- What the account manager writes to.
pub record Accounts : Type 0 where
  pub table : List Row
  pub runs : Manager

-- `runtimeAccountsFromRecords`
abbrev pub runtime_account : AccountRecord → RuntimeAccount
runtime_account r = record {
  id = r.id;
  label = r.label;
  token = r.token;
  enabled = r.enabled;
  priority = r.priority;
  weight = r.weight;
}

unfoldable pub runtime_accounts : List AccountRecord → List RuntimeAccount
runtime_accounts [] = []
runtime_accounts (r ∷ rest) =
    let later = runtime_accounts rest in
    if not r.enabled
    then later
    else if text_eq r.last_status status_invalid
    then later
    else runtime_account r ∷ later

-- `truncateError`, by bytes.
unfoldable pub truncate_error : Text → Text
truncate_error message = let m = trim_space message in if leb (length m) 300 then m else take 300 m

-- `classifyValidationError` of an error.
unfoldable pub classify_error : Text → Text
classify_error message =
    let m = to_lower message in
    if contains m (codes "401")
      || contains m (codes "403")
      || contains m (codes "unauthorized")
      || contains m (codes "forbidden")
      || contains m (codes "auth")
      || contains m (codes "invalid")
    then status_invalid
    else status_error

-- The status and the error that `Validate` writes.
abbrev pub verdict : (Error → Text) → Outcome (Unit {0}) → Text × Text
verdict error_text (ok _) = (status_healthy, [])
verdict error_text (fail e) = (classify_error (error_text e), truncate_error (error_text e))

module _ (decrypt : Text → Outcome Text) (created_before : ℕ → ℕ → Bool)
    (error_text : Error → Text) where
  refreshed : Accounts → Outcome (List AccountRecord) → Accounts × Outcome (Unit {0})
  refreshed s (fail e) = (s, fail e)
  refreshed s (ok records) =
      (record s { runs = sync_accounts s.runs (runtime_accounts records) }, ok tt)

  -- `RefreshRuntime`
  unfoldable pub refresh_runtime : Accounts → Accounts × Outcome (Unit {0})
  unfolding refreshed
  refresh_runtime s = refreshed s (list decrypt created_before s.table)

  -- A change of the table, and then `RefreshRuntime`, unless the change failed.
  unfoldable pub then_refresh :
      Accounts → List Row × Outcome (Unit {0}) → Accounts × Outcome (Unit {0})
  then_refresh s (table, fail e) = (record s { table = table }, fail e)
  then_refresh s (table, ok _) = refresh_runtime (record s { table = table })

  -- `MarkInvalid`; an error is only logged. The clock is read for the check and for the update.
  unfoldable pub mark_invalid : Accounts → Text → Text → ℕ → ℕ → Accounts × Outcome (Unit {0})
  mark_invalid s id why checked_at now =
      then_refresh s
        (update_validation s.table id status_invalid (truncate_error why) checked_at now)

  -- `Delete`
  unfoldable pub delete_and_refresh : Accounts → Text → Accounts × Outcome (Unit {0})
  delete_and_refresh s id = then_refresh s (delete_account s.table id)

  validate_got :
      Accounts
      → Text
      → Outcome AccountRecord
      → Outcome (Unit {0})
      → ℕ
      → ℕ
      → Accounts × Outcome (Unit {0})
  validate_got s id (fail e) validated checked_at now = (s, fail e)
  validate_got s id (ok r) validated checked_at now = then_refresh s (
      update_validation s.table id (verdict error_text validated).0 (verdict error_text validated).1
        checked_at now)

  read_back : Text → Accounts × Outcome (Unit {0}) → Accounts × Outcome AccountRecord
  read_back id (s, fail e) = (s, fail e)
  read_back id (s, ok _) = (s, get decrypt s.table id)

  -- `Validate`; the view that it returns is the record.
  unfoldable pub validate_account :
      Accounts → Text → Outcome (Unit {0}) → ℕ → ℕ → Accounts × Outcome AccountRecord
  unfolding validate_got read_back
  validate_account s id validated checked_at now =
      read_back id (validate_got s id (get decrypt s.table id) validated checked_at now)
