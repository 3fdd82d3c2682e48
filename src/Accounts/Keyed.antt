-- ===== src/Accounts/Keyed.antt =====
-- Whatever the account manager does with its store, the active pools stay filed under their accounts.
use freebuff2api.Base.{ℕ, [], Text, Bool, List}
use freebuff2api.Errors.{Error, Outcome, ok, fail}
use freebuff2api.Store.{AccountRecord, Row}
use freebuff2api.Store.Rows.{list, get}
use freebuff2api.Manager.Steps.{IsKeyed}
use freebuff2api.Manager.Synced.{sync_accounts-Synced}
use freebuff2api.Accounts.{
  Accounts, runtime_accounts, refreshed, refresh_runtime, then_refresh, mark_invalid,
  delete_and_refresh, validate_got, read_back, validate_account,
}

module _ (decrypt : Text → Outcome Text) (created_before : ℕ → ℕ → Bool)
    (error_text : Error → Text) where
  refreshed-IsKeyed :
      (s : Accounts) (o : Outcome (List AccountRecord))
      → IsKeyed s.runs
      → IsKeyed (refreshed decrypt created_before error_text s o).0.runs
  unfolding refreshed
  refreshed-IsKeyed s (fail e) v = v
  refreshed-IsKeyed s (ok records) v =
      (sync_accounts-Synced s.runs (runtime_accounts records) [] v).0

  pub refresh_runtime-IsKeyed :
      (s : Accounts)
      → IsKeyed s.runs
      → IsKeyed (refresh_runtime decrypt created_before error_text s).0.runs
  unfolding refresh_runtime
  refresh_runtime-IsKeyed s v = refreshed-IsKeyed s (list decrypt created_before s.table) v

  pub then_refresh-IsKeyed :
      (s : Accounts) (table : List Row) (o : Outcome (Unit {0}))
      → IsKeyed s.runs
      → IsKeyed (then_refresh decrypt created_before error_text s (table, o)).0.runs
  unfolding then_refresh
  then_refresh-IsKeyed s table (fail e) v = v
  then_refresh-IsKeyed s table (ok _) v = refresh_runtime-IsKeyed (record s { table = table }) v

  read_back-IsKeyed :
      (id : Text) (s : Accounts) (o : Outcome (Unit {0}))
      → IsKeyed s.runs
      → IsKeyed (read_back decrypt created_before error_text id (s, o)).0.runs
  unfolding read_back
  read_back-IsKeyed id s (fail e) v = v
  read_back-IsKeyed id s (ok _) v = v

  validate_got-IsKeyed :
      (s : Accounts) (id : Text) (got : Outcome AccountRecord) (validated : Outcome (Unit {0}))
      (checked_at now : ℕ)
      → IsKeyed s.runs
      → IsKeyed
          (validate_got decrypt created_before error_text s id got validated checked_at now).0.runs
  unfolding validate_got
  validate_got-IsKeyed s id (fail e) validated checked_at now v = v
  validate_got-IsKeyed s id (ok r) validated checked_at now v = then_refresh-IsKeyed s _ _ v

  pub validate_account-IsKeyed :
      (s : Accounts) (id : Text) (validated : Outcome (Unit {0})) (checked_at now : ℕ)
      → IsKeyed s.runs
      → IsKeyed
          (validate_account decrypt created_before error_text s id validated checked_at now).0.runs
  unfolding validate_account
  validate_account-IsKeyed s id validated checked_at now v =
      read_back-IsKeyed id _ _
        (validate_got-IsKeyed s id (get decrypt s.table id) validated checked_at now v)

  pub delete_and_refresh-IsKeyed :
      (s : Accounts) (id : Text)
      → IsKeyed s.runs
      → IsKeyed (delete_and_refresh decrypt created_before error_text s id).0.runs
  unfolding delete_and_refresh
  delete_and_refresh-IsKeyed s id v = then_refresh-IsKeyed s _ _ v

  pub mark_invalid-IsKeyed :
      (s : Accounts) (id why : Text) (checked_at now : ℕ)
      → IsKeyed s.runs
      → IsKeyed (mark_invalid decrypt created_before error_text s id why checked_at now).0.runs
  unfolding mark_invalid
  mark_invalid-IsKeyed s id why checked_at now v = then_refresh-IsKeyed s _ _ v
