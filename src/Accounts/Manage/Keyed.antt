-- ===== src/Accounts/Manage/Keyed.antt =====
-- The same for each method of the account manager.
use freebuff2api.Base.{ℕ, [], Text, not, if◌then◌else◌, Bool, true, false, List, ◌==◌, length}
use freebuff2api.Errors.{Error, Outcome, ok, fail}
use freebuff2api.Store.{AccountRecord, Row, AccountInput, AccountUpdateInput}
use freebuff2api.Manager.Steps.{IsKeyed}
use freebuff2api.Manager.Synced.{sync_accounts-Synced}
use freebuff2api.Accounts.{runtime_accounts}
use freebuff2api.Accounts.Keyed.{
  refresh_runtime-IsKeyed, validate_account-IsKeyed, delete_and_refresh-IsKeyed,
  mark_invalid-IsKeyed,
}
use freebuff2api.Accounts.Manage.{
  AccountManager, Drawn, legacy_accounts, import_tokens, bootstrap_imported, bootstrap,
  validate_view, read_view, created, create_view, updated, update_view, delete_managed,
  mark_managed, managed,
}

-- The manager's active pools are filed under their accounts.
abbrev pub IsFiled : AccountManager → Type 0
IsFiled m = IsKeyed m.accounts.runs

-- A test keeps what both of its branches keep.
IsFiled-if {ℓ} :
    {A : Type ℓ} (b : Bool) (x y : AccountManager × A)
    → IsFiled x.0
    → IsFiled y.0
    → IsFiled (if b then x else y).0
IsFiled-if true x y vx vy = vx
IsFiled-if false x y vx vy = vy

IsFiled-either :
    (b : Bool) (m n : AccountManager) → IsFiled m → IsFiled n → IsFiled (if b then m else n)
IsFiled-either true m n vm vn = vm
IsFiled-either false m n vm vn = vn

module _ (decrypt : Text → Outcome Text) (created_before : ℕ → ℕ → Bool)
    (error_text : Error → Text) where
  bootstrap_imported-IsFiled :
      (m : AccountManager) (table : List Row) (o : Outcome (Unit {0}))
      → IsFiled m
      → IsFiled (bootstrap_imported decrypt created_before error_text m (table, o)).0
  unfolding bootstrap_imported managed
  bootstrap_imported-IsFiled m table (fail e) v = v
  bootstrap_imported-IsFiled m table (ok _) v =
      refresh_runtime-IsKeyed decrypt created_before error_text
        (record (m.accounts) { table = table }) v

  pub bootstrap-IsFiled :
      (m : AccountManager) (drawn : ℕ → Drawn) (now : ℕ)
      → IsFiled m
      → IsFiled (bootstrap decrypt created_before error_text m drawn now).0
  unfolding bootstrap
  bootstrap-IsFiled m drawn now v =
      IsFiled-if (not m.is_stored) _ _
        (sync_accounts-Synced m.accounts.runs
          (runtime_accounts (legacy_accounts 0 m.auth_tokens now)) [] v).0
        (IsFiled-if (length m.accounts.table == 0) _ _
          (bootstrap_imported-IsFiled m (import_tokens 0 m.auth_tokens drawn m.accounts.table).0
            (import_tokens 0 m.auth_tokens drawn m.accounts.table).1 v)
          (bootstrap_imported-IsFiled m m.accounts.table (ok tt) v))

  pub validate_view-IsFiled :
      (m : AccountManager) (id : Text) (validated : Outcome (Unit {0})) (checked_at now : ℕ)
      → IsFiled m
      → IsFiled (validate_view decrypt created_before error_text m id validated checked_at now).0
  unfolding validate_view managed
  validate_view-IsFiled m id validated checked_at now v = IsFiled-if (not m.is_stored) _ _ v (
      validate_account-IsKeyed decrypt created_before error_text m.accounts id validated checked_at
        now v)

  read_view-IsFiled :
      {A : Type 0} (id : Text) (m : AccountManager) (o : Outcome A)
      → IsFiled m
      → IsFiled (read_view decrypt created_before error_text id (m, o)).0
  unfolding read_view
  read_view-IsFiled id m (fail e) v = v
  read_view-IsFiled id m (ok _) v = v

  created-IsFiled :
      (m : AccountManager) (validated : Outcome (Unit {0})) (checked_at now : ℕ) (table : List Row)
      (o : Outcome AccountRecord)
      → IsFiled m
      → IsFiled (created decrypt created_before error_text m validated checked_at now (table, o)).0
  unfolding created
  created-IsFiled m validated checked_at now table (fail e) v = v
  created-IsFiled m validated checked_at now table (ok r) v = read_view-IsFiled r.id _ _ (
      validate_view-IsFiled (record m { accounts = record (m.accounts) { table = table } }) r.id
        validated checked_at now v)

  pub create_view-IsFiled :
      (m : AccountManager) (input : AccountInput) (drawn : Drawn) (validated : Outcome (Unit {0}))
      (checked_at now : ℕ)
      → IsFiled m
      → IsFiled
          (create_view decrypt created_before error_text m input drawn validated checked_at now).0
  unfolding create_view
  create_view-IsFiled m input drawn validated checked_at now v =
      IsFiled-if (not m.is_stored) _ _ v (created-IsFiled m validated checked_at now _ _ v)

  updated-IsFiled :
      (m : AccountManager) (again : Bool) (validated : Outcome (Unit {0})) (checked_at now : ℕ)
      (table : List Row) (o : Outcome AccountRecord)
      → IsFiled m
      → IsFiled
          (updated decrypt created_before error_text m again validated checked_at now (table, o)).0
  unfolding updated managed
  updated-IsFiled m again validated checked_at now table (fail e) v = v
  updated-IsFiled m true validated checked_at now table (ok r) v = read_view-IsFiled r.id _ _ (
      validate_view-IsFiled (record m { accounts = record (m.accounts) { table = table } }) r.id
        validated checked_at now v)
  updated-IsFiled m false validated checked_at now table (ok r) v = read_view-IsFiled r.id _ _ (
      refresh_runtime-IsKeyed decrypt created_before error_text
        (record (m.accounts) { table = table }) v)

  pub update_view-IsFiled :
      (m : AccountManager) (id : Text) (input : AccountUpdateInput) (drawn : Drawn)
      (validated : Outcome (Unit {0})) (checked_at now : ℕ)
      → IsFiled m
      → IsFiled
          (update_view decrypt created_before error_text m id input drawn validated checked_at
            now).0
  unfolding update_view
  update_view-IsFiled m id input drawn validated checked_at now v =
      IsFiled-if (not m.is_stored) _ _ v (updated-IsFiled m _ validated checked_at now _ _ v)

  pub delete_managed-IsFiled :
      (m : AccountManager) (id : Text)
      → IsFiled m
      → IsFiled (delete_managed decrypt created_before error_text m id).0
  unfolding delete_managed managed
  delete_managed-IsFiled m id v =
      IsFiled-if (not m.is_stored) _ _ v
        (delete_and_refresh-IsKeyed decrypt created_before error_text m.accounts id v)

  pub mark_managed-IsFiled :
      (m : AccountManager) (id why : Text) (checked_at now : ℕ)
      → IsFiled m
      → IsFiled (mark_managed decrypt created_before error_text m id why checked_at now)
  unfolding mark_managed
  mark_managed-IsFiled m id why checked_at now v =
      IsFiled-either (not m.is_stored) m _ v
        (mark_invalid-IsKeyed decrypt created_before error_text m.accounts id why checked_at now v)
