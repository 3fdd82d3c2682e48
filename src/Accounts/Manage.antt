-- ===== src/Accounts/Manage.antt =====
-- accounts.go: the account manager as a whole, with or without a store. What `validateToken` comes to,
-- the identifiers and the nonces that are drawn, and the clock readings are arguments.
pub mod Keyed
use freebuff2api.Base.{
  ℕ, suc, Bool, true, false, not, Option, none, some, List, [], ◌∷◌, ◌++◌, map, if◌then◌else◌, ◌==◌,
  ℤ, pos, Text, codes, text_eq, trim_space, length, decimal,
}
use freebuff2api.Errors.{Error, store_disabled, import_failed, Outcome, ok, fail}
use freebuff2api.Store.{
  AccountRecord, Row, AccountInput, AccountUpdateInput, mask_token, status_unknown,
}
use freebuff2api.Store.Rows.{list, get, create_account, update_account}
use freebuff2api.Manager.{sync_accounts}
use freebuff2api.Accounts.{
  Accounts, runtime_accounts, refresh_runtime, mark_invalid, delete_and_refresh, validate_account,
}

-- `AccountView`: a record less its token.
pub record AccountView : Type 0 where
  pub id : Text
  pub label : Text
  pub token_preview : Text
  pub enabled : Bool
  pub priority : ℤ
  pub weight : ℤ
  pub last_status : Text
  pub last_error : Text
  pub last_checked_at : ℕ
  pub total_requests : ℕ
  pub success_requests : ℕ
  pub failed_requests : ℕ
  pub last_used_at : ℕ
  pub last_success_at : ℕ
  pub last_failure_at : ℕ
  pub created_at : ℕ
  pub updated_at : ℕ

-- `toAccountView`
unfoldable pub to_account_view : AccountRecord → AccountView
to_account_view r = record {
  id = r.id;
  label = r.label;
  token_preview = r.token_preview;
  enabled = r.enabled;
  priority = r.priority;
  weight = r.weight;
  last_status = r.last_status;
  last_error = r.last_error;
  last_checked_at = r.last_checked_at;
  total_requests = r.total_requests;
  success_requests = r.success_requests;
  failed_requests = r.failed_requests;
  last_used_at = r.last_used_at;
  last_success_at = r.last_success_at;
  last_failure_at = r.last_failure_at;
  created_at = r.created_at;
  updated_at = r.updated_at;
}

-- `AccountManager`; `is_stored` is `Enabled`, and the table of `accounts` means something only then.
pub record AccountManager : Type 0 where
  pub is_stored : Bool
  pub auth_tokens : List Text
  pub accounts : Accounts
  pub legacy_records : List AccountRecord

legacy_record : ℕ → Text → ℕ → AccountRecord
legacy_record number token now = record {
  id = codes "legacy-" ++ decimal number;
  label = codes "Legacy Token " ++ decimal number;
  token = token;
  token_preview = mask_token token;
  enabled = true;
  priority = pos 100;
  weight = pos 1;
  last_status = status_unknown;
  last_error = [];
  last_checked_at = 0;
  total_requests = 0;
  success_requests = 0;
  failed_requests = 0;
  last_used_at = 0;
  last_success_at = 0;
  last_failure_at = 0;
  created_at = now;
  updated_at = now;
}

-- `legacyAccountsFromTokens`, from the given index on.
unfoldable pub legacy_accounts : ℕ → List Text → ℕ → List AccountRecord
unfolding legacy_record
legacy_accounts index [] now = []
legacy_accounts index (t ∷ rest) now =
    let later = legacy_accounts (suc index) rest now in
    if text_eq (trim_space t) []
    then later
    else legacy_record (suc index) (trim_space t) now ∷ later

-- The input with which `Bootstrap` takes over a token; "迁移账号" in UTF-8 is its label.
abbrev pub migrated_label : Text
migrated_label =
    0xe8 ∷ 0xbf ∷ 0x81 ∷ 0xe7 ∷ 0xa7 ∷ 0xbb ∷ 0xe8 ∷ 0xb4 ∷ 0xa6 ∷ 0xe5 ∷ 0x8f ∷ 0xb7 ∷ 32 ∷ []

migrated_input : ℕ → Text → AccountInput
migrated_input number token = record {
  label = migrated_label ++ decimal number;
  token = token;
  enabled = true;
  priority = pos 100;
  weight = pos 1;
}

-- What `Create` draws: the cipher with its nonce, the identifier, and the time.
pub record Drawn : Type 0 where
  pub encrypt : Text → Outcome Text
  pub account_id : Text
  pub now : ℕ

-- The loop of `Bootstrap`; the first failure ends it, and the rows before it stay.
continue_import :
    List Row × Outcome AccountRecord
    → (List Row → List Row × Outcome (Unit {0}))
    → List Row × Outcome (Unit {0})
continue_import (table, fail e) later = (table, fail (import_failed e))
continue_import (table, ok r) later = later table

unfoldable pub import_tokens :
    ℕ → List Text → (ℕ → Drawn) → List Row → List Row × Outcome (Unit {0})
unfolding continue_import migrated_input
import_tokens index [] drawn table = (table, ok tt)
import_tokens index (t ∷ rest) drawn table =
    continue_import
      (create_account table (migrated_input (suc index) t) (drawn index).encrypt
        (drawn index).account_id (drawn index).now)
      (λ later. import_tokens (suc index) rest drawn later)

abbrev with_accounts : AccountManager → Accounts → AccountManager
with_accounts m s = record m { accounts = s }

abbrev with_table : AccountManager → List Row → AccountManager
with_table m table = record m { accounts = record (m.accounts) { table = table } }

abbrev viewed : Outcome AccountRecord → Outcome AccountView
viewed (ok r) = ok (to_account_view r)
viewed (fail e) = fail e

abbrev all_viewed : Outcome (List AccountRecord) → Outcome (List AccountView)
all_viewed (ok rs) = ok (map to_account_view rs)
all_viewed (fail e) = fail e

-- `withStatsContext`; an error of the statement is only logged.
unfoldable pub with_stats {ℓ} : {S : Type ℓ} → Bool → (S → S × Outcome (Unit {0})) → S → S
with_stats stored statement s = if not stored then s else (statement s).0

module _ (decrypt : Text → Outcome Text) (created_before : ℕ → ℕ → Bool)
    (error_text : Error → Text) where
  managed {ℓ} : {A : Type ℓ} → AccountManager → Accounts × A → AccountManager × A
  managed m (s, a) = (with_accounts m s, a)

  bootstrap_imported :
      AccountManager → List Row × Outcome (Unit {0}) → AccountManager × Outcome (Unit {0})
  unfolding managed
  bootstrap_imported m (table, fail e) = (with_table m table, fail e)
  bootstrap_imported m (table, ok _) =
      managed (with_table m table)
        (refresh_runtime decrypt created_before error_text (with_table m table).accounts)

  -- `Bootstrap`
  unfoldable pub bootstrap : AccountManager → (ℕ → Drawn) → ℕ → AccountManager × Outcome (Unit {0})
  unfolding bootstrap_imported
  bootstrap m drawn now =
      if not m.is_stored
      then (
        record m {
          legacy_records = legacy_accounts 0 m.auth_tokens now;
          accounts = record (m.accounts) {
            runs =
                sync_accounts m.accounts.runs
                  (runtime_accounts (legacy_accounts 0 m.auth_tokens now));
          };
        },
        ok tt,
      )
      else if length m.accounts.table == 0
      then bootstrap_imported m (import_tokens 0 m.auth_tokens drawn m.accounts.table)
      else bootstrap_imported m (m.accounts.table, ok tt)

  -- `List`
  unfoldable pub list_views : AccountManager → Outcome (List AccountView)
  list_views m =
      if not m.is_stored
      then ok (map to_account_view m.legacy_records)
      else all_viewed (list decrypt created_before m.accounts.table)

  -- `Validate`
  unfoldable pub validate_view :
      AccountManager → Text → Outcome (Unit {0}) → ℕ → ℕ → AccountManager × Outcome AccountView
  unfolding managed
  validate_view m id validated checked_at now =
      if not m.is_stored
      then (m, fail store_disabled)
      else let (s, o) =
          validate_account decrypt created_before error_text m.accounts id validated checked_at
            now in
        (with_accounts m s, viewed o)

  -- The end of `Create` and `Update`: the record is read back.
  read_view {ℓ} :
      {A : Type ℓ} → Text → AccountManager × Outcome A → AccountManager × Outcome AccountView
  read_view id (m, fail e) = (m, fail e)
  read_view id (m, ok _) = (m, viewed (get decrypt m.accounts.table id))

  created :
      AccountManager
      → Outcome (Unit {0})
      → ℕ
      → ℕ
      → List Row × Outcome AccountRecord
      → AccountManager × Outcome AccountView
  unfolding read_view
  created m validated checked_at now (table, fail e) = (with_table m table, fail e)
  created m validated checked_at now (table, ok r) =
      read_view r.id (validate_view (with_table m table) r.id validated checked_at now)

  -- `Create`
  unfoldable pub create_view :
      AccountManager
      → AccountInput
      → Drawn
      → Outcome (Unit {0})
      → ℕ
      → ℕ
      → AccountManager × Outcome AccountView
  unfolding created
  create_view m input drawn validated checked_at now =
      if not m.is_stored
      then (m, fail store_disabled)
      else created m validated checked_at now
          (create_account m.accounts.table input drawn.encrypt drawn.account_id drawn.now)

  -- Whether `Update` validates the token anew.
  abbrev asks_enabled : Option Bool → Bool
  asks_enabled (some true) = true
  asks_enabled _ = false

  abbrev pub needs_validation : AccountUpdateInput → Bool
  needs_validation input = elim input.token [ some _ ↦ true | none ↦ asks_enabled input.enabled ]

  updated :
      AccountManager
      → Bool
      → Outcome (Unit {0})
      → ℕ
      → ℕ
      → List Row × Outcome AccountRecord
      → AccountManager × Outcome AccountView
  unfolding read_view managed
  updated m again validated checked_at now (table, fail e) = (with_table m table, fail e)
  updated m again validated checked_at now (table, ok r) =
      if again
      then read_view r.id (validate_view (with_table m table) r.id validated checked_at now)
      else read_view r.id (
          managed (with_table m table)
            (refresh_runtime decrypt created_before error_text (with_table m table).accounts))

  -- `Update`
  unfoldable pub update_view :
      AccountManager
      → Text
      → AccountUpdateInput
      → Drawn
      → Outcome (Unit {0})
      → ℕ
      → ℕ
      → AccountManager × Outcome AccountView
  unfolding updated
  update_view m id input drawn validated checked_at now =
      if not m.is_stored
      then (m, fail store_disabled)
      else updated m (needs_validation input) validated checked_at now
          (update_account decrypt m.accounts.table id input drawn.encrypt drawn.now)

  -- `Delete`
  unfoldable pub delete_managed : AccountManager → Text → AccountManager × Outcome (Unit {0})
  unfolding managed
  delete_managed m id =
      if not m.is_stored
      then (m, fail store_disabled)
      else managed m (delete_and_refresh decrypt created_before error_text m.accounts id)

  -- `MarkInvalid`
  unfoldable pub mark_managed : AccountManager → Text → Text → ℕ → ℕ → AccountManager
  mark_managed m id why checked_at now =
      if not m.is_stored
      then m
      else with_accounts m
          (mark_invalid decrypt created_before error_text m.accounts id why checked_at now).0
