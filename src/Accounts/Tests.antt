-- ===== src/Accounts/Tests.antt =====
-- The account manager at concrete inputs.
use freebuff2api.Base.{◌≡◌, refl, inr, none, [], Text, codes, text_eq, trim_space, ltb, decimal}
use freebuff2api.Errors.{Error, upstream, Outcome, ok}
use freebuff2api.Store.{find_row, update_rows, status_invalid, normalize_status, AccountRecord}
use freebuff2api.Store.Rows.{
  get, list, sort_rows, insert_row, scan_all, scan_account, affected, update_validation,
}
use freebuff2api.Store.Tests.{stored, table, decrypt}
use freebuff2api.TextSearch.{to_lower, contains, has_prefix}
use freebuff2api.Manager.Steps.{active_pool}
use freebuff2api.Manager.Tests.{manager, manager-IsKeyed}
use freebuff2api.Accounts.{
  Accounts, classify_error, refresh_runtime, then_refresh, mark_invalid, validate_account,
  truncate_error,
}
use freebuff2api.TextSearch.Parts.{contains_any}
use freebuff2api.Upstream.{
  Returned, returns, do_json, started, start_run, failed_status, validate_token,
}
use freebuff2api.Upstream.Rejected.{Rejects}
use freebuff2api.Accounts.Rejected.{validate_account-unused}
use freebuff2api.Accounts.Retired.{mark_invalid-unused}

-- An answer that is no JSON is taken for a rejected token.
classify_error_test :
    classify_error (codes "start run: invalid character '<' looking for beginning of value")
    ≡ status_invalid
unfolding classify_error to_lower contains has_prefix
classify_error_test = refl

abbrev error_text : Error → Text
error_text e = []

abbrev accounts : Accounts
accounts = record { table = table; runs = manager }

marked :
    (mark_invalid decrypt ltb error_text accounts (codes "acc-1 ") (codes "rejected") 6 7).1 ≡ ok tt
unfolding mark_invalid update_validation then_refresh refresh_runtime affected find_row update_rows
    list sort_rows insert_row scan_all scan_account decrypt trim_space text_eq
marked = refl

mark_invalid-unused_example :
    active_pool
      (mark_invalid decrypt ltb error_text accounts (codes "acc-1 ") (codes "rejected") 6 7).0.runs
      (trim_space (codes "acc-1 "))
    ≡ none
mark_invalid-unused_example =
    mark_invalid-unused decrypt ltb error_text accounts (codes "acc-1 ") (codes "rejected") 6 7
      manager-IsKeyed marked

-- The error of an upstream answer is its text.
abbrev text_of : Error → Text
text_of (upstream t) = t
text_of _ = []

decode_run_id : Text → Returned Text
decode_run_id body = returns body

abbrev finish : Text → Outcome (Unit {0})
finish run_id = ok tt

-- An overloaded login service, whose message has "auth" in it.
abbrev overloaded : Outcome (Unit {0})
overloaded =
    validate_token
      (start_run decode_run_id
        (returns (record { status = 503; body = returns (codes "Auth service busy") })))
      finish

abbrev found_invalid : AccountRecord
found_invalid = record stored {
  last_status = status_invalid;
  last_error = codes "start run failed with status 503: Auth service busy";
  last_checked_at = 6;
  updated_at = 7;
}

busy-Rejects : Rejects 503 (codes "Auth service busy")
busy-Rejects = inr (inr (unfold contains_any contains has_prefix to_lower trim_space in refl))

validated_test :
    (validate_account decrypt ltb text_of accounts (codes "acc-1") overloaded 6 7).1
    ≡ ok found_invalid
unfolding validate_account then_refresh refresh_runtime get update_validation affected find_row
    update_rows list sort_rows insert_row scan_all scan_account trim_space text_eq decrypt
    classify_error truncate_error validate_token start_run do_json started failed_status
    decode_run_id decimal to_lower contains has_prefix normalize_status
validated_test = refl

validate_account-unused_example :
    active_pool
      (validate_account decrypt ltb text_of accounts (codes "acc-1") overloaded 6 7).0.runs
      (trim_space (codes "acc-1"))
    ≡ none
validate_account-unused_example =
    validate_account-unused decrypt ltb text_of accounts (codes "acc-1") found_invalid decode_run_id
      finish 503 (codes "Auth service busy") 6 7 manager-IsKeyed (λ t. refl) refl busy-Rejects
      validated_test
