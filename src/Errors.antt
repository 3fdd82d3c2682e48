-- ===== src/Errors.antt =====
-- The errors that the sources build with `fmt.Errorf` and `errors.New`, by what they say, and the
-- outcome of a call that may fail.
use freebuff2api.Base.{ℕ, Text}

pub data Error : Type 0 where
  -- an error of the HTTP client or of the upstream's answer, by its text
  upstream : Text → Error
  -- a text that the code itself gives as a reason
  reason : Text → Error
  -- "token cooling down until ..."
  cooling_down : ℕ → Error
  -- "run missing after rotation"
  run_missing : Error
  -- the context is done
  cancelled : Error
  -- errors of the free session, the first three around another
  start_session poll_session refresh_failed end_failed : Error → Error
  active_without_instance queued_without_instance : Error
  bad_expiry unexpected_status : Text → Error
  -- errors of the account store: of its input, of the cipher, of a row that is not there, and of one
  -- that is there already
  label_required token_required priority_negative weight_not_positive : Error
  encrypting_failed decrypting_failed : Error → Error
  account_not_found account_exists : Text → Error
  -- errors of the account manager: no store, and a token that it cannot take over into the store
  store_disabled : Error
  import_failed : Error → Error
  -- a request that cannot be encoded
  marshal_failed : Error → Error

pub data Outcome {ℓ} (A : Type ℓ) : Type ℓ where
  ok : A → Outcome A
  fail : Error → Outcome A
