-- ===== src/Accounts/Rejected.antt =====
-- An account whose token the upstream rejects has no pool once it has been validated.
use freebuff2api.Base.{ℕ, ◌≡◌, refl, Bool, false, none, arith, Text, trim_space}
use freebuff2api.Errors.{Error, upstream, Outcome, ok, fail}
use freebuff2api.Store.{AccountRecord, status_invalid}
use freebuff2api.Store.Rows.{get, update_validation}
use freebuff2api.Manager.Steps.{active_pool, IsKeyed}
use freebuff2api.Accounts.{Accounts, validate_account, validate_got, read_back, verdict}
use freebuff2api.Accounts.Retired.{update_rows-Unused, status_invalid-known, then_refresh-Unused}
use freebuff2api.Upstream.{Returned, returns, start_run, validate_token, is_success}
use freebuff2api.Upstream.Rejected.{Rejects, validate_token-rejected}

module _ (decrypt : Text → Outcome Text) (created_before : ℕ → ℕ → Bool)
    (error_text : Error → Text) where
  read_back-ok :
      (id : Text) (s : Accounts) (o : Outcome (Unit {0})) (r : AccountRecord)
      → (read_back decrypt created_before error_text id (s, o)).1 ≡ ok r
      → o ≡ ok tt
  unfolding read_back
  read_back-ok id s (fail e) r h = absurd (ground arith)
  read_back-ok id s (ok _) r h = refl

  read_back-state :
      (id : Text) (s : Accounts) (o : Outcome (Unit {0}))
      → (read_back decrypt created_before error_text id (s, o)).0 ≡ s
  unfolding read_back
  read_back-state id s (fail e) = refl
  read_back-state id s (ok _) = refl

  validate_got-Unused :
      (s : Accounts) (id : Text) (r : AccountRecord) (validated : Outcome (Unit {0}))
      (checked_at now : ℕ)
      → IsKeyed s.runs
      → (verdict error_text validated).0 ≡ status_invalid
      → (validate_got decrypt created_before error_text s id (ok r) validated checked_at now).1
        ≡ ok tt
      → active_pool
          (validate_got decrypt created_before error_text s id
            (ok r)
            validated
            checked_at
            now).0.runs
          (trim_space id)
        ≡ none
  unfolding validate_got update_validation
  validate_got-Unused s id r validated checked_at now v bad e =
      then_refresh-Unused decrypt created_before error_text s (trim_space id) _ _ v
        (update_rows-Unused (trim_space id) _ s.table
          (λ row same. rw bad (ground (arith, status_invalid-known))))
        e

  read_back-Unused :
      (s : Accounts) (id : Text) (got : Outcome AccountRecord) (r : AccountRecord)
      (validated : Outcome (Unit {0})) (checked_at now : ℕ)
      → IsKeyed s.runs
      → (verdict error_text validated).0 ≡ status_invalid
      → (read_back decrypt created_before error_text id
          (validate_got decrypt created_before error_text s id got validated checked_at now)).1
        ≡ ok r
      → active_pool
          (read_back decrypt created_before error_text id (
            validate_got decrypt created_before error_text s id got validated checked_at
              now)).0.runs
          (trim_space id)
        ≡ none
  read_back-Unused s id (fail w) r validated checked_at now v bad e =
      absurd (unfold validate_got read_back in ground arith)
  read_back-Unused s id (ok q) r validated checked_at now v bad e =
      rw
        (read_back-state id
          (validate_got decrypt created_before error_text s id (ok q) validated checked_at now).0
          (validate_got decrypt created_before error_text s id (ok q) validated checked_at now).1)
        (validate_got-Unused s id q validated checked_at now v bad (
          read_back-ok id
            (validate_got decrypt created_before error_text s id (ok q) validated checked_at now).0
            (validate_got decrypt created_before error_text s id (ok q) validated checked_at now).1
            r e))

  -- If the upstream answers START with a status that is no success, and the status is 401 or 403 or the
  -- body has one of the patterns of classifyValidationError, then after a Validate that succeeds the
  -- account has no active pool. This holds for a manager whose active pools are filed under their
  -- accounts.
  pub validate_account-unused :
      (s : Accounts) (id : Text) (r : AccountRecord) (decode : Text → Returned Text)
      (finish : Text → Outcome (Unit {0})) (status : ℕ) (body : Text) (checked_at now : ℕ)
      → IsKeyed s.runs
      → ((t : Text) → error_text (upstream t) ≡ t)
      → is_success status ≡ false
      → Rejects status body
      → (validate_account decrypt created_before error_text s id
          (validate_token
            (start_run decode (returns (record { status = status; body = returns body })))
            finish)
          checked_at
          now).1
        ≡ ok r
      → active_pool
          (validate_account decrypt created_before error_text s id
            (validate_token
              (start_run decode (returns (record { status = status; body = returns body })))
              finish)
            checked_at
            now).0.runs
          (trim_space id)
        ≡ none
  unfolding validate_account
  validate_account-unused s id r decode finish status body checked_at now v written h bad e =
      read_back-Unused s id (get decrypt s.table id) r _ checked_at now v
        (validate_token-rejected error_text decode finish status body written h bad) e
