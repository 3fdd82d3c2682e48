-- ===== src/Upstream/Rejected.antt =====
-- What the account manager makes of an answer that rejects a token.
use freebuff2api.Base.{
  ℕ, ◌<◌, ◌≡◌, ◌⊎◌, inl, inr, refl, true, false, List, [], ◌∷◌, ◌++◌, Text, codes, trim_space,
  decimal, decimal-All, All, arith,
}
use freebuff2api.TextSearch.{has_prefix, to_lower, contains}
use freebuff2api.TextSearch.Parts.{
  contains_any, contains_any-append, contains_any-before, is_plain, to_lower-append,
}
use freebuff2api.Errors.{Error, upstream, Outcome, fail}
use freebuff2api.Store.{status_invalid}
use freebuff2api.Accounts.{classify_error, verdict}
use freebuff2api.Upstream.{
  Returned, returns, do_json, started, start_run, failed_status, validate_token, is_success,
}

-- The patterns of `classifyValidationError`.
abbrev pub rejections : List Text
rejections =
    codes "401"
    ∷ codes "403"
    ∷ codes "unauthorized"
    ∷ codes "forbidden"
    ∷ codes "auth"
    ∷ codes "invalid"
    ∷ []

classify_error-any :
    (message : Text)
    → contains_any (to_lower message) rejections ≡ true
    → classify_error message ≡ status_invalid
unfolding classify_error contains_any
classify_error-any message h = ground arith

-- What an answer to START says, once its error is written out.
abbrev failed_start : ℕ → Text → Text
failed_start status body =
    codes "start run"
    ++ (codes " failed with status " ++ (decimal status ++ (codes ": " ++ trim_space body)))

is_plain-digits : (ds : Text) → All (λ d. d < 58) ds → is_plain ds ≡ true
unfolding is_plain
is_plain-digits [] h = refl
is_plain-digits (d ∷ ds) h = ground (arith, is_plain-digits ds h.1)

abbrev lowered : ℕ → Text → Text
lowered status body =
    to_lower (codes "start run")
    ++ (to_lower (codes " failed with status ")
        ++ (to_lower (decimal status) ++ (to_lower (codes ": ") ++ to_lower (trim_space body))))

to_lower-failed_start :
    (status : ℕ) (body : Text) → to_lower (failed_start status body) ≡ lowered status body
unfolding is_plain
to_lower-failed_start status body =
    rw
      (
        to_lower-append (codes "start run")
            (codes " failed with status " ++ (decimal status ++ (codes ": " ++ trim_space body)))
            refl,
        to_lower-append (codes " failed with status ")
            (decimal status ++ (codes ": " ++ trim_space body)) refl,
        to_lower-append (decimal status) (codes ": " ++ trim_space body)
            (is_plain-digits (decimal status) (decimal-All status)),
        to_lower-append (codes ": ") (trim_space body) refl,
      )
      refl

-- The answer rejects the token by its status, or its body has one of the patterns.
abbrev pub Rejects : ℕ → Text → Type 0
Rejects status body =
    (status ≡ 401) ⊎ (status ≡ 403) ⊎ (contains_any (to_lower (trim_space body)) rejections ≡ true)

digits-rejected :
    (status : ℕ)
    → (status ≡ 401) ⊎ (status ≡ 403)
    → contains_any (to_lower (decimal status)) rejections ≡ true
digits-rejected status (inl e) =
    rw e (unfold decimal to_lower contains has_prefix contains_any in refl)
digits-rejected status (inr e) =
    rw e (unfold decimal to_lower contains has_prefix contains_any in refl)

tail-rejected :
    (status : ℕ) (body : Text)
    → Rejects status body
    → contains_any
        (to_lower (decimal status) ++ (to_lower (codes ": ") ++ to_lower (trim_space body)))
        rejections
      ≡ true
tail-rejected status body (inl e) =
    contains_any-before (to_lower (decimal status)) _ rejections (digits-rejected status (inl e))
tail-rejected status body (inr (inl e)) =
    contains_any-before (to_lower (decimal status)) _ rejections (digits-rejected status (inr e))
tail-rejected status body (inr (inr h)) =
    contains_any-append (to_lower (decimal status)) _ rejections
      (contains_any-append (to_lower (codes ": ")) _ rejections h)

lowered-rejected :
    (status : ℕ) (body : Text)
    → Rejects status body
    → contains_any (lowered status body) rejections ≡ true
lowered-rejected status body r = contains_any-append (to_lower (codes "start run")) _ rejections (
    contains_any-append (to_lower (codes " failed with status ")) _ rejections
      (tail-rejected status body r))

start_run-failed :
    (decode : Text → Returned Text) (status : ℕ) (body : Text)
    → is_success status ≡ false
    → start_run decode (returns (record { status = status; body = returns body }))
      ≡ fail (upstream (failed_start status body))
unfolding start_run do_json started failed_status
start_run-failed decode status body h = ground arith

-- If the answer to START has a status that is no success, and the status is 401 or 403 or one of the
-- patterns of classifyValidationError is in the answer's body, then the account is found invalid,
-- whatever the status.
pub validate_token-rejected :
    (error_text : Error → Text) (decode : Text → Returned Text) (finish : Text → Outcome (Unit {0}))
    (status : ℕ) (body : Text)
    → ((t : Text) → error_text (upstream t) ≡ t)
    → is_success status ≡ false
    → Rejects status body
    → (verdict error_text (
        validate_token
          (start_run decode (returns (record { status = status; body = returns body })))
          finish)).0
      ≡ status_invalid
unfolding validate_token
validate_token-rejected error_text decode finish status body written h r =
    rw (start_run-failed decode status body h, written (failed_start status body))
      (classify_error-any (failed_start status body)
        (rw (to_lower-failed_start status body) (lowered-rejected status body r)))
