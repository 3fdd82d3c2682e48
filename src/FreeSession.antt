-- ===== src/FreeSession.antt =====
-- free_session.go: the upstream session of a pool. The upstream's answers, the waits and the clock
-- readings are arguments, and `parse_time` is `time.Parse` with the layout `time.RFC3339Nano`, which
-- gives nanoseconds since the zero time. Times are in nanoseconds.
pub mod Refresh
pub mod Requests
mod Tests
use freebuff2api.Base.{
  ℕ, ◌+◌, ◌-◌, ◌*◌, ◌%◌, Bool, true, false, ◌&&◌, ◌||◌, not, Option, none, some, List, [], ◌∷◌, ltb,
  leb, ◌==◌, if◌then◌else◌, ℤ, pos, negsuc, lt_int, Text, codes, text_eq, trim_space, lookup,
}
use freebuff2api.Errors.{
  Error, start_session, poll_session, refresh_failed, active_without_instance,
  queued_without_instance, bad_expiry, unexpected_status, cancelled, reason, Outcome, ok, fail,
}
use freebuff2api.Pool.{
  Pool, Run, SessionStatus, disabled, absent, queued, active, ended, superseded, CachedSession,
  is_cooling, noted,
}

abbrev pub second : ℕ
second = 1000000000

-- `freeSessionPollInterval`
abbrev pub poll_interval : ℕ
poll_interval = 5000000000

-- `freeSessionResponse`
pub record Response : Type 0 where
  pub status : Text
  pub instance_id : Text
  pub expires_at : Text
  pub remaining_ms : ℤ
  pub estimated_wait_ms : ℤ
  pub grace_period_remaining_ms : ℤ
  pub message : Text

-- The `sessionStatus` constants.
unfoldable pub status_text : SessionStatus → Text
status_text disabled = codes "disabled"
status_text absent = codes "none"
status_text queued = codes "queued"
status_text active = codes "active"
status_text ended = codes "ended"
status_text superseded = codes "superseded"

-- The `switch` on a status; `none` is its default case.
unfoldable pub status_of : Text → Option SessionStatus
unfolding status_text
status_of s =
    if text_eq s (status_text disabled)
    then some disabled
    else if text_eq s (status_text active)
    then some active
    else if text_eq s (status_text queued)
    then some queued
    else if text_eq s (status_text absent)
    then some absent
    else if text_eq s (status_text ended)
    then some ended
    else if text_eq s (status_text superseded)
    then some superseded
    else none

-- `now.Before(expiresAt.Add(-5*time.Second))`, or no expiry at all.
unfoldable pub unexpired : ℕ → CachedSession → Bool
unexpired now s = (s.expires_at == 0) || ltb (now + 5 * second) s.expires_at

ready_of : ℕ → CachedSession → SessionStatus → Option Text
ready_of now s disabled = some []
ready_of now s active =
    if text_eq s.instance_id [] then none else if unexpired now s then some s.instance_id else none
ready_of now s _ = none

-- `readySessionLocked`; `none` is its result `"", false`.
unfoldable pub ready_session : Pool → ℕ → Option Text
unfolding ready_of
ready_session p now = elim p.session [ none ↦ none | some s ↦ ready_of now s s.status ]

-- `hasReadySession`
unfoldable pub has_ready_session : Pool → ℕ → Bool
has_ready_session p now = elim (ready_session p now) [ none ↦ false | some _ ↦ true ]

-- `time.Duration(ms) * time.Millisecond` in 64 bits.
unfoldable pub wrap_int64 : ℕ → ℤ
wrap_int64 n =
    let m = n % 18446744073709551616 in
    if ltb m 9223372036854775808 then pos m else negsuc (18446744073709551615 - m)

clamp_delay : ℤ → ℕ
clamp_delay (negsuc n) = second
clamp_delay (pos d) =
    if ltb d second then second else if ltb poll_interval d then poll_interval else d

poll_delay : ℤ → ℕ
poll_delay (negsuc n) = poll_interval
poll_delay (pos n) = if ltb 0 n then clamp_delay (wrap_int64 (n * 1000000)) else poll_interval

-- `queuedPollDelay`
unfoldable pub queued_poll_delay : Response → ℕ
unfolding poll_delay clamp_delay
queued_poll_delay r = poll_delay r.estimated_wait_ms

-- What `refreshSession` asks of the upstream.
pub data Request : Type 0 where
  create_or_refresh : Request
  get_session : Text → Request

-- What comes back: the upstream's answer, or, where the code sleeps before it asks, the end of the
-- context.
pub data Reply : Type 0 where
  answered : Outcome Response → Reply
  interrupted : Reply

-- What a round of the loop does with a response: it ends the loop, sleeps and polls an instance, or
-- asks for a session again.
pub data Turn : Type 0 where
  ends : Outcome (CachedSession × Text) → Turn
  polls : Text → Turn
  recreates : Turn

abbrev pub disabled_session : CachedSession
disabled_session = record { status = disabled; instance_id = []; expires_at = 0 }

queued_turn : Text → Turn
queued_turn instance =
    if text_eq instance [] then ends (fail queued_without_instance) else polls instance

-- A request that is answered: the loop goes on with the rest, and the request is noted.
abbrev pub asks :
    Request
    → List Request × Option (Outcome (CachedSession × Text))
    → List Request × Option (Outcome (CachedSession × Text))
asks q later = (q ∷ later.0, later.1)

module _ (parse_time : Text → Option ℕ) where
  -- `parseOptionalSessionTime`
  unfoldable pub parse_optional_time : Text → Outcome ℕ
  parse_optional_time value =
      let value = trim_space value in
      if text_eq value []
      then ok 0
      else elim (parse_time value) [ none ↦ fail (bad_expiry value) | some t ↦ ok t ]

  -- The `active` case: the session, and the instance that is returned beside it.
  unfoldable pub active_session : Response → Outcome (CachedSession × Text)
  active_session r =
      let instance = trim_space r.instance_id in
      if text_eq instance []
      then fail active_without_instance
      else elim (parse_optional_time r.expires_at) [
        | fail e ↦ fail e
        | ok t ↦ ok (record { status = active; instance_id = instance; expires_at = t }, instance)
      ]

  turn_of : Response → Option SessionStatus → Turn
  unfolding queued_turn
  turn_of r none = ends (fail (unexpected_status r.status))
  turn_of r (some disabled) = ends (ok (disabled_session, []))
  turn_of r (some active) = ends (active_session r)
  turn_of r (some queued) = queued_turn (trim_space r.instance_id)
  turn_of r (some _) = recreates

  unfoldable pub turn : Response → Turn
  unfolding turn_of
  turn r = turn_of r (status_of (trim_space r.status))

  -- The loop of `refreshSession` on the state `r`: the requests that it makes, and its result;
  -- `none` if the replies given do not bring it to an end. Only a poll sleeps first.
  unfoldable pub refresh_loop :
      Response → List Reply → List Request × Option (Outcome (CachedSession × Text))
  refresh_loop r [] = elim (turn r) [ ends o ↦ ([], some o) | _ ↦ ([], none) ]
  refresh_loop r (interrupted ∷ rest) =
      let later = refresh_loop r rest in
      elim (turn r) [
        | ends o ↦ ([], some o)
        | polls id ↦ ([], some (fail cancelled))
        | recreates ↦ later
      ]
  refresh_loop r (answered (fail e) ∷ rest) = elim (turn r) [
    | ends o ↦ ([], some o)
    | polls id ↦ (get_session id ∷ [], some (fail (poll_session e)))
    | recreates ↦ (create_or_refresh ∷ [], some (fail (refresh_failed e)))
  ]
  refresh_loop r (answered (ok r') ∷ rest) =
      let later = refresh_loop r' rest in
      elim (turn r) [
        | ends o ↦ ([], some o)
        | polls id ↦ asks (get_session id) later
        | recreates ↦ asks create_or_refresh later
      ]

  -- `refreshSession`, its first request included.
  unfoldable pub refresh_session :
      Outcome Response → List Reply → List Request × Option (Outcome (CachedSession × Text))
  refresh_session (fail e) replies = (create_or_refresh ∷ [], some (fail (start_session e)))
  refresh_session (ok r) replies = asks create_or_refresh (refresh_loop r replies)
