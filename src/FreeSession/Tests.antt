-- ===== src/FreeSession/Tests.antt =====
-- Refreshes of a free session at concrete inputs.
use freebuff2api.Base.{
  inl, inr, ℕ, ◌≤◌, ◌≡◌, refl, Option, none, some, List, [], ◌∷◌, ◌++◌, map, pos, Text, codes,
  text_eq, All, if◌then◌else◌, length, trim_space, suc,
}
use freebuff2api.Errors.{ok}
use freebuff2api.Pool.{CachedSession, active}
use freebuff2api.FreeSession.{
  Response, Reply, answered, refresh_session, queued_poll_delay, second, poll_interval,
}
use freebuff2api.FreeSession.Refresh.{
  queued_poll_delay_bounds, Usable, Named, refresh_session-Usable, refresh_session-Named,
  refresh_session-Grants, Grants, Waits,
}

abbrev response : Text → Text → Response
response status instance = record {
  status = status;
  instance_id = instance;
  expires_at = codes " 2026 ";
  remaining_ms = pos 0;
  -- the 64-bit product overflows
  estimated_wait_ms = pos 10000000000000;
  grace_period_remaining_ms = pos 0;
  message = [];
}

-- `time.Parse`, that knows one date.
parse_time : Text → Option ℕ
parse_time value = if text_eq value (codes "2026") then some 700 else none

abbrev waiting : Response
waiting = response (codes "queued ") (codes "i")

abbrev gone : Response
gone = response (codes "ended") []

abbrev granted : Response
granted = response (codes "active") (codes "i")

abbrev session : CachedSession
session = record { status = active; instance_id = codes "i"; expires_at = 700 }

queued_poll_delay_bounds_example :
    (second ≤ queued_poll_delay waiting) × (queued_poll_delay waiting ≤ poll_interval)
queued_poll_delay_bounds_example = queued_poll_delay_bounds waiting

abbrev replies : List Reply
replies = map (λ r. answered (ok r)) ((gone ∷ waiting ∷ []) ++ granted ∷ []) ++ []

waiting-Waits : Waits parse_time waiting
unfolding trim_space text_eq
waiting-Waits = inl (refl, refl)

gone-Waits : Waits parse_time gone
unfolding trim_space text_eq
gone-Waits = inr (inr (inl refl))

granted-Grants : Grants parse_time granted session
unfolding trim_space text_eq parse_time
granted-Grants = inr (refl, refl, (700, inr (refl, refl), refl))

refresh_session-Grants_example :
    (refresh_session parse_time (ok waiting) replies).1 ≡ some (ok (session, codes "i"))
refresh_session-Grants_example =
    refresh_session-Grants parse_time waiting (gone ∷ waiting ∷ []) granted session [] waiting-Waits
      (gone-Waits, (waiting-Waits, tt)) granted-Grants

returned : (refresh_session parse_time (ok waiting) replies).1 ≡ some (ok (session, codes "i"))
returned =
    refresh_session-Grants parse_time waiting (gone ∷ waiting ∷ []) granted session [] waiting-Waits
      (gone-Waits, (waiting-Waits, tt)) granted-Grants

refresh_session-Usable_example : Usable session (codes "i")
refresh_session-Usable_example = refresh_session-Usable parse_time (ok waiting) replies returned

refresh_session-Named_example :
    All Named (refresh_session parse_time (ok waiting) replies).0
    × (length (refresh_session parse_time (ok waiting) replies).0 ≤ suc (length replies))
refresh_session-Named_example = refresh_session-Named parse_time (ok waiting) replies
