-- ===== src/SessionCycle/Background.antt =====
-- free_session.go: the goroutines that get a session ahead of the requests, and that wait for one to
-- expire.
use freebuff2api.Base.{
  ℕ, ◌+◌, ◌-◌, Bool, ◌||◌, Option, none, some, List, [], ◌∷◌, if◌then◌else◌, ◌==◌, Text, text_eq,
}
use freebuff2api.Errors.{cancelled, Outcome, ok, fail}
use freebuff2api.Pool.{Pool, CachedSession}
use freebuff2api.FreeSession.{second}
use freebuff2api.SessionCycle.{ensure_session}

-- A round of `prewarmSession`: the pool as it is then and the clock, what `ensureSession` meets, and
-- whether the wait after it, of ten seconds, passes before the context ends.
pub record PrewarmRound : Type 0 where
  pub pool : Pool
  pub now : ℕ
  pub wakes : List (Option (Pool × ℕ))
  pub refreshed : Outcome (CachedSession × Text)
  pub waited : Bool

-- What is left after a round.
unfoldable pub prewarm_on :
    Bool
    → Option (Pool × Outcome Text)
    → Option (Pool × Outcome Text)
    → Option (Pool × Outcome Text)
prewarm_on waited none later = none
prewarm_on waited (some (p, ok id)) later = some (p, ok id)
prewarm_on waited (some (p, fail e)) later = if waited then later else some (p, fail cancelled)

-- `prewarmSession`; none if the rounds given do not bring it to an end.
unfoldable pub prewarm_session : List PrewarmRound → Option (Pool × Outcome Text)
prewarm_session [] = none
prewarm_session (r ∷ rest) =
    prewarm_on r.waited (ensure_session r.pool r.now r.wakes r.refreshed) (prewarm_session rest)

-- `watchSessionExpiry` before its first round: how long it sleeps, none if it watches nothing.
unfoldable pub watch_delay : Text → ℕ → ℕ → Option ℕ
watch_delay instance expires_at now =
    if text_eq instance [] || (expires_at == 0) then none else some ((expires_at + second) - now)
