-- ===== src/SessionCycle.antt =====
-- free_session.go, the methods of `tokenPool` that keep its session: each function is one part under
-- the lock. A goroutine that waits for another's refresh, on the channel `sessionRefreshCh`, goes on
-- with the pool as it finds it.
pub mod SingleFlight
pub mod Laws
pub mod Background
mod Tests
use freebuff2api.Base.{
  ℕ, Bool, true, false, ◌&&◌, ◌||◌, not, Option, none, some, List, [], ◌∷◌, ltb, if◌then◌else◌,
  Text, text_eq,
}
use freebuff2api.Errors.{Error, cancelled, Outcome, ok, fail}
use freebuff2api.Pool.{Pool, Run, SessionStatus, disabled, active, CachedSession, is_cooling, noted}
use freebuff2api.FreeSession.{ready_session}

-- How a round of `ensureSession` goes on: with a session that is ready, with a wait for another's
-- refresh, or with a refresh of its own.
pub data Entry : Type 0 where
  ready : Text → Entry
  waits refreshes : Entry

unfoldable pub ensure_begin : Pool → ℕ → Pool × Entry
ensure_begin p now = elim (ready_session p now) [
  | some id ↦ (p, ready id)
  | none ↦ if p.refreshing then (p, waits) else (record p { refreshing = true }, refreshes)
]

-- After `refreshSession`.
unfoldable pub ensure_end : Pool → Outcome (CachedSession × Text) → Pool
ensure_end p (ok (s, id)) = record p { session = some s; last_error = none; refreshing = false }
ensure_end p (fail e) = record p { session = none; last_error = some e; refreshing = false }

abbrev pub instance_of : Outcome (CachedSession × Text) → Outcome Text
instance_of (ok (s, id)) = ok id
instance_of (fail e) = fail e

-- A round, given what a wait comes to.
unfoldable pub ensure_round :
    Pool × Entry
    → Option (Pool × Outcome Text)
    → Outcome (CachedSession × Text)
    → Option (Pool × Outcome Text)
ensure_round (p, ready id) waited refreshed = some (p, ok id)
ensure_round (p, waits) waited refreshed = waited
ensure_round (p, refreshes) waited refreshed = some (ensure_end p refreshed, instance_of refreshed)

-- `ensureSession`. A wait ends with the pool as it then is and the time of the next round, or with
-- the end of the context; `none` if the wait does not end. `refreshed` is what `refreshSession`
-- returns, if it is called.
unfoldable pub ensure_session :
    Pool
    → ℕ
    → List (Option (Pool × ℕ))
    → Outcome (CachedSession × Text)
    → Option (Pool × Outcome Text)
unfolding ensure_round
ensure_session p now [] refreshed = ensure_round (ensure_begin p now) none refreshed
ensure_session p now (none ∷ rest) refreshed =
    ensure_round (ensure_begin p now) (some (p, fail cancelled)) refreshed
ensure_session p now (some (woken, later) ∷ rest) refreshed =
    ensure_round (ensure_begin p now) (ensure_session woken later rest refreshed) refreshed

-- The locked part of `ensureSessionAsync`: whether a goroutine is started.
unfoldable pub rebuild_begin : Pool → ℕ → Pool × Bool
rebuild_begin p now =
    if is_cooling p now
    then (p, false)
    else if p.refreshing || p.rebuild_scheduled
    then (p, false)
    else (record p { rebuild_scheduled = true }, true)

-- The goroutine's deferred part.
unfoldable pub rebuild_end : Pool → Pool
rebuild_end p = record p { rebuild_scheduled = false }

-- `invalidateSession`, the call of `ensureSessionAsync` included.
unfoldable pub invalidate_session : Pool → Text → ℕ → Pool × Bool
invalidate_session p why now =
    rebuild_begin (record p { session = none; last_error = noted why p.last_error }) now

-- `currentSessionInstanceID`
unfoldable pub current_instance : Pool → Text
current_instance p = elim p.session [ none ↦ [] | some s ↦ s.instance_id ]

any_inflight : (ℕ → Run) → List ℕ → Bool
any_inflight cell [] = false
any_inflight cell (a ∷ rest) = ltb 0 (cell a).inflight || any_inflight cell rest

runs_inflight : (ℕ → Run) → List (Text × ℕ) → Bool
runs_inflight cell [] = false
runs_inflight cell ((k, a) ∷ rest) = ltb 0 (cell a).inflight || runs_inflight cell rest

-- `hasInflightRequestsLocked`
unfoldable pub has_inflight : Pool → Bool
unfolding any_inflight runs_inflight
has_inflight p = runs_inflight p.cell p.runs || any_inflight p.cell p.draining

-- Whether the session is active and of the instance.
abbrev is_active_instance : Option CachedSession → Text → Bool
is_active_instance none instance = false
is_active_instance (some s) instance =
    (elim s.status [ active ↦ true | _ ↦ false ]) && text_eq s.instance_id instance

-- A round of `watchSessionExpiry`: it stops, waits a second, or takes the session away.
pub data Watch : Type 0 where
  stops waits_on expires : Watch

unfoldable pub watch_round : Pool → Text → Pool × Watch
watch_round p instance =
    if not (is_active_instance p.session instance)
    then (p, stops)
    else if has_inflight p
    then (p, waits_on)
    else (record p { session = none }, expires)

-- `endSession`: whether the upstream is asked to end the session.
sends_end : Option CachedSession → Bool
sends_end none = false
sends_end (some s) =
    not ((elim s.status [ disabled ↦ true | _ ↦ false ]) || text_eq s.instance_id [])

unfoldable pub end_session : Pool → Pool × Bool
unfolding sends_end
end_session p = (record p { session = none }, sends_end p.session)
