-- ===== src/SessionCycle/Laws.antt =====
-- What the session's methods do on every branch, and that an expired session is not taken away under
-- a request.
use freebuff2api.Base.{
  ℕ, ◌+◌, ◌*◌, ◌<◌, ◌≡◌, ◌⊎◌, ◌↔◌, inl, inr, true, false, some, List, [], ◌∷◌, arith, Text, lookup,
  count,
}
use freebuff2api.Errors.{ok}
use freebuff2api.Pool.{Pool, Run, disabled, CachedSession, is_current}
use freebuff2api.Pool.Current.{is_current_iff}
use freebuff2api.Pool.System.{System}
use freebuff2api.Pool.System.Reachable.{IsNew, Reach-Inv}
use freebuff2api.Pool.System.Active.{ReachWhile, IsActive, Reach-of_while, finished-not_leased}
use freebuff2api.FreeSession.{ready_session, unexpired, second}
use freebuff2api.FreeSession.Refresh.{Usable}
use freebuff2api.SessionCycle.{
  ensure_end, has_inflight, runs_inflight, any_inflight, expires, watch_round,
}

-- A session is ready right after a refresh that granted it, exactly if free sessions are disabled, it
-- has no expiry, or it has more than five seconds left.
pub ensure_end-ready :
    (p : Pool) (s : CachedSession) (id : Text) (now : ℕ)
    → Usable s id
    → (ready_session (ensure_end p (ok (s, id))) now ≡ some id)
      ↔ ((s.status ≡ disabled) ⊎ (s.expires_at ≡ 0) ⊎ (now + 5 * second < s.expires_at))
unfolding ready_session ensure_end unexpired
ensure_end-ready p s id now u = ground arith

any_inflight-none :
    (cell : ℕ → Run) (xs : List ℕ) (a : ℕ)
    → any_inflight cell xs ≡ false
    → 0 < count a xs
    → (cell a).inflight ≡ 0
unfolding any_inflight count
any_inflight-none cell [] a h k = absurd (omega arith)
any_inflight-none cell (x ∷ xs) a h k = ground (arith, any_inflight-none cell xs a)

runs_inflight-none :
    (cell : ℕ → Run) (m : List (Text × ℕ)) (k : Text) (a : ℕ)
    → runs_inflight cell m ≡ false
    → lookup k m ≡ some a
    → (cell a).inflight ≡ 0
unfolding runs_inflight lookup
runs_inflight-none cell [] k a h e = ground arith
runs_inflight-none cell ((j, b) ∷ m) k a h e = ground (arith, runs_inflight-none cell m k a)

has_inflight-none :
    (p : Pool) (a : ℕ)
    → has_inflight p ≡ false
    → (is_current p a ≡ true) ⊎ (0 < count a p.draining)
    → (p.cell a).inflight ≡ 0
unfolding has_inflight
has_inflight-none p a h (inl c) =
    runs_inflight-none p.cell p.runs (p.cell a).agent_id a (ground arith) ((is_current_iff p a).0 c)
has_inflight-none p a h (inr d) = any_inflight-none p.cell p.draining a (ground arith) d

-- In every state that a new pool can reach without being retired, `watchSessionExpiry` takes an
-- expired session away only when no lease is out on any run, but for runs that were given up as
-- invalid and those that `shutdown` took out of the pool.
pub expiry-waits :
    {s t : System} (instance : Text) (a : ℕ)
    → IsNew s
    → ReachWhile IsActive s t
    → (watch_round t.pool instance).1 ≡ expires
    → (count a t.held ≡ 0) ⊎ (0 < count a t.dropped) ⊎ (0 < count a t.taken)
unfolding watch_round
expiry-waits {s} {t} instance a n r e = ground (
  arith,
  (Reach-Inv n (Reach-of_while r)).at a,
  has_inflight-none t.pool a,
  finished-not_leased a [] n r,
)
