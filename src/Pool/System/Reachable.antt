-- ===== src/Pool/System/Reachable.antt =====
-- What holds at every moment of a pool's life, however its users interleave.
use freebuff2api.Base.{◌+◌, ℕ, ◌<◌, ◌≡◌, ◌⊎◌, true, false, [], arith, lookup, count}
use freebuff2api.Pool.{is_current, finish_begin}
use freebuff2api.Pool.Current.{IsOwned}
use freebuff2api.Pool.System.{System, Reach, here, step_on}
use freebuff2api.Pool.System.Invariant.{At, Inv}
use freebuff2api.Pool.System.Preserved.{Step-Inv}

-- A pool as `newTokenPool` leaves it: no run, no lease.
pub record IsNew (s : System) : Type 0 where
  pub runs : s.pool.runs ≡ []
  pub draining : s.pool.draining ≡ []
  pub next : s.pool.next ≡ 0
  pub idle : (a : ℕ) → (s.pool.cell a).inflight ≡ 0
  pub held : s.held ≡ []
  pub sending : s.sending ≡ []
  pub finished : s.finished ≡ []
  pub dropped : s.dropped ≡ []
  pub taken : s.taken ≡ []
  pub closing : s.closing ≡ []
  pub closed : s.closed ≡ []

IsNew-At : (s : System) → IsNew s → (a : ℕ) → At s a
unfolding is_current lookup count
IsNew-At s n a = ground (arith, n.idle a)

IsNew-IsOwned : (s : System) → IsNew s → IsOwned s.pool
unfolding lookup
IsNew-IsOwned s n = record { allocated = λ k a e. ground arith; filed = λ k a e. ground arith }

pub Reach-Inv : {s t : System} → IsNew s → Reach s t → Inv t
Reach-Inv {s} n here = record { owned = IsNew-IsOwned s n; at = IsNew-At s n }
Reach-Inv n (step_on r st) = Step-Inv st (Reach-Inv n r)

-- In every state that a new pool can reach, a run's `inflight` is the number of its leases that
-- are out; a run that `finishIfReady` is about to finish has no lease out, and no other `FinishRun` for it
-- by `finishIfReady` is on its way or has succeeded; and `shutdown` sends or has sent one for it only
-- if it took the run out of the pool.
pub send-idle :
    {s t : System} (a : ℕ)
    → IsNew s
    → Reach s t
    → ((t.pool.cell a).inflight ≡ count a t.held)
      × ((finish_begin t.pool a).1 ≡ true
          → (count a t.held ≡ 0) × (count a t.sending ≡ 0) × (count a t.finished ≡ 0))
      × ((count a t.closing + count a t.closed ≡ 0) ⊎ (0 < count a t.taken))
unfolding finish_begin
send-idle {s} {t} a n r =
    let v = (Reach-Inv n r).at a in (v.counted, λ h. ground (arith, v), ground (arith, v))

-- No run is lost: one that a new pool has started is, in every state that follows, its agent's
-- current run, or on the draining list exactly once, or finished, or given up by `invalidate`, or
-- taken by `shutdown`, which sends a FINISH for it.
pub run-kept :
    {s t : System} (a : ℕ)
    → IsNew s
    → Reach s t
    → a < t.pool.next
    → (is_current t.pool a ≡ true)
      ⊎ ((count a t.pool.draining ≡ 1) × (is_current t.pool a ≡ false))
      ⊎ (0 < count a t.finished)
      ⊎ (0 < count a t.dropped)
      ⊎ (0 < count a t.taken)
run-kept {s} {t} a n r h = let v = (Reach-Inv n r).at a in ground (arith, v)
