-- ===== src/Pool/System/Invariant.antt =====
-- The invariant of a pool under concurrency, one address at a time.
use freebuff2api.Base.{ℕ, ◌≤◌, ◌<◌, ◌+◌, ◌≡◌, ◌⊎◌, true, false, count}
use freebuff2api.Pool.{is_current}
use freebuff2api.Pool.Current.{IsOwned}
use freebuff2api.Pool.System.{System}

pub record At (s : System) (a : ℕ) : Type 0 where
  -- the run's counter is the number of its leases
  pub counted : (s.pool.cell a).inflight ≡ count a s.held
  -- at most one FINISH of `finishIfReady` is on its way or has succeeded
  pub once : count a s.sending + count a s.finished ≤ 1
  -- and while it is so the run is marked
  pub marked : (count a s.sending + count a s.finished ≡ 0) ⊎ ((s.pool.cell a).finishing ≡ true)
  -- a run drains once, and not while it is current
  pub drains : count a s.pool.draining ≤ 1
  pub apart : (count a s.pool.draining ≡ 0) ⊎ (is_current s.pool a ≡ false)
  -- nothing points to an address that is not allocated
  pub bounded :
      (a < s.pool.next)
      ⊎ ((count a s.held ≡ 0)
          × (count a s.sending + count a s.finished ≡ 0)
          × (count a s.pool.draining ≡ 0))
  -- no allocated run is lost
  pub kept :
      (s.pool.next ≤ a)
      ⊎ (is_current s.pool a ≡ true)
      ⊎ (0 < count a s.pool.draining)
      ⊎ (0 < count a s.finished)
      ⊎ (0 < count a s.dropped)
      ⊎ (0 < count a s.taken)
  -- `shutdown` finishes only runs that it took
  pub closes_taken : count a s.closing + count a s.closed ≤ count a s.taken

pub record Inv (s : System) : Type 0 where
  pub owned : IsOwned s.pool
  pub at : (a : ℕ) → At s a
