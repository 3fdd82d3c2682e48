-- ===== src/Lease/Tests.antt =====
-- Leases and maintenance at concrete inputs.
use freebuff2api.Base.{
  ◌≡◌, inl, refl, true, false, none, some, [], ◌∷◌, Text, codes, text_eq, text_eq_iff, arith,
  lookup, insert, delete,
}
use freebuff2api.Errors.{ok}
use freebuff2api.Pool.{
  Pool, CachedSession, active, is_cooling, is_idle, needs_rotate, rotate_agent, acquire_commit,
  update, fresh_run,
}
use freebuff2api.Pool.Current.{IsOwned}
use freebuff2api.Pool.Tests.{pool}
use freebuff2api.FreeSession.{ready_session}
use freebuff2api.SessionCycle.{ensure_session, ensure_begin, ensure_end}
use freebuff2api.Lease.{AcquireEnv, acquire, maintain}
use freebuff2api.Lease.Grants.{Alone, Granted, acquire-Granted}
use freebuff2api.Lease.Retirement.{AllFree, maintain-idle}

abbrev session : CachedSession
session = record { status = active; instance_id = codes "i"; expires_at = 0 }

abbrev agent : Text
agent = codes "agent"

abbrev env : AcquireEnv
env = record {
  checked = 3;
  rotated = 4;
  start = ok (codes "run");
  ensured = 5;
  wakes = [];
  meets_session = λ p. p;
  meets_commit = λ p. p;
  refreshed = ok (session, codes "i");
}

alone : Alone env
alone = record { session_same = λ p. refl; commit_same = λ p. refl; no_wait = refl }

pool-IsOwned : IsOwned pool
unfolding lookup
pool-IsOwned = record { allocated = λ k a e. cc; filed = λ k a e. cc }

-- The pool after a first request: a run has been started and the session refreshed.
abbrev rotated : Pool
rotated = (rotate_agent pool agent 4 (ok (codes "run"))).0

abbrev ensured : Pool
ensured = record rotated { session = some session; last_error = none; refreshing = false }

abbrev first : Pool
first = (acquire_commit ensured agent).0

granted : acquire pool agent env ≡ some (first, ok 0)
unfolding acquire needs_rotate rotate_agent acquire_commit ensure_session ensure_begin ensure_end
    ready_session lookup insert delete text_eq
granted = refl

acquire-Granted_example : (is_cooling pool 3 ≡ false) × Granted agent env first 0
acquire-Granted_example = acquire-Granted agent env alone pool pool-IsOwned granted

-- A retired pool with a run that nobody uses.
abbrev gone : Pool
gone = record pool {
  retired = true;
  runs = (agent, 0) ∷ [];
  draining = 1 ∷ [];
  next = 2;
  cell =
      update (update pool.cell 0 (fresh_run (codes "a") agent 3)) 1 (fresh_run (codes "b") agent 1);
}

gone-IsOwned : IsOwned gone
unfolding lookup
gone-IsOwned = record {
  allocated = λ k a e. ground arith;
  filed = λ k a e. ground (arith, text_eq_iff agent k);
}

gone-AllFree : AllFree gone
gone-AllFree = record {
  owned = gone-IsOwned;
  gone = refl;
  free = λ a. record { idle = ground arith; unmarked = inl (ground arith) };
}

maintain-idle_example : is_idle (maintain gone false 9 (λ _. ok []) (λ _. ok tt)) ≡ true
maintain-idle_example = maintain-idle gone 9 (λ _. ok []) (λ _. ok tt) gone-AllFree (λ a. refl)
