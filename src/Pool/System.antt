-- ===== src/Pool/System.antt =====
-- A pool under concurrency: request handlers, the maintenance loop and background goroutines take
-- turns at the lock, in any order. A step is one locked part of `tokenPool`; between `finish_begin`
-- and `finish_end` a `FinishRun` of `finishIfReady` is on its way to the upstream. Beside the pool
-- stand ghost lists: the leases that are out; the runs whose `FinishRun` by `finishIfReady` is on its
-- way or has succeeded; those given up by `invalidate`; and those that `shutdown` took out of the
-- pool, of which it has yet to finish some and has finished others.
pub mod Invariant
pub mod Preserved
pub mod Reachable
pub mod Active
use freebuff2api.Base.{
  ℕ, ◌≤◌, ◌<◌, ◌+◌, ◌≡◌, Bool, true, false, Option, List, [], ◌∷◌, ◌++◌, Text, count, remove_one,
  arith,
}
use freebuff2api.Errors.{Outcome, ok, fail}
use freebuff2api.Pool.{
  Pool, Run, rotate_commit, acquire_commit, release_lease, finish_begin, finish_end, forget,
  invalidate, shutdown_begin,
}

pub record System : Type 0 where
  pub pool : Pool
  pub held : List ℕ
  pub sending : List ℕ
  pub finished : List ℕ
  pub dropped : List ℕ
  pub taken : List ℕ
  pub closing : List ℕ
  pub closed : List ℕ

-- What the parts of a pool that have to do with runs are, so that all else may change: labels,
-- priorities and weights (`SyncAccounts`), cool-downs, errors and the session.
pub record SameRuns (p q : Pool) : Type 0 where
  pub runs : q.runs ≡ p.runs
  pub draining : q.draining ≡ p.draining
  pub cell : q.cell ≡ p.cell
  pub next : q.next ≡ p.next

abbrev note_finished : Outcome (Unit {0}) → ℕ → List ℕ → List ℕ
note_finished (ok _) a l = a ∷ l
note_finished (fail e) a l = l

abbrev pub after_answer : System → ℕ → Outcome (Unit {0}) → System
after_answer s a answer = record s {
  pool = finish_end s.pool a answer;
  sending = remove_one a s.sending;
  finished = note_finished answer a s.finished;
}

abbrev pub after_shutdown : System → System
after_shutdown s = record s {
  pool = (shutdown_begin s.pool).0;
  taken = (shutdown_begin s.pool).1 ++ s.taken;
  closing = (shutdown_begin s.pool).1 ++ s.closing;
}

abbrev pub after_closing : System → ℕ → Outcome (Unit {0}) → System
after_closing s a answer = record s {
  closing = remove_one a s.closing;
  closed = note_finished answer a s.closed;
}

pub data Step : System → System → Type 0 where
  -- `rotateAgent`, after the upstream started a run
  rotates :
      (s : System) (agent id : Text) (now : ℕ)
      → Step s (record s { pool = rotate_commit s.pool agent id now })
  -- the end of `acquire`
  leases :
      (s : System) (agent : Text) (a : ℕ)
      → (acquire_commit s.pool agent).1 ≡ ok a
      → Step s (record s { pool = (acquire_commit s.pool agent).0; held = a ∷ s.held })
  -- the start of `release`, by a holder of a lease
  releases :
      (s : System) (a : ℕ)
      → 0 < count a s.held
      → Step s (record s { pool = release_lease s.pool a; held = remove_one a s.held })
  -- the start of a `finishIfReady` that goes on to send `FinishRun`
  sends :
      (s : System) (a : ℕ)
      → a < s.pool.next
      → (finish_begin s.pool a).1 ≡ true
      → Step s (record s { pool = (finish_begin s.pool a).0; sending = a ∷ s.sending })
  -- the upstream's answer to it
  answers :
      (s : System) (a : ℕ) (answer : Outcome (Unit {0}))
      → 0 < count a s.sending
      → Step s (after_answer s a answer)
  -- `invalidate`, by a holder of a lease
  invalidates :
      (s : System) (a : ℕ) (why : Text)
      → 0 < count a s.held
      → Step s (record s { pool = invalidate s.pool a why; dropped = a ∷ s.dropped })
  -- the locked part of `shutdown`
  shuts : (s : System) → Step s (after_shutdown s)
  -- the answer to a `FinishRun` of `shutdown`, which only collects the errors
  closes :
      (s : System) (a : ℕ) (answer : Outcome (Unit {0}))
      → 0 < count a s.closing
      → Step s (after_closing s a answer)
  -- what takes the lock and leaves the runs alone, and `SyncAccounts`, which sets `retired`
  others : (s : System) (q : Pool) → SameRuns s.pool q → Step s (record s { pool = q })

pub data Reach (s : System) : System → Type 0 where
  here : Reach s s
  step_on : {t u : System} → Reach s t → Step t u → Reach s u
