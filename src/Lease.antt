-- ===== src/Lease.antt =====
-- run_manager.go, the methods of `tokenPool` that go to the upstream between their locked parts:
-- `acquire`, `maintain`, `shutdown`, `snapshot`. What the upstream answers and the clock readings are
-- arguments, and so is what others do to the pool during `acquire`. `maintain` and `shutdown` are those
-- of a pool that nobody else uses meanwhile; their locked parts among others' are in Pool.System.
pub mod Grants
pub mod Retirement
mod Tests
use freebuff2api.Base.{
  ℕ, Bool, true, false, ◌&&◌, not, Option, none, some, List, [], ◌∷◌, ◌++◌, map, if◌then◌else◌, ℤ,
  Text, text_lt, length,
}
use freebuff2api.Errors.{Error, cooling_down, Outcome, ok, fail}
use freebuff2api.Pool.{
  Pool, Run, CachedSession, SessionStatus, is_cooling, is_due, needs_rotate, rotate_agent,
  acquire_commit, finish_if_ready, run_addresses, shutdown_begin,
}
use freebuff2api.SessionCycle.{ensure_session, end_session}

-- What `acquire` meets: its clock readings, the answer to `StartRun`, the waits for another's
-- refresh, and what its own refresh returns. `meets_session` and `meets_commit` are what others do to
-- the pool, which is unlocked meanwhile, before `ensureSession` and before the last locked part.
pub record AcquireEnv : Type 0 where
  pub checked : ℕ
  pub rotated : ℕ
  pub start : Outcome Text
  pub ensured : ℕ
  pub wakes : List (Option (Pool × ℕ))
  pub refreshed : Outcome (CachedSession × Text)
  pub meets_session : Pool → Pool
  pub meets_commit : Pool → Pool

unfoldable pub acquire_ensured :
    Text → AcquireEnv → Option (Pool × Outcome Text) → Option (Pool × Outcome ℕ)
acquire_ensured agent env none = none
acquire_ensured agent env (some (p, fail e)) = some (p, fail e)
acquire_ensured agent env (some (p, ok id)) = some (acquire_commit (env.meets_commit p) agent)

unfoldable pub acquire_rotated :
    Text → AcquireEnv → Pool × Outcome (Unit {0}) → Option (Pool × Outcome ℕ)
acquire_rotated agent env (p, fail e) = some (p, fail e)
acquire_rotated agent env (p, ok _) =
    acquire_ensured agent env
      (ensure_session (env.meets_session p) env.ensured env.wakes env.refreshed)

-- `acquire`; `none` if it waits on for another's refresh.
unfoldable pub acquire : Pool → Text → AcquireEnv → Option (Pool × Outcome ℕ)
unfolding acquire_ensured acquire_rotated
acquire p agent env =
    if is_cooling p env.checked
    then some (p, fail (cooling_down p.cooldown_until))
    else acquire_rotated agent env (
        if needs_rotate p agent env.checked
        then rotate_agent p agent env.rotated env.start
        else (p, ok tt))

-- The agents whose runs are due.
due_agents : Pool → ℕ → List (Text × ℕ) → List Text
due_agents p now [] = []
due_agents p now ((k, a) ∷ rest) =
    let later = due_agents p now rest in if is_due p now a then k ∷ later else later

-- The loops of `maintain`. A failure is logged, and the loop goes on.
unfoldable pub rotate_all : Pool → List Text → ℕ → (Text → Outcome Text) → Pool
rotate_all p [] now starts = p
rotate_all p (k ∷ rest) now starts = rotate_all (rotate_agent p k now (starts k)).0 rest now starts

unfoldable pub finish_all : Pool → List ℕ → (ℕ → Outcome (Unit {0})) → Pool
finish_all p [] answers = p
finish_all p (a ∷ rest) answers = finish_all (finish_if_ready p a (answers a)) rest answers

-- `maintain`; the lists are taken before the first call of the upstream.
unfoldable pub maintain : Pool → Bool → ℕ → (Text → Outcome Text) → (ℕ → Outcome (Unit {0})) → Pool
unfolding due_agents rotate_all
maintain p allow_rotate now starts answers =
    let to_rotate = if allow_rotate then due_agents p now p.runs else [] in
    let to_finish = if allow_rotate then [] else run_addresses p.runs in
    finish_all (finish_all (rotate_all p to_rotate now starts) p.draining answers) to_finish answers

-- The failed FINISH calls of `shutdown`.
failures : List ℕ → (ℕ → Outcome (Unit {0})) → List Error
failures [] answers = []
failures (a ∷ rest) answers = elim (answers a) [
  | ok _ ↦ failures rest answers
  | fail e ↦ e ∷ failures rest answers
]

-- The end of the session, if it is asked for and fails.
end_failures : Bool → Outcome (Unit {0}) → List Error
end_failures true (fail e) = e ∷ []
end_failures _ _ = []

-- `shutdown`: the pool, the runs that it finishes, with their request counts, and the errors.
unfoldable pub shutdown :
    Pool → (ℕ → Outcome (Unit {0})) → Outcome (Unit {0}) → Pool × List (Text × ℕ) × List Error
unfolding failures end_failures shutdown_begin
shutdown p answers end_answer =
    let (p', all) = shutdown_begin p in
    let (q, sent) = end_session p' in
    (
      q,
      map (λ a. ((p.cell a).id, (p.cell a).request_count)) all,
      failures all answers ++ end_failures sent end_answer,
    )

-- `runSnapshot`, and `tokenSnapshot` less its JSON names.
pub record RunSnapshot : Type 0 where
  pub agent_id : Text
  pub run_id : Text
  pub started_at : ℕ
  pub inflight : ℕ
  pub request_count : ℕ

pub record TokenSnapshot : Type 0 where
  pub id : Text
  pub name : Text
  pub priority : ℤ
  pub weight : ℤ
  pub runs : List RunSnapshot
  pub draining_runs : ℕ
  pub session : Option CachedSession
  pub cooldown_until : ℕ
  pub last_error : Option Error

-- Sorted by agent.
insert_snapshot : RunSnapshot → List RunSnapshot → List RunSnapshot
insert_snapshot r [] = r ∷ []
insert_snapshot r (s ∷ rest) =
    let later = insert_snapshot r rest in
    if text_lt s.agent_id r.agent_id then s ∷ later else r ∷ s ∷ rest

run_snapshots : (ℕ → Run) → List (Text × ℕ) → List RunSnapshot
unfolding insert_snapshot
run_snapshots cell [] = []
run_snapshots cell ((k, a) ∷ rest) =
    let r = cell a in
    insert_snapshot
      (record {
        agent_id = k;
        run_id = r.id;
        started_at = r.started_at;
        inflight = r.inflight;
        request_count = r.request_count;
      })
      (run_snapshots cell rest)

-- `snapshot`
unfoldable pub snapshot : Pool → TokenSnapshot
unfolding run_snapshots
snapshot p = record {
  id = p.account_id;
  name = p.label;
  priority = p.priority;
  weight = p.weight;
  runs = run_snapshots p.cell p.runs;
  draining_runs = length p.draining;
  session = p.session;
  cooldown_until = p.cooldown_until;
  last_error = p.last_error;
}
