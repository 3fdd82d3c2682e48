-- ===== src/Manager/Lifecycle.antt =====
-- run_manager.go, `RunManager`: its start, the prewarming of pools, its end, and its snapshots. What a
-- goroutine does at a pool is a function of the pool as it finds it.
use freebuff2api.Base.{
  ℕ, Bool, true, false, ◌&&◌, not, Option, none, some, List, [], ◌∷◌, ◌++◌, map, if◌then◌else◌,
  ◌==◌, lt_int, eq_int, length, Text, text_eq, text_lt, trim_space, lookup,
}
use freebuff2api.Errors.{Error, Outcome}
use freebuff2api.Config.{compact_agent_ids}
use freebuff2api.Pool.{run_addresses, Pool, rotate_agent}
use freebuff2api.Lease.{shutdown, TokenSnapshot, snapshot}
use freebuff2api.Manager.{RuntimeAccount, Manager, put, desire}

-- `NewRunManager`
unfoldable pub new_run_manager : ℕ → (ℕ → Pool) → Manager
new_run_manager interval pools = record {
  interval = interval;
  pools = pools;
  next_pool = 0;
  active = [];
  retired = [];
  prewarm_agents = [];
  running = false;
  next = 0;
}

-- The locked part of `Start`: the manager, and the pools and agents of the goroutine that prewarms,
-- none if there is no pool.
unfoldable pub start_manager : Manager → List Text → Manager × Option (List ℕ × List Text)
start_manager m agents =
    let m' = record m { running = true; prewarm_agents = compact_agent_ids agents } in
    (m', if length m.active == 0 then none else some (run_addresses m.active, m'.prewarm_agents))

-- The pools that `SyncAccounts` prewarms: those of the accounts that have none with their token.
unfoldable pub new_pools : Manager → List (Text × RuntimeAccount) → Manager → List ℕ
new_pools before [] m = []
new_pools before ((id, account) ∷ rest) m =
    let later = new_pools before rest m in
    elim (lookup id m.active) [
      | none ↦ later
      | some a ↦ elim (lookup id before.active) [
        | none ↦ a ∷ later
        | some old ↦ if text_eq (before.pools old).token account.token then later else a ∷ later
      ]
    ]

-- What `SyncAccounts` starts after its locked part, given the manager before and after it.
unfoldable pub sync_prewarm : Manager → List RuntimeAccount → Manager → Option (List ℕ × List Text)
sync_prewarm before accounts m =
    let added = new_pools before (desire [] accounts) m in
    if not (length added == 0) && m.running then some (added, m.prewarm_agents) else none

-- By falling priority, then by falling weight, then by label.
unfoldable pub ranks_before : Pool → Pool → Bool
ranks_before p q =
    if not (eq_int p.priority q.priority)
    then lt_int q.priority p.priority
    else if not (eq_int p.weight q.weight)
    then lt_int q.weight p.weight
    else text_lt p.label q.label

unfoldable pub insert_ranked : (ℕ → Pool) → ℕ → List ℕ → List ℕ
insert_ranked pools a [] = a ∷ []
insert_ranked pools a (b ∷ rest) =
    let later = insert_ranked pools a rest in
    if ranks_before (pools b) (pools a) then b ∷ later else a ∷ b ∷ rest

unfoldable pub sort_ranked : (ℕ → Pool) → List ℕ → List ℕ
sort_ranked pools [] = []
sort_ranked pools (a ∷ rest) = insert_ranked pools a (sort_ranked pools rest)

-- The inner loop of `prewarmPools`: a run for each agent. A failure is logged, and the loop goes on.
unfoldable pub prewarm_agents : Pool → List Text → ℕ → (Text → Outcome Text) → Pool
prewarm_agents p [] now starts = p
prewarm_agents p (agent ∷ rest) now starts =
    let agent = trim_space agent in
    if text_eq agent []
    then prewarm_agents p rest now starts
    else prewarm_agents (rotate_agent p agent now (starts agent)).0 rest now starts

-- `prewarmPools`, less `prewarmSession`, which it starts for each pool.
unfoldable pub prewarm_each :
    (ℕ → Pool) → List ℕ → List Text → (ℕ → ℕ × (Text → Outcome Text)) → ℕ → Pool
prewarm_each pools [] agents envs = pools
prewarm_each pools (a ∷ rest) agents envs =
    prewarm_each (put pools a (prewarm_agents (pools a) agents (envs a).0 (envs a).1)) rest agents
      envs

unfoldable pub prewarm_pools :
    Manager → List ℕ → List Text → (ℕ → ℕ × (Text → Outcome Text)) → Manager
prewarm_pools m pools agents envs = record m {
  pools = prewarm_each m.pools (sort_ranked m.pools pools) agents envs;
}

-- `Close`, once the loop of `Start` has ended: the pools, the FINISH calls, and the errors.
unfoldable pub close_each :
    (ℕ → Pool)
    → List ℕ
    → (ℕ → (ℕ → Outcome (Unit {0})) × Outcome (Unit {0}))
    → (ℕ → Pool) × List (Text × ℕ) × List Error
close_each pools [] answers = (pools, [], [])
close_each pools (a ∷ rest) answers =
    let (p, finishes, errors) = shutdown (pools a) (answers a).0 (answers a).1 in
    let (pools', finishes', errors') = close_each (put pools a p) rest answers in
    (pools', finishes ++ finishes', errors ++ errors')

unfoldable pub close :
    Manager
    → (ℕ → (ℕ → Outcome (Unit {0})) × Outcome (Unit {0}))
    → Manager × List (Text × ℕ) × List Error
close m answers =
    let (pools, finishes, errors) =
      close_each m.pools (run_addresses m.active ++ m.retired) answers in
    (record m { pools = pools }, finishes, errors)

-- `Snapshots`
unfoldable pub snapshots : Manager → List TokenSnapshot
snapshots m = map (λ a. snapshot (m.pools a)) (sort_ranked m.pools (run_addresses m.active))
