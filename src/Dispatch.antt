-- ===== src/Dispatch.antt =====
-- run_manager.go, `Acquire`, `Release`, `Invalidate` and `Cooldown` of `RunManager`: a request's way
-- through the pools.
pub mod Tried
pub mod Log
mod Tests
use freebuff2api.Base.{
  ℕ, suc, ◌+◌, ◌%◌, ◌≡◌, Bool, true, false, ◌&&◌, ◌||◌, not, Option, none, some, List, [], ◌∷◌,
  ◌++◌, ◌==◌, if◌then◌else◌, ℤ, Text,
}
use freebuff2api.Errors.{Error, Outcome, ok, fail}
use freebuff2api.Pool.{run_addresses, Pool, release, invalidate, mark_cooldown}
use freebuff2api.FreeSession.{has_ready_session}
use freebuff2api.Lease.{AcquireEnv, acquire}
use freebuff2api.Order.{weighted_pool_order, group_pools_by_priority}
use freebuff2api.Manager.{Manager, put}

-- `runLease`: the addresses of the pool, and of the run in it.
pub record RunLease : Type 0 where
  pub pool : ℕ
  pub run : ℕ

-- What `Acquire` meets at a pool in a pass: what others have done to the pool since, the clock, and
-- what `acquire` meets there.
pub record TryEnv : Type 0 where
  pub meets : Pool → Pool
  pub ready_at : ℕ
  pub acquiring : AcquireEnv

-- What happened at a pool: it was passed over in the first (`false`) or the second pass, as one with
-- or without a ready session, or refused.
pub data Try : Type 0 where
  skipped : ℕ → Bool → Bool → Try
  refused : ℕ → Error → Try

-- `failed` is the error "unable to acquire run from any token", `blocked` a wait that does not end.
pub data Search : Type 0 where
  leased : Manager → RunLease → Search
  failed : Manager → List Try → Search
  no_tokens blocked : Search

abbrev pub noting : Try → Search → Search
noting t (failed m log) = failed m (t ∷ log)
noting t s = s

-- A search that has tried some pools before.
abbrev pub having_tried : List Try → Search → Search
having_tried log (failed m log') = failed m (log ++ log')
having_tried log s = s

-- A search that goes on where another failed.
abbrev pub or_else : Search → (Manager → Search) → Search
or_else (failed m log) f = having_tried log (f m)
or_else s f = s

-- Whether a pass skips a pool: the first those that are not ready, the second those that are.
abbrev pub skips : Bool → Bool → Bool
skips false ready = not ready
skips true ready = ready

-- A pass over the pools of a group.
unfoldable pub pass_loop : Manager → Text → Bool → List ℕ → (ℕ → Bool → TryEnv) → Search
pass_loop m agent second [] envs = failed m []
pass_loop m agent second (a ∷ rest) envs =
    let env = envs a second in
    let p = env.meets (m.pools a) in
    let ready = has_ready_session p env.ready_at in
    elim (skips second ready) [
      | true ↦
          noting (skipped a second ready)
            (pass_loop (record m { pools = put m.pools a p }) agent second rest envs)
      | false ↦ elim (acquire p agent env.acquiring) [
        | none ↦ blocked
        | some t ↦ elim (t.1) [
          | ok r ↦ leased (record m { pools = put m.pools a t.0 }) (record { pool = a; run = r })
          | fail e ↦
              noting (refused a e)
                (pass_loop (record m { pools = put m.pools a t.0 }) agent second rest envs)
        ]
      ]
    ]

-- The groups, by priority; `order` is `weightedPoolOrder` of a group.
unfoldable pub group_loop :
    (List ℕ → Option (List ℕ)) → Manager → Text → List (List ℕ) → (ℕ → Bool → TryEnv) → Search
group_loop order m agent [] envs = failed m []
group_loop order m agent (g ∷ rest) envs = elim (order g) [
  | none ↦ blocked
  | some pools ↦ or_else (pass_loop m agent false pools envs) (λ m₁.
      or_else (pass_loop m₁ agent true pools envs) (λ m₂. group_loop order m₂ agent rest envs))
]

-- `Acquire`; the counter wraps at 64 bits.
unfoldable pub acquire_any : Manager → Text → (ℕ → Bool → TryEnv) → Search
acquire_any m agent envs = elim (run_addresses m.active) [
  | [] ↦ no_tokens
  | a ∷ others ↦
      let m' = record m { next = (m.next + 1) % 18446744073709551616 } in
      group_loop (λ g. weighted_pool_order m.pools g m.next) m' agent
        (group_pools_by_priority m.pools (a ∷ others)) envs
]

-- `Release`, `Invalidate`, `Cooldown`; a nil lease does nothing.
unfoldable pub release_lease_of : Manager → Option RunLease → Outcome (Unit {0}) → Manager
release_lease_of m none answer = m
release_lease_of m (some l) answer = record m {
  pools = put m.pools l.pool (release (m.pools l.pool) l.run answer);
}

unfoldable pub invalidate_lease : Manager → Option RunLease → Text → Manager
invalidate_lease m none why = m
invalidate_lease m (some l) why = record m {
  pools = put m.pools l.pool (invalidate (m.pools l.pool) l.run why);
}

unfoldable pub cooldown_lease : Manager → Option RunLease → ℤ → Text → ℕ → Manager
cooldown_lease m none duration why now = m
cooldown_lease m (some l) duration why now = record m {
  pools = put m.pools l.pool (mark_cooldown (m.pools l.pool) duration why now);
}
