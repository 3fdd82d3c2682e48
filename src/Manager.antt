-- ===== src/Manager.antt =====
-- run_manager.go, `RunManager`: which pools there are. A `*tokenPool` is an address into `pools`,
-- since the map of active pools, the retired list and the leases share the pools.
pub mod Steps
pub mod Sync
pub mod Synced
pub mod Kept
pub mod Lifecycle
pub mod Prewarmed
pub mod Tests
use freebuff2api.Base.{
  ℕ, suc, ◌+◌, ◌≡◌, Bool, true, false, ◌&&◌, ◌||◌, not, Option, none, some, List, [], ◌∷◌, ◌++◌,
  ◌==◌, if◌then◌else◌, ℤ, pos, is_positive, Text, text_eq, trim_space, lookup, insert, delete,
}
use freebuff2api.Errors.{Outcome, ok, fail}
use freebuff2api.Pool.{run_addresses, Pool, Run, is_idle}
use freebuff2api.Lease.{maintain}

-- `RuntimeAccount`
pub record RuntimeAccount : Type 0 where
  pub id : Text
  pub label : Text
  pub token : Text
  pub enabled : Bool
  pub priority : ℤ
  pub weight : ℤ

-- `RunManager`. `interval` is `cfg.RotationInterval`, `running` that `runCtx` is not nil.
pub record Manager : Type 0 where
  pub interval : ℕ
  pub pools : ℕ → Pool
  pub next_pool : ℕ
  pub active : List (Text × ℕ)
  pub retired : List ℕ
  pub prewarm_agents : List Text
  pub running : Bool
  pub next : ℕ

abbrev pub put : (ℕ → Pool) → ℕ → Pool → ℕ → Pool
put pools a p b = if b == a then p else pools b

-- `if account.Weight <= 0 { account.Weight = 1 }`
unfoldable pub positive_weight : ℤ → ℤ
positive_weight w = if is_positive w then w else pos 1

-- `accountLabel`
unfoldable pub account_label : RuntimeAccount → Text
account_label account =
    let label = trim_space account.label in
    if not (text_eq label []) then label else trim_space account.id

empty_run : Run
empty_run = record {
  id = [];
  agent_id = [];
  started_at = 0;
  inflight = 0;
  request_count = 0;
  finishing = false;
}

-- `newTokenPool`
unfoldable pub new_token_pool : ℕ → RuntimeAccount → Pool
unfolding empty_run
new_token_pool interval account = record {
  account_id = account.id;
  label = account_label account;
  token = account.token;
  priority = account.priority;
  weight = positive_weight account.weight;
  retired = false;
  rotation_interval = interval;
  runs = [];
  draining = [];
  cell = λ _. empty_run;
  next = 0;
  session = none;
  refreshing = false;
  rebuild_scheduled = false;
  last_error = none;
  cooldown_until = 0;
}

-- The map `desired` of `SyncAccounts`.
unfoldable pub is_usable : RuntimeAccount → Bool
is_usable account =
    not (text_eq (trim_space account.id) [] || text_eq (trim_space account.token) [])

unfoldable pub desire :
    List (Text × RuntimeAccount) → List RuntimeAccount → List (Text × RuntimeAccount)
desire desired [] = desired
desire desired (account ∷ rest) =
    desire
      (if is_usable account
        then insert account.id (record account { weight = positive_weight account.weight }) desired
        else desired)
      rest

-- An account whose pool is there and has its token.
unfoldable pub refreshed_pool : Pool → RuntimeAccount → Pool
refreshed_pool p account = record p {
  label = account_label account;
  priority = account.priority;
  weight = account.weight;
  retired = false;
}

-- A pool leaves the active ones.
unfoldable pub retire : Manager → ℕ → Manager
retire m a = record m {
  pools = put m.pools a (record (m.pools a) { retired = true });
  retired = m.retired ++ a ∷ [];
}

-- A new pool for an account.
unfoldable pub add_pool : Manager → Text → RuntimeAccount → Manager
add_pool m id account = record m {
  pools = put m.pools m.next_pool (new_token_pool m.interval account);
  next_pool = suc m.next_pool;
  active = insert id m.next_pool m.active;
}

-- A round of the first loop of `SyncAccounts`.
unfoldable pub sync_one : Manager → Text → RuntimeAccount → Manager
sync_one m id account = elim (lookup id m.active) [
  | none ↦ add_pool m id account
  | some a ↦
      if text_eq (m.pools a).token account.token
      then record m { pools = put m.pools a (refreshed_pool (m.pools a) account) }
      else retire (add_pool m id account) a
]

unfoldable pub sync_all : Manager → List (Text × RuntimeAccount) → Manager
sync_all m [] = m
sync_all m ((id, account) ∷ rest) = sync_all (sync_one m id account) rest

-- The second loop: the active pools that no account asks for.
unfoldable pub drop_one : List (Text × RuntimeAccount) → Manager → Text → ℕ → Manager
drop_one desired m id a = elim (lookup id desired) [
  | some _ ↦ m
  | none ↦ let m' = retire m a in record m' { active = delete id m'.active }
]

unfoldable pub drop_all : List (Text × RuntimeAccount) → Manager → List (Text × ℕ) → Manager
drop_all desired m [] = m
drop_all desired m ((id, a) ∷ rest) = drop_all desired (drop_one desired m id a) rest

-- `SyncAccounts`, less the start of the prewarming.
unfoldable pub sync_accounts : Manager → List RuntimeAccount → Manager
sync_accounts m accounts =
    let desired = desire [] accounts in let m' = sync_all m desired in drop_all desired m' m'.active

-- What a round of `maintainAll` meets at a pool: the clock, and the upstream's answers.
pub record MaintainEnv : Type 0 where
  pub now : ℕ
  pub starts : Text → Outcome Text
  pub answers : ℕ → Outcome (Unit {0})

unfoldable pub maintain_each : Manager → Bool → List ℕ → (ℕ → MaintainEnv) → Manager
maintain_each m allow_rotate [] envs = m
maintain_each m allow_rotate (a ∷ rest) envs =
    let env = envs a in
    maintain_each
      (record m {
        pools = put m.pools a (maintain (m.pools a) allow_rotate env.now env.starts env.answers);
      })
      allow_rotate rest envs

unfoldable pub drop_idle : (ℕ → Pool) → List ℕ → List ℕ
drop_idle pools [] = []
drop_idle pools (a ∷ rest) =
    let later = drop_idle pools rest in if is_idle (pools a) then later else a ∷ later

-- `maintainAll`
unfoldable pub maintain_all : Manager → (ℕ → MaintainEnv) → Manager
maintain_all m envs =
    let m' = maintain_each m true (run_addresses m.active) envs in
    let m'' = maintain_each m' false m.retired envs in
    record m'' { retired = drop_idle m''.pools m''.retired }
