-- ===== src/Manager/Tests.antt =====
-- `SyncAccounts` at a concrete input.
use freebuff2api.Base.{
  ◌≡◌, refl, true, false, some, [], ◌∷◌, ℤ, pos, Text, codes, text_eq, arith, lookup, trim_space,
}
use freebuff2api.Base.{not, ◌||◌, All, if◌then◌else◌}
use freebuff2api.Errors.{Outcome, ok, fail, reason}
use freebuff2api.Pool.{is_cooling}
use freebuff2api.Manager.Lifecycle.{prewarm_agents}
use freebuff2api.Manager.Prewarmed.{Prewarmed, has_run, prewarm_agents-Prewarmed}
use freebuff2api.Pool.Tests.{pool}
use freebuff2api.Manager.{
  RuntimeAccount, Manager, sync_accounts, new_token_pool, positive_weight, is_usable,
}
use freebuff2api.Manager.Steps.{IsKeyed, active_pool}
use freebuff2api.Manager.Kept.{Placed, sync_accounts-Placed}
use freebuff2api.Base.{Unique, inl}
use freebuff2api.Manager.Synced.{sync_accounts-Synced, last_wanted}

abbrev account : Text → Text → ℤ → RuntimeAccount
account id token weight = record {
  id = id;
  label = id;
  token = token;
  enabled = true;
  priority = pos 0;
  weight = weight;
}

abbrev pub manager : Manager
manager = record {
  interval = 100;
  pools = λ _. pool;
  next_pool = 1;
  active = (codes "id", 0) ∷ [];
  retired = [];
  prewarm_agents = [];
  running = false;
  next = 0;
}

pub manager-IsKeyed : IsKeyed manager
manager-IsKeyed = ((omega arith, refl), tt)

-- The account has a new token, and its weight is made positive.
sync_accounts-Synced_example :
    IsKeyed (sync_accounts manager (account (codes "id") (codes "new") (pos 0) ∷ []))
    × (active_pool
          (sync_accounts manager (account (codes "id") (codes "new") (pos 0) ∷ []))
          (codes "id")
        ≡ some (new_token_pool 100 (account (codes "id") (codes "new") (pos 1))))
unfolding last_wanted lookup text_eq is_usable trim_space positive_weight
sync_accounts-Synced_example =
    sync_accounts-Synced manager (account (codes "id") (codes "new") (pos 0) ∷ []) (codes "id")
      manager-IsKeyed

active-Unique : Unique manager.active
unfolding lookup
active-Unique = (refl, tt)

active-Placed : Placed manager 0
unfolding lookup text_eq
active-Placed = record { allocated = omega arith; place = inl refl }

-- The token has changed.
sync_accounts-Placed_example :
    Placed (sync_accounts manager (account (codes "id") (codes "new") (pos 0) ∷ [])) 0
sync_accounts-Placed_example =
    sync_accounts-Placed manager (account (codes "id") (codes "new") (pos 0) ∷ []) 0 manager-IsKeyed
      active-Unique active-Placed

-- The upstream starts a run for one of two agents.
abbrev starts_one : Text → Outcome Text
starts_one agent = if text_eq agent (codes "a") then ok (codes "r1") else fail (reason [])

not_cooling : is_cooling pool 50 ≡ false
not_cooling = refl

prewarm_agents-Prewarmed_example :
    All
      (Prewarmed starts_one
        (prewarm_agents pool (codes " a" ∷ codes "b" ∷ codes " " ∷ []) 50 starts_one))
      (codes " a" ∷ codes "b" ∷ codes " " ∷ [])
    × ((k : Text)
        → (not (has_run pool k)
            || has_run
                (prewarm_agents pool (codes " a" ∷ codes "b" ∷ codes " " ∷ []) 50 starts_one)
                k)
          ≡ true)
prewarm_agents-Prewarmed_example =
    prewarm_agents-Prewarmed pool (codes " a" ∷ codes "b" ∷ codes " " ∷ []) 50 starts_one
      not_cooling
