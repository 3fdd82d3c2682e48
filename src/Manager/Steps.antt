-- ===== src/Manager/Steps.antt =====
-- What the parts of `SyncAccounts` do to the pool of each account.
use freebuff2api.Base.{
  ℕ, ◌≤◌, ◌<◌, ◌≡◌, ◌≢◌, inl, inr, ◌∙◌, Option, none, some, false, List, [], ◌∷◌, arith, All,
  if◌then◌else◌, Text, text_eq, text_eq_iff, lookup, insert, delete, lookup-insert, All-lookup,
  All-delete, Option-cases,
}
use freebuff2api.Pool.{Pool}
use freebuff2api.Manager.{
  RuntimeAccount, Manager, put, new_token_pool, account_label, refreshed_pool, retire, add_pool,
}

-- The pool of an account.
abbrev pub active_pool : Manager → Text → Option Pool
active_pool m k = elim (lookup k m.active) [ none ↦ none | some a ↦ some (m.pools a) ]

-- What `SyncAccounts` makes of an account's pool: one with the account's token stays, and takes the
-- account's label, priority and weight; otherwise a new pool takes its place.
abbrev pub synced : ℕ → Option Pool → RuntimeAccount → Pool
synced interval none account = new_token_pool interval account
synced interval (some p) account =
    if text_eq p.token account.token
    then record p {
      label = account_label account;
      priority = account.priority;
      weight = account.weight;
      retired = false;
    }
    else new_token_pool interval account

-- Each active pool is allocated, and filed under its account.
abbrev pub Entry : Manager → Text × ℕ → Type 0
Entry m e = (e.1 < m.next_pool) × ((m.pools e.1).account_id ≡ e.0)

abbrev pub IsKeyed : Manager → Type 0
IsKeyed m = All (Entry m) m.active

-- A change that keeps the accounts of the allocated pools.
pub Entry-same :
    (m m' : Manager) (l : List (Text × ℕ))
    → m.next_pool ≤ m'.next_pool
    → ((a : ℕ) → a < m.next_pool → (m'.pools a).account_id ≡ (m.pools a).account_id)
    → All (Entry m) l
    → All (Entry m') l
Entry-same m m' [] n f h = tt
Entry-same m m' ((j, b) ∷ l) n f h =
    ((omega (arith, h.0.0), f b h.0.0 ∙ h.0.1), Entry-same m m' l n f h.1)

pub entry :
    (m : Manager) (k : Text) (a : ℕ)
    → IsKeyed m
    → lookup k m.active ≡ some a
    → (a < m.next_pool) × ((m.pools a).account_id ≡ k)
entry m k a v e = All-lookup (Entry m) m.active k a v e

module _ (m : Manager) (v : IsKeyed m) where
  pub add_pool-active :
      (id k : Text) (account : RuntimeAccount)
      → active_pool (add_pool m id account) k
        ≡ (if text_eq id k then some (new_token_pool m.interval account) else active_pool m k)
  unfolding add_pool
  add_pool-active id k account = elim (Option-cases (lookup k m.active)) [
    | inl e ↦ ground (arith, lookup-insert id k m.next_pool m.active)
    | inr (c, e) ↦ ground (arith, lookup-insert id k m.next_pool m.active, entry m k c v e)
  ]

  pub add_pool-IsKeyed :
      (id : Text) (account : RuntimeAccount) → account.id ≡ id → IsKeyed (add_pool m id account)
  unfolding add_pool new_token_pool insert
  add_pool-IsKeyed id account filed = (
    (omega arith, ground arith),
    Entry-same m (add_pool m id account) (delete id m.active) (omega arith) (λ b h. ground arith)
        (All-delete (Entry m) id m.active v),
  )

  pub retire-IsKeyed : (a : ℕ) → IsKeyed (retire m a)
  unfolding retire
  retire-IsKeyed a = Entry-same m (retire m a) m.active (omega arith) (λ b h. ground arith) v

  -- A pool that is no account's active one may be retired unseen.
  pub retire-active :
      (a : ℕ) (k : Text) → lookup k m.active ≢ some a → active_pool (retire m a) k ≡ active_pool m k
  unfolding retire
  retire-active a k h = ground arith

  pub refresh-IsKeyed :
      (a : ℕ) (account : RuntimeAccount)
      → IsKeyed (record m { pools = put m.pools a (refreshed_pool (m.pools a) account) })
  unfolding refreshed_pool
  refresh-IsKeyed a account =
      Entry-same m (record m { pools = put m.pools a (refreshed_pool (m.pools a) account) })
        m.active (omega arith) (λ b h. ground arith) v

  pub refresh-active :
      (id k : Text) (a : ℕ) (account : RuntimeAccount)
      → lookup id m.active ≡ some a
      → active_pool (record m { pools = put m.pools a (refreshed_pool (m.pools a) account) }) k
        ≡ (if text_eq id k then some (refreshed_pool (m.pools a) account) else active_pool m k)
  refresh-active id k a account e = elim (Option-cases (lookup k m.active)) [
    | inl f ↦ ground (arith, text_eq_iff id k)
    | inr (c, f) ↦ ground (arith, text_eq_iff id k, entry m k c v f, entry m id a v e)
  ]
