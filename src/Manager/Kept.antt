-- ===== src/Manager/Kept.antt =====
-- `SyncAccounts` loses no pool, and touches no run.
use freebuff2api.Base.{
  ℕ, ◌<◌, ◌≡◌, ◌≢◌, ◌⊎◌, inl, inr, true, none, some, List, [], ◌∷◌, arith, All, ◌==◌, Text, text_eq,
  text_eq_iff, text_eq_refl, lookup, lookup-insert, lookup-delete, Bool-cases, Option-cases, Unique,
  Unique-insert, count, count-append, count-cons, count-nil,
}
use freebuff2api.Manager.{
  RuntimeAccount, Manager, put, refreshed_pool, retire, add_pool, sync_one, sync_all, drop_one,
  drop_all, sync_accounts, desire,
}
use freebuff2api.Manager.Steps.{IsKeyed, Entry, entry}
use freebuff2api.Manager.Synced.{desire-Wanted, drop_one-IsKeyed}
use freebuff2api.Manager.Sync.{Wanted, sync_one-IsKeyed, sync_all-active}

-- An allocated pool that is its account's active one, or is retired and no account's.
pub record Placed (m : Manager) (a : ℕ) : Type 0 where
  pub allocated : a < m.next_pool
  pub place :
      (lookup (m.pools a).account_id m.active ≡ some a)
      ⊎ ((0 < count a m.retired)
          × ((m.pools a).retired ≡ true)
          × ((k : Text) → lookup k m.active ≢ some a))

module _ (m : Manager) (v : IsKeyed m) (a : ℕ) (p : Placed m a) where
  add_pool-Placed :
      (id : Text) (account : RuntimeAccount)
      → lookup id m.active ≡ none
      → Placed (add_pool m id account) a
  unfolding add_pool
  add_pool-Placed id account e = record {
    allocated = omega (arith, p.allocated);
    place = elim p.place [
      | inl h ↦ inl (
          ground (
            arith,
            p.allocated,
            lookup-insert id (m.pools a).account_id m.next_pool m.active,
            text_eq_iff id (m.pools a).account_id,
          ))
      | inr (c, r, n) ↦ inr (
        c,
        ground (arith, p.allocated),
        λ k h. ground (arith, p.allocated, lookup-insert id k m.next_pool m.active, n k),
      )
    ];
  }

  replace_pool-Placed :
      (id : Text) (b : ℕ) (account : RuntimeAccount)
      → lookup id m.active ≡ some b
      → Placed (retire (add_pool m id account) b) a
  unfolding add_pool retire
  replace_pool-Placed id b account e = record {
    allocated = omega (arith, p.allocated);
    place = elim p.place [
      | inl h ↦ elim (Bool-cases (a == b)) [
        | inl same ↦ inr (
          ground (arith, count-append a m.retired (b ∷ []), count-cons a b [], count-nil a),
          ground (arith, p.allocated),
          λ k g. ground (
            arith,
            p.allocated,
            lookup-insert id k m.next_pool m.active,
            entry m k a v,
            entry m id b v e,
            text_eq_iff id k,
          ),
        )
        | inr other ↦ inl (
            ground (
              arith,
              p.allocated,
              lookup-insert id (m.pools a).account_id m.next_pool m.active,
              text_eq_iff id (m.pools a).account_id,
            ))
      ]
      | inr (c, r, n) ↦ inr (
        ground (arith, count-append a m.retired (b ∷ [])),
        ground (arith, p.allocated, n id),
        λ k h. ground (arith, p.allocated, lookup-insert id k m.next_pool m.active, n k),
      )
    ];
  }

  refresh-Placed :
      (id : Text) (b : ℕ) (account : RuntimeAccount)
      → lookup id m.active ≡ some b
      → Placed (record m { pools = put m.pools b (refreshed_pool (m.pools b) account) }) a
  unfolding refreshed_pool
  refresh-Placed id b account e = record {
    allocated = p.allocated;
    place = elim p.place [
      | inl h ↦ inl (ground arith)
      | inr (c, r, n) ↦ inr (c, ground (arith, n id), n)
    ];
  }

  sync_one-Placed : (id : Text) (account : RuntimeAccount) → Placed (sync_one m id account) a
  unfolding sync_one
  sync_one-Placed id account = elim (Option-cases (lookup id m.active)) [
    | inl e ↦ rw (e, sync_one) (add_pool-Placed id account e)
    | inr (b, e) ↦ elim (Bool-cases (text_eq (m.pools b).token account.token)) [
      | inl same ↦ rw (e, sync_one, same) (refresh-Placed id b account e)
      | inr other ↦ rw (e, sync_one, other) (replace_pool-Placed id b account e)
    ]
  ]

  drop_one-Placed :
      (desired : List (Text × RuntimeAccount)) (id : Text) (b : ℕ)
      → lookup id m.active ≡ some b
      → Placed (drop_one desired m id b) a
  unfolding drop_one retire
  drop_one-Placed desired id b h = elim (Option-cases (lookup id desired)) [
    | inr (x, e) ↦ rw (e, drop_one) p
    | inl e ↦
        rw (e, drop_one)
          (record {
            allocated = p.allocated;
            place = elim p.place [
              | inl g ↦ elim (Bool-cases (a == b)) [
                | inl same ↦ inr (
                  ground (arith, count-append a m.retired (b ∷ []), count-cons a b [], count-nil a),
                  ground arith,
                  λ k f. ground (
                    arith,
                    lookup-delete id k m.active,
                    entry m k a v,
                    entry m id b v h,
                    text_eq_iff id k,
                  ),
                )
                | inr other ↦ inl (
                    ground (
                      arith,
                      lookup-delete id (m.pools a).account_id m.active,
                      text_eq_iff id (m.pools a).account_id,
                      h,
                    ))
              ]
              | inr (c, r, n) ↦ inr (
                ground (arith, count-append a m.retired (b ∷ [])),
                ground arith,
                λ k f. ground (arith, lookup-delete id k m.active, n k),
              )
            ];
          })
  ]

-- The entries of a list are those of the active pools.
abbrev Current : Manager → Text × ℕ → Type 0
Current m e = lookup (e.0) m.active ≡ some (e.1)

sync_one-Unique :
    (m : Manager) (id : Text) (account : RuntimeAccount)
    → Unique m.active
    → Unique (sync_one m id account).active
unfolding sync_one add_pool retire
sync_one-Unique m id account u = elim (Option-cases (lookup id m.active)) [
  | inl e ↦ rw (e, sync_one) (Unique-insert id m.next_pool m.active u)
  | inr (b, e) ↦ elim (Bool-cases (text_eq (m.pools b).token account.token)) [
    | inl same ↦ rw (e, sync_one, same) u
    | inr other ↦ rw (e, sync_one, other) (Unique-insert id m.next_pool m.active u)
  ]
]

sync_all-Placed :
    (ds : List (Text × RuntimeAccount)) (m : Manager) (a : ℕ)
    → All Wanted ds
    → IsKeyed m
    → Unique m.active
    → Placed m a
    → Unique (sync_all m ds).active × Placed (sync_all m ds) a
unfolding sync_all
sync_all-Placed [] m a w v u p = (u, p)
sync_all-Placed ((id, account) ∷ ds) m a w v u p =
    sync_all-Placed ds (sync_one m id account) a w.1 (sync_one-IsKeyed m v id account w.0.0)
      (sync_one-Unique m id account u) (sync_one-Placed m v a p id account)

drop_one-Current :
    (desired : List (Text × RuntimeAccount)) (m : Manager) (id : Text) (b : ℕ) (l : List (Text × ℕ))
    → lookup id l ≡ none
    → All (Current m) l
    → All (Current (drop_one desired m id b)) l
unfolding drop_one retire lookup
drop_one-Current desired m id b [] n h = tt
drop_one-Current desired m id b ((k, c) ∷ l) n h = (
  ground (arith, lookup-delete id k m.active, text_eq_iff id k, text_eq_iff k id),
  drop_one-Current desired m id b l (ground arith) h.1,
)

drop_all-Placed :
    (desired : List (Text × RuntimeAccount)) (l : List (Text × ℕ)) (m : Manager) (a : ℕ)
    → Unique l
    → All (Current m) l
    → All (Entry m) l
    → IsKeyed m
    → Placed m a
    → Placed (drop_all desired m l) a
unfolding drop_all
drop_all-Placed desired [] m a u c h v p = p
drop_all-Placed desired ((id, b) ∷ l) m a u c h v p =
    let kept = drop_one-IsKeyed desired m id b l v h.1 in
    drop_all-Placed desired l (drop_one desired m id b) a u.1
      (drop_one-Current desired m id b l u.0 c.1) kept.1 kept.0
      (drop_one-Placed m v a p desired id b c.0)

found_later :
    (k : Text) (c : ℕ) (l part : List (Text × ℕ))
    → lookup k l ≡ none
    → All (λ e. lookup (e.0) l ≡ some (e.1)) part
    → All (λ e. lookup (e.0) ((k, c) ∷ l) ≡ some (e.1)) part
unfolding lookup
found_later k c l [] n h = tt
found_later k c l ((j, b) ∷ part) n h =
    (ground (arith, text_eq_iff k j, h.0), found_later k c l part n h.1)

found_own : (l : List (Text × ℕ)) → Unique l → All (λ e. lookup (e.0) l ≡ some (e.1)) l
found_own [] u = tt
found_own ((k, c) ∷ l) u =
    (unfold lookup in ground (arith, text_eq_refl k), found_later k c l l u.0 (found_own l u.1))

-- `SyncAccounts` loses no pool: one that was its account's active pool, or was retired, is after it
-- the active pool of its account, or on the retired list, marked as retired and no account's pool.
-- This holds for a manager whose active pools are filed under their accounts, each account once.
pub sync_accounts-Placed :
    (m : Manager) (accounts : List RuntimeAccount) (a : ℕ)
    → IsKeyed m
    → Unique m.active
    → Placed m a
    → Placed (sync_accounts m accounts) a
unfolding sync_accounts
sync_accounts-Placed m accounts a v u p =
    let desired = desire [] accounts in
    let w = desire-Wanted accounts [] tt tt in
    let m' = sync_all m desired in
    let q = sync_all-Placed desired m a w.1 v u p in
    let v' = (sync_all-active desired m [] v w.0 w.1).0 in
    drop_all-Placed desired m'.active m' a q.0 (found_own m'.active q.0) v' v' q.1
