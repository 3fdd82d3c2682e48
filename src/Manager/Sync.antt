-- ===== src/Manager/Sync.antt =====
-- `SyncAccounts` against its specification: what pool each account has afterwards.
use freebuff2api.Base.{
  ℕ, ◌≡◌, ◌≢◌, inl, inr, refl, true, Option, none, some, List, [], ◌∷◌, arith, All, if◌then◌else◌,
  is_positive, Text, text_eq, text_eq_iff, lookup, lookup-insert, Unique, Bool-cases, Option-cases,
}
use freebuff2api.Pool.{Pool}
use freebuff2api.Manager.{
  RuntimeAccount, Manager, retire, add_pool, sync_one, sync_all, refreshed_pool,
}
use freebuff2api.Manager.Steps.{
  active_pool, synced, IsKeyed, entry, add_pool-active, add_pool-IsKeyed, retire-IsKeyed,
  retire-active, refresh-IsKeyed, refresh-active,
}

module _ (m : Manager) (v : IsKeyed m) (id : Text) (account : RuntimeAccount)
    (filed : account.id ≡ id) where
  pub sync_one-IsKeyed : IsKeyed (sync_one m id account)
  unfolding sync_one
  sync_one-IsKeyed = elim (Option-cases (lookup id m.active)) [
    | inl e ↦ rw (e, sync_one) (add_pool-IsKeyed m v id account filed)
    | inr (a, e) ↦ elim (Bool-cases (text_eq (m.pools a).token account.token)) [
      | inl same ↦ rw (e, sync_one, same) (refresh-IsKeyed m v a account)
      | inr other ↦
          rw (e, sync_one, other)
            (retire-IsKeyed (add_pool m id account) (add_pool-IsKeyed m v id account filed) a)
    ]
  ]

  -- After the new pool is filed, the old one is no account's.
  replaced :
      (a : ℕ) (k : Text)
      → lookup id m.active ≡ some a
      → lookup k (add_pool m id account).active ≢ some a
  unfolding add_pool
  replaced a k e h = elim (Option-cases (lookup k m.active)) [
    | inl f ↦ ground (arith, lookup-insert id k m.next_pool m.active, entry m id a v e)
    | inr (c, f) ↦ ground (
      arith,
      lookup-insert id k m.next_pool m.active,
      entry m id a v e,
      entry m k c v f,
      text_eq_iff id k,
    )
  ]

  sync_one-active :
      (k : Text)
      → active_pool (sync_one m id account) k ≡ (
          if text_eq id k
          then some (synced m.interval (active_pool m id) account)
          else active_pool m k)
  unfolding sync_one refreshed_pool
  sync_one-active k = elim (Option-cases (lookup id m.active)) [
    | inl e ↦ rw (e, sync_one) (ground (arith, add_pool-active m v id k account))
    | inr (a, e) ↦ elim (Bool-cases (text_eq (m.pools a).token account.token)) [
      | inl same ↦ rw (e, sync_one, same) (ground (arith, refresh-active m v id k a account e))
      | inr other ↦
          rw (e, sync_one, other)
            (ground (
              arith,
              retire-active (add_pool m id account) (add_pool-IsKeyed m v id account filed) a k
                  (replaced a k e),
              add_pool-active m v id k account,
            ))
    ]
  ]

  sync_one-interval : (sync_one m id account).interval ≡ m.interval
  unfolding sync_one add_pool retire
  sync_one-interval = ground arith

-- An entry of `desired`: filed under its account, with a positive weight.
abbrev pub Wanted : Text × RuntimeAccount → Type 0
Wanted e = (e.1.id ≡ e.0) × (is_positive e.1.weight ≡ true)

-- What becomes of an account's pool that may or may not be asked for.
abbrev pub pool_after : Option RuntimeAccount → ℕ → Option Pool → Option Pool → Option Pool
pool_after none interval p unasked = unasked
pool_after (some account) interval p unasked = some (synced interval p account)

sync_all-step :
    (ds : List (Text × RuntimeAccount)) (m : Manager) (k id : Text) (account : RuntimeAccount)
    → IsKeyed m
    → Unique ((id, account) ∷ ds)
    → All Wanted ((id, account) ∷ ds)
    → IsKeyed (sync_all (sync_one m id account) ds)
      × (active_pool (sync_all (sync_one m id account) ds) k
          ≡ pool_after
              (lookup k ds)
              (sync_one m id account).interval
              (active_pool (sync_one m id account) k)
              (active_pool (sync_one m id account) k))
    → IsKeyed (sync_all m ((id, account) ∷ ds))
      × (active_pool (sync_all m ((id, account) ∷ ds)) k
          ≡ pool_after
              (lookup k ((id, account) ∷ ds))
              m.interval
              (active_pool m k)
              (active_pool m k))
unfolding sync_all lookup
sync_all-step ds m k id account v u w ih = elim (Bool-cases (text_eq id k)) [
  | inl same ↦ (
    ih.0,
    rw same (ground (arith, sync_one-active m v id account w.0.0 k, text_eq_iff id k, u.0, ih.1)),
  )
  | inr other ↦ (
    ih.0,
    rw other (
        ground (
          arith,
          sync_one-active m v id account w.0.0 k,
          sync_one-interval m v id account w.0.0,
          ih.1,
        )),
  )
]

pub sync_all-active :
    (ds : List (Text × RuntimeAccount)) (m : Manager) (k : Text)
    → IsKeyed m
    → Unique ds
    → All Wanted ds
    → IsKeyed (sync_all m ds)
      × (active_pool (sync_all m ds) k
          ≡ pool_after (lookup k ds) m.interval (active_pool m k) (active_pool m k))
unfolding sync_all lookup
sync_all-active [] m k v u w = (v, refl)
sync_all-active ((id, account) ∷ ds) m k v u w =
    sync_all-step ds m k id account v u w
      (sync_all-active ds (sync_one m id account) k (sync_one-IsKeyed m v id account w.0.0) u.1 w.1)
