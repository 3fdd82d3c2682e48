-- ===== src/Manager/Synced.antt =====
-- `SyncAccounts` as a whole, against its specification.
use freebuff2api.Base.{
  ℕ, ◌≤◌, ◌<◌, ◌≡◌, inl, inr, refl, ap, ◌∙◌, true, ◌&&◌, Option, none, some, List, [], ◌∷◌, arith,
  All, if◌then◌else◌, ℤ, is_positive, Text, text_eq, text_eq_iff, lookup, insert, lookup-insert,
  lookup-delete, All-delete, All-insert, is_positive-one, Unique, Unique-insert, Bool-cases,
  Option-cases,
}
use freebuff2api.Manager.{
  RuntimeAccount, Manager, positive_weight, is_usable, desire, retire, sync_all, drop_one, drop_all,
  sync_accounts,
}
use freebuff2api.Manager.Steps.{active_pool, Entry, IsKeyed, Entry-same, entry, retire-IsKeyed}
use freebuff2api.Manager.Sync.{Wanted, pool_after, sync_all-active}

-- The account that `SyncAccounts` is to have under a key: the last usable one in the list with that
-- identifier, its weight made positive.
abbrev pub with_weight : RuntimeAccount → RuntimeAccount
with_weight account = record account { weight = positive_weight account.weight }

unfoldable pub last_wanted :
    Text → List RuntimeAccount → Option RuntimeAccount → Option RuntimeAccount
last_wanted k [] so_far = so_far
last_wanted k (account ∷ rest) so_far =
    last_wanted k rest
      (if is_usable account && text_eq account.id k then some (with_weight account) else so_far)

positive_weight-is_positive : (w : ℤ) → is_positive (positive_weight w) ≡ true
unfolding positive_weight
positive_weight-is_positive w = ground (arith, is_positive-one)

pub desire-Wanted :
    (accounts : List RuntimeAccount) (d : List (Text × RuntimeAccount))
    → Unique d
    → All Wanted d
    → Unique (desire d accounts) × All Wanted (desire d accounts)
unfolding desire
desire-Wanted [] d u w = (u, w)
desire-Wanted (account ∷ rest) d u w = elim (Bool-cases (is_usable account)) [
  | inl usable ↦ rw usable (
      desire-Wanted rest (insert account.id (with_weight account) d)
        (Unique-insert account.id (with_weight account) d u)
        (All-insert Wanted account.id (with_weight account) d
          (refl, positive_weight-is_positive account.weight) w))
  | inr not_usable ↦ rw not_usable (desire-Wanted rest d u w)
]

lookup-desire :
    (k : Text) (accounts : List RuntimeAccount) (d : List (Text × RuntimeAccount))
    → lookup k (desire d accounts) ≡ last_wanted k accounts (lookup k d)
unfolding desire last_wanted
lookup-desire k [] d = refl
lookup-desire k (account ∷ rest) d = elim (Bool-cases (is_usable account)) [
  | inl usable ↦ rw usable (
      lookup-desire k rest (insert account.id (with_weight account) d)
      ∙ ap (last_wanted k rest) (lookup-insert account.id k (with_weight account) d))
  | inr not_usable ↦ rw not_usable (lookup-desire k rest d)
]

retire-next : (m : Manager) (a : ℕ) → m.next_pool ≤ (retire m a).next_pool
unfolding retire
retire-next m a = omega arith

retire-account :
    (m : Manager) (a b : ℕ)
    → b < m.next_pool
    → ((retire m a).pools b).account_id ≡ (m.pools b).account_id
unfolding retire
retire-account m a b h = ground arith

lookup-desired :
    (k : Text) (accounts : List RuntimeAccount)
    → lookup k (desire [] accounts) ≡ last_wanted k accounts none
unfolding lookup
lookup-desired k accounts = lookup-desire k accounts []

module _ (desired : List (Text × RuntimeAccount)) where
  drop_one-active :
      (m : Manager) (id k : Text) (a : ℕ)
      → IsKeyed m
      → (m.pools a).account_id ≡ id
      → active_pool (drop_one desired m id a) k ≡ elim (lookup id desired) [
        | some _ ↦ active_pool m k
        | none ↦ if text_eq id k then none else active_pool m k
      ]
  unfolding drop_one retire
  drop_one-active m id k a v h = elim (Option-cases (lookup id desired)) [
    | inl e ↦ elim (Option-cases (lookup k m.active)) [
      | inl f ↦ rw (e, drop_one) (ground (arith, lookup-delete id k m.active))
      | inr (c, f) ↦
          rw (e, drop_one)
            (ground (arith, lookup-delete id k m.active, entry m k c v f, text_eq_iff id k))
    ]
    | inr (x, e) ↦ rw (e, drop_one) refl
  ]

  pub drop_one-IsKeyed :
      (m : Manager) (id : Text) (a : ℕ) (l : List (Text × ℕ))
      → IsKeyed m
      → All (Entry m) l
      → IsKeyed (drop_one desired m id a) × All (Entry (drop_one desired m id a)) l
  unfolding drop_one retire
  drop_one-IsKeyed m id a l v h = elim (Option-cases (lookup id desired)) [
    | inl e ↦
        rw (e, drop_one)
          (
            All-delete (Entry (retire m a)) id m.active (retire-IsKeyed m v a),
            Entry-same m (retire m a) l (retire-next m a) (retire-account m a) h,
          )
    | inr (x, e) ↦ rw (e, drop_one) (v, h)
  ]

  drop_all-active :
      (k : Text) (l : List (Text × ℕ)) (m : Manager)
      → IsKeyed m
      → All (Entry m) l
      → active_pool (drop_all desired m l) k ≡ elim (lookup k desired) [
        | some _ ↦ active_pool m k
        | none ↦ elim (lookup k l) [ none ↦ active_pool m k | some _ ↦ none ]
      ]
  unfolding drop_all lookup
  drop_all-active k [] m v h = ground arith
  drop_all-active k ((id, a) ∷ l) m v h =
      let kept = drop_one-IsKeyed m id a l v h.1 in
      let ih = drop_all-active k l (drop_one desired m id a) kept.0 kept.1 in
      let now = drop_one-active m id k a v h.0.1 in
      elim (Bool-cases (text_eq id k)) [
        | inl same ↦ ground (arith, ih, now, text_eq_iff id k)
        | inr other ↦ ground (arith, ih, now)
      ]

  drop_all-IsKeyed :
      (l : List (Text × ℕ)) (m : Manager)
      → IsKeyed m
      → All (Entry m) l
      → IsKeyed (drop_all desired m l)
  unfolding drop_all
  drop_all-IsKeyed [] m v h = v
  drop_all-IsKeyed ((id, a) ∷ l) m v h =
      let kept = drop_one-IsKeyed m id a l v h.1 in
      drop_all-IsKeyed l (drop_one desired m id a) kept.0 kept.1

-- In a manager whose active pools are allocated and filed under their accounts, `SyncAccounts` keeps
-- that so, and leaves under each key what the last usable account of the list with that identifier
-- asks for: nothing without such an account; the pool that was there, with the account's label,
-- priority and weight and not retired, when it has the account's token; and else a new pool.
pub sync_accounts-Synced :
    (m : Manager) (accounts : List RuntimeAccount) (k : Text)
    → IsKeyed m
    → IsKeyed (sync_accounts m accounts)
      × (active_pool (sync_accounts m accounts) k
          ≡ pool_after (last_wanted k accounts none) m.interval (active_pool m k) none)
unfolding sync_accounts
sync_accounts-Synced m accounts k v =
    let desired = desire [] accounts in
    let w = desire-Wanted accounts [] tt tt in
    let s = sync_all-active desired m k v w.0 w.1 in
    let m' = sync_all m desired in
    (
      drop_all-IsKeyed desired m'.active m' s.0 s.0,
      drop_all-active desired k m'.active m' s.0 s.0 ∙ elim (Option-cases (lookup k desired)) [
        | inl e ↦ ground (arith, s.1, lookup-desired k accounts)
        | inr (account, e) ↦ ground (arith, s.1, lookup-desired k accounts)
      ],
    )
