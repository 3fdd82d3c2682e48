-- ===== src/Dispatch/Tried.antt =====
-- What a request has tried when `Acquire` gives up.
use freebuff2api.Base.{
  ℕ, ◌+◌, ◌%◌, ◌≤◌, ◌<◌, ◌≡◌, inl, inr, sym, subst, Bool, true, false, Option, some, List, [], ◌∷◌,
  ◌++◌, arith, All, Text, count, count-append, count-cons, count-nil, Bool-cases, Option-cases,
  List-cases, ltb, ap,
}
use mathlib.Core.List.{append_assoc}
use freebuff2api.Errors.{Error, ok, fail}
use freebuff2api.Pool.{run_addresses, Pool}
use freebuff2api.FreeSession.{has_ready_session}
use freebuff2api.Lease.{acquire}
use freebuff2api.Order.{weighted_pool_order, group_pools_by_priority}
use freebuff2api.Order.Weighted.{weighted_pool_order-perm}
use freebuff2api.Order.Groups.{flatten, group_pools-Layered}
use freebuff2api.Manager.{Manager, put}
use freebuff2api.Dispatch.{
  TryEnv, Try, skipped, refused, failed, skips, pass_loop, group_loop, acquire_any,
}
use freebuff2api.Dispatch.Log.{
  was_refused-append, was_skipped-append, Met, Attempted, Fails, Fails-weaken, noting-Fails,
  or_else-Fails,
}

module _ (agent : Text) (envs : ℕ → Bool → TryEnv) where
  -- A pass that fails has met each of its pools.
  AllMet : Bool → List ℕ → List Try → Type 0
  AllMet second pools log = (b : ℕ) → 0 < count b pools → Met second b log

  met_skip :
      (second ready : Bool)
      → skips second ready ≡ true
      → (a : ℕ) (rest : List ℕ) (log : List Try) → AllMet second rest log
      → AllMet second (a ∷ rest) (skipped a second ready ∷ log)
  unfolding AllMet
  met_skip true ready e a rest log h b n = ground (arith, count-cons b a rest, h b)
  met_skip false ready e a rest log h b n = ground (arith, count-cons b a rest, h b)

  met_refusal :
      (second : Bool) (a : ℕ) (rest : List ℕ) (e : Error) (log : List Try)
      → AllMet second rest log
      → AllMet second (a ∷ rest) (refused a e ∷ log)
  unfolding AllMet
  met_refusal second a rest e log h b n = ground (arith, count-cons b a rest, h b)

  met_none : (second : Bool) → AllMet second [] []
  unfolding AllMet
  met_none second b n = ground (arith, count-nil b)

  -- A round of a pass, for what the later rounds do.
  pass_step :
      (m : Manager) (second : Bool) (a : ℕ) (rest : List ℕ)
      → ((m' : Manager) → Fails (AllMet second rest) (pass_loop m' agent second rest envs))
      → Fails (AllMet second (a ∷ rest)) (pass_loop m agent second (a ∷ rest) envs)
  unfolding pass_loop
  pass_step m second a rest ih =
      let env = envs a second in
      let p = env.meets (m.pools a) in
      elim (Bool-cases (skips second (has_ready_session p env.ready_at))) [
        | inl skip ↦
            rw (pass_loop, skip)
              (noting-Fails (AllMet second rest) (AllMet second (a ∷ rest))
                (skipped a second (has_ready_session p env.ready_at)) _
                (ih (record m { pools = put m.pools a p }))
                (met_skip second (has_ready_session p env.ready_at) skip a rest))
        | inr enter ↦ elim (Option-cases (acquire p agent env.acquiring)) [
          | inl never ↦ rw (pass_loop, enter, never) tt
          | inr ((q, ok r), e) ↦ rw (pass_loop, enter, e) tt
          | inr ((q, fail why), e) ↦
              rw (pass_loop, enter, e)
                (noting-Fails (AllMet second rest) (AllMet second (a ∷ rest)) (refused a why) _
                  (ih (record m { pools = put m.pools a q })) (met_refusal second a rest why))
        ]
      ]

  pass_loop-Met :
      (pools : List ℕ) (m : Manager) (second : Bool)
      → Fails (AllMet second pools) (pass_loop m agent second pools envs)
  unfolding pass_loop
  pass_loop-Met [] m second = met_none second
  pass_loop-Met (a ∷ rest) m second = pass_step m second a rest (λ m'. pass_loop-Met rest m' second)

  -- A search of groups that fails has attempted each of their pools.
  AllTried : List ℕ → List Try → Type 0
  AllTried pools log = (b : ℕ) → 0 < count b pools → Attempted b log

  tried_both : (b : ℕ) (l k : List Try) → Met false b l → Met true b k → Attempted b (l ++ k)
  tried_both b l k g h = ground (
    arith,
    was_refused-append b l k,
    was_skipped-append b false l k,
    was_skipped-append b true l k,
  )

  tried_more : (b : ℕ) (l k : List Try) → Attempted b l → Attempted b (l ++ k)
  tried_more b l k h = ground (
    arith,
    was_refused-append b l k,
    was_skipped-append b false l k,
    was_skipped-append b true l k,
  )

  tried_later : (b : ℕ) (l k : List Try) → Attempted b k → Attempted b (l ++ k)
  tried_later b l k h = ground (
    arith,
    was_refused-append b l k,
    was_skipped-append b false l k,
    was_skipped-append b true l k,
  )

  -- The passes over a group, and the groups after it.
  tried_group :
      (g h : List ℕ) (pools : List ℕ) (l k r : List Try)
      → ((b : ℕ) → count b pools ≡ count b g)
      → AllMet false pools l
      → AllMet true pools k
      → AllTried h r
      → AllTried (g ++ h) (l ++ (k ++ r))
  unfolding AllMet AllTried
  tried_group g h pools l k r same first second later b n = elim (Bool-cases (ltb 0 (count b g))) [
    | inl here ↦ subst (Attempted b) (append_assoc l k r) (
        tried_more b (l ++ k) r
          (tried_both b l k (first b (ground (arith, same b))) (second b (ground (arith, same b)))))
    | inr absent ↦
        tried_later b l (k ++ r) (tried_later b k r (later b (ground (arith, count-append b g h))))
  ]

  all_tried :
      (g pools : List ℕ)
      → ((b : ℕ) → count b pools ≡ count b g)
      → (log : List Try) → AllTried g log
      → (b : ℕ) → 0 < count b pools
      → Attempted b log
  unfolding AllTried
  all_tried g pools same log h b n = h b (ground (arith, same b))

  tried_none : AllTried [] []
  unfolding AllTried
  tried_none b n = ground (arith, count-nil b)

  module _ (order : List ℕ → Option (List ℕ)) where
    abbrev Orders : List ℕ → Type 0
    Orders g = (pools : List ℕ) × (order g ≡ some pools) × ((b : ℕ) → count b pools ≡ count b g)

    -- What a group's second pass and the later groups add to its first.
    abbrev Rest : List ℕ → List (List ℕ) → List ℕ → List Try → Type 0
    Rest g rest pools k =
        (l : List Try) → AllMet false pools l → AllTried (g ++ flatten rest) (l ++ k)

    group_loop-Tried :
        (gs : List (List ℕ)) (m : Manager)
        → All Orders gs
        → Fails (AllTried (flatten gs)) (group_loop order m agent gs envs)
    unfolding group_loop
    group_loop-Tried [] m h = tried_none
    group_loop-Tried (g ∷ rest) m h =
        let o = h.0 in
        rw (group_loop, o.1)
          (or_else-Fails (AllMet false (o.0)) (Rest g rest (o.0)) (AllTried (g ++ flatten rest)) _ _
            (pass_loop-Met o.0 m false)
            (λ m₁.
              or_else-Fails (AllMet true (o.0)) (AllTried (flatten rest)) (Rest g rest (o.0)) _ _
                (pass_loop-Met o.0 m₁ true) (λ m₂. group_loop-Tried rest m₂ h.1)
                (λ k r s t l f. tried_group g (flatten rest) o.0 l k r o.2 f s t))
            (λ l k f t. t l f))

-- Each group's pools are pairwise different when all are.
groups_ordered :
    (view : ℕ → Pool) (seed : ℕ) (gs : List (List ℕ))
    → ((b : ℕ) → count b (flatten gs) ≤ 1)
    → All
        (λ g.
          (pools : List ℕ) × (weighted_pool_order view g seed ≡ some pools)
          × ((b : ℕ) → count b pools ≡ count b g))
        gs
groups_ordered view seed [] h = tt
groups_ordered view seed (g ∷ rest) h = (
  weighted_pool_order-perm view g seed (λ b. omega (arith, h b, count-append b g (flatten rest))),
  groups_ordered view seed rest (λ b. omega (arith, h b, count-append b g (flatten rest))),
)

acquire_any-Fails :
    (m : Manager) (agent : Text) (envs : ℕ → Bool → TryEnv)
    → ((b : ℕ) → count b (run_addresses m.active) ≤ 1)
    → Fails
        (λ log. (b : ℕ) → 0 < count b (run_addresses m.active) → Attempted b log)
        (acquire_any m agent envs)
unfolding acquire_any
acquire_any-Fails m agent envs h = elim (List-cases (run_addresses m.active)) [
  | inl e ↦ rw (acquire_any, e) tt
  | inr (a, others, e) ↦
      let groups = group_pools_by_priority m.pools (a ∷ others) in
      let covered = group_pools-Layered m.pools (a ∷ others) in
      rw (acquire_any, e)
        (Fails-weaken (AllTried agent envs (flatten groups)) _ _
          (group_loop-Tried agent envs (λ g. weighted_pool_order m.pools g m.next) groups
            (record m { next = (m.next + 1) % 18446744073709551616 })
            (groups_ordered m.pools m.next groups
              (λ b. ground (arith, covered.1 b, h b, ap (count b) e))))
          (all_tried agent envs (flatten groups) (a ∷ others) (λ b. sym (covered.1 b))))
]

-- When `Acquire` gives up, each of the pools, which are pairwise different, has refused a lease, or
-- has been passed over twice: it had no ready session when the first pass came by, and had one when
-- the second did.
pub acquire_any-Attempted :
    (m m' : Manager) (agent : Text) (envs : ℕ → Bool → TryEnv) (log : List Try) (a : ℕ)
    → ((b : ℕ) → count b (run_addresses m.active) ≤ 1)
    → acquire_any m agent envs ≡ failed m' log
    → 0 < count a (run_addresses m.active)
    → Attempted a log
acquire_any-Attempted m m' agent envs log a distinct e n =
    subst (Fails (λ l. (b : ℕ) → 0 < count b (run_addresses m.active) → Attempted b l)) e
      (acquire_any-Fails m agent envs distinct) a n
