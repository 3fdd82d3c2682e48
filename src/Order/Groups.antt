-- ===== src/Order/Groups.antt =====
-- `groupPoolsByPriority`: every pool stands in one group, and higher priorities come first.
use freebuff2api.Base.{
  ℕ, ◌+◌, ◌≡◌, refl, sym, inl, inr, true, List, [], ◌∷◌, ◌++◌, arith, count, count-append,
  count-cons, count-nil, Bool-cases, ℤ, eq_int, lt_int, eq_int_iff, All, All-append,
}
use freebuff2api.Pool.{Pool}
use freebuff2api.Order.{
  add_to_group, sort_groups, collect, insert_pool, sort_pools, sort_each, group_pools_by_priority,
  before,
}
use freebuff2api.Order.Keys.{
  Falling, Apart, members, add_to_group-Apart, count-add_to_group, sort_groups-All,
  sort_groups-Falling, count-sort_groups,
}

abbrev pub flatten : List (List ℕ) → List ℕ
flatten [] = []
flatten (g ∷ rest) = g ++ flatten rest

module _ (view : ℕ → Pool) where
  -- All pools of a group have its priority.
  abbrev Uniform : ℤ × List ℕ → Type 0
  Uniform g = All (λ a. (view a).priority ≡ g.0) g.1

  -- Each group has one priority, and all later groups have lower ones.
  abbrev pub Layered : List (List ℕ) → Type 0
  Layered [] = Unit
  Layered (g ∷ rest) =
      ((q : ℤ) × All (λ a. (view a).priority ≡ q) g
        × All (λ h. All (λ b. lt_int (view b).priority q ≡ true) h) rest)
      × Layered rest

  add_to_group-Uniform :
      (a : ℕ) (gs : List (ℤ × List ℕ))
      → All Uniform gs
      → All Uniform (add_to_group (view a).priority a gs)
  unfolding add_to_group
  add_to_group-Uniform a [] u = ((refl, tt), tt)
  add_to_group-Uniform a ((q, g) ∷ rest) u = elim (Bool-cases (eq_int q (view a).priority)) [
    | inl same ↦
        rw same
          (All-append _ g (a ∷ []) u.0 (sym ((eq_int_iff q (view a).priority).0 same), tt), u.1)
    | inr other ↦ rw other (u.0, add_to_group-Uniform a rest u.1)
  ]

  collect-Apart :
      (gs : List (ℤ × List ℕ)) (pools : List ℕ) → Apart gs → Apart (collect view gs pools)
  unfolding collect
  collect-Apart gs [] h = h
  collect-Apart gs (a ∷ rest) h =
      collect-Apart (add_to_group (view a).priority a gs) rest
        (add_to_group-Apart (view a).priority a gs h)

  collect-Uniform :
      (gs : List (ℤ × List ℕ)) (pools : List ℕ)
      → All Uniform gs
      → All Uniform (collect view gs pools)
  unfolding collect
  collect-Uniform gs [] u = u
  collect-Uniform gs (a ∷ rest) u =
      collect-Uniform (add_to_group (view a).priority a gs) rest (add_to_group-Uniform a gs u)

  count-collect :
      (b : ℕ) (gs : List (ℤ × List ℕ)) (pools : List ℕ)
      → count b (members (collect view gs pools)) ≡ count b (members gs) + count b pools
  unfolding collect
  count-collect b gs [] = omega (arith, count-nil b)
  count-collect b gs (a ∷ rest) = ground (
    arith,
    count-collect b (add_to_group (view a).priority a gs) rest,
    count-add_to_group b (view a).priority a gs,
    count-cons b a rest,
    count-cons b a [],
    count-nil b,
  )

  insert_pool-All :
      (P : ℕ → Type 0) (a : ℕ) (g : List ℕ) → P a → All P g → All P (insert_pool view a g)
  unfolding insert_pool
  insert_pool-All P a [] h k = (h, tt)
  insert_pool-All P a (b ∷ rest) h k = elim (Bool-cases (before view b a)) [
    | inl earlier ↦ rw earlier (k.0, insert_pool-All P a rest h k.1)
    | inr later ↦ rw later (h, k)
  ]

  sort_pools-All : (P : ℕ → Type 0) (g : List ℕ) → All P g → All P (sort_pools view g)
  unfolding sort_pools
  sort_pools-All P [] k = tt
  sort_pools-All P (a ∷ rest) k =
      insert_pool-All P a (sort_pools view rest) k.0 (sort_pools-All P rest k.1)

  count-insert_pool : (b a : ℕ) (g : List ℕ) → count b (insert_pool view a g) ≡ count b (a ∷ g)
  unfolding insert_pool
  count-insert_pool b a [] = refl
  count-insert_pool b a (x ∷ rest) = ground (
    arith,
    count-insert_pool b a rest,
    count-cons b x (insert_pool view a rest),
    count-cons b a (x ∷ rest),
    count-cons b x rest,
    count-cons b a rest,
  )

  count-sort_pools : (b : ℕ) (g : List ℕ) → count b (sort_pools view g) ≡ count b g
  unfolding sort_pools
  count-sort_pools b [] = refl
  count-sort_pools b (a ∷ rest) = ground (
    arith,
    count-insert_pool b a (sort_pools view rest),
    count-cons b a (sort_pools view rest),
    count-cons b a rest,
    count-sort_pools b rest,
  )

  count-sort_each :
      (b : ℕ) (gs : List (ℤ × List ℕ))
      → count b (flatten (sort_each view gs)) ≡ count b (members gs)
  unfolding sort_each
  count-sort_each b [] = refl
  count-sort_each b ((q, g) ∷ rest) = omega (
    arith,
    count-append b (sort_pools view g) (flatten (sort_each view rest)),
    count-append b g (members rest),
    count-sort_pools b g,
    count-sort_each b rest,
  )

  lower-All :
      (q k : ℤ) (g : List ℕ)
      → lt_int k q ≡ true
      → All (λ a. (view a).priority ≡ k) g
      → All (λ b. lt_int (view b).priority q ≡ true) g
  lower-All q k [] h u = tt
  lower-All q k (a ∷ rest) h u = (rw (u.0) h, lower-All q k rest h u.1)

  lower-sort_each :
      (q : ℤ) (gs : List (ℤ × List ℕ))
      → All (λ h. lt_int h.0 q ≡ true) gs
      → All Uniform gs
      → All (λ h. All (λ b. lt_int (view b).priority q ≡ true) h) (sort_each view gs)
  unfolding sort_each
  lower-sort_each q [] f u = tt
  lower-sort_each q ((k, g) ∷ rest) f u =
      (sort_pools-All _ g (lower-All q k g f.0 u.0), lower-sort_each q rest f.1 u.1)

  sort_each-Layered :
      (gs : List (ℤ × List ℕ)) → Falling gs → All Uniform gs → Layered (sort_each view gs)
  unfolding sort_each
  sort_each-Layered [] f u = tt
  sort_each-Layered ((q, g) ∷ rest) f u =
      ((q, sort_pools-All _ g u.0, lower-sort_each q rest f.0 u.1), sort_each-Layered rest f.1 u.1)

  -- The groups hold the given pools, each as often as it was given. Within a group all have one
  -- priority, and every pool of a later group has a lower one.
  pub group_pools-Layered :
      (pools : List ℕ)
      → Layered (group_pools_by_priority view pools)
        × ((b : ℕ) → count b (flatten (group_pools_by_priority view pools)) ≡ count b pools)
  unfolding group_pools_by_priority
  group_pools-Layered pools = (
    sort_each-Layered (sort_groups gs) (sort_groups-Falling gs (collect-Apart [] pools tt))
        (sort_groups-All Uniform gs (collect-Uniform [] pools tt)),
    λ b. omega (
      arith,
      count-sort_each b (sort_groups gs),
      count-sort_groups b gs,
      count-collect b [] pools,
      count-nil b,
    ),
  )
    where
      gs : List (ℤ × List ℕ)
      gs = collect view [] pools
