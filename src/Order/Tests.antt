-- ===== src/Order/Tests.antt =====
-- The order of the pools at concrete inputs.
use freebuff2api.Base.{
  ◌+◌, ◌≤◌, ℕ, ◌≤◌, ◌≡◌, ◌<◌, refl, some, List, [], ◌∷◌, ◌==◌, if◌then◌else◌, pos, codes, length,
  count, count-cons, arith,
}
use freebuff2api.Pool.{Pool}
use freebuff2api.Pool.Tests.{pool}
use freebuff2api.Order.{
  weighted_pool_order, group_pools_by_priority, expand, repeat_of, walk, keep_new,
}
use freebuff2api.Order.Weighted.{times_first, weighted_pool_order-perm, weighted_pool_order-fair}
use freebuff2api.Order.Groups.{Layered, flatten, group_pools-Layered}

-- Pools of the weights 2 and 1, and one of a lower priority.
view : ℕ → Pool
view a =
    if a == 0
    then record pool { weight = pos 2; priority = pos 5; label = codes "a" }
    else if a == 1
    then record pool { priority = pos 5; label = codes "b" }
    else record pool { label = codes "c" }

abbrev pools : List ℕ
pools = 0 ∷ 1 ∷ []

pools-distinct : (b : ℕ) → count b pools ≤ 1
unfolding count
pools-distinct b = ground arith

weighted_pool_order_test : weighted_pool_order view pools 5 ≡ some (1 ∷ 0 ∷ [])
unfolding weighted_pool_order expand repeat_of walk keep_new count view
weighted_pool_order_test = refl

weighted_pool_order-perm_example :
    (order : List ℕ) × (weighted_pool_order view pools 5 ≡ some order)
    × ((b : ℕ) → count b order ≡ count b pools)
weighted_pool_order-perm_example = weighted_pool_order-perm view pools 5 pools-distinct

weighted_pool_order-fair_example : times_first view pools 0 7 (length (expand view pools)) ≡ 2
unfolding repeat_of view
weighted_pool_order-fair_example =
    weighted_pool_order-fair view pools 0 7 pools-distinct member fits
  where
    member : 0 < count 0 pools
    member = ground (arith, count-cons 0 0 (1 ∷ []))

    fits : 7 + length (expand view pools) ≤ 18446744073709551616
    fits = unfold expand repeat_of view in omega arith

group_pools-Layered_example :
    Layered view (group_pools_by_priority view (2 ∷ 0 ∷ 1 ∷ []))
    × ((b : ℕ)
        → count b (flatten (group_pools_by_priority view (2 ∷ 0 ∷ 1 ∷ [])))
          ≡ count b (2 ∷ 0 ∷ 1 ∷ []))
group_pools-Layered_example = group_pools-Layered view (2 ∷ 0 ∷ 1 ∷ [])
