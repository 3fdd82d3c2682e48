-- ===== src/Order.antt =====
-- run_manager.go, `groupPoolsByPriority` and `weightedPoolOrder`: in which order a request tries the
-- pools. A `*tokenPool` is an address, `view` what stands there. `sort.Slice` is insertion sort, as it
-- is in Go for at most twelve entries; the order of equal entries is left open there.
pub mod Cycle
pub mod Weighted
pub mod Keys
pub mod Groups
mod Tests
use freebuff2api.Base.{
  ℕ, zero, suc, ◌+◌, ◌%◌, ◌≤◌, ◌≡◌, Bool, true, false, ◌&&◌, ◌||◌, not, Option, none, some, List,
  [], ◌∷◌, ◌++◌, ltb, leb, ◌==◌, if◌then◌else◌, ℤ, eq_int, lt_int, is_positive, to_nat, text_lt,
  length, get_elem?, replicate, count,
}
use freebuff2api.Pool.{Pool}

-- How often a pool stands in the expanded list.
unfoldable pub repeat_of : Pool → ℕ
repeat_of p = if is_positive p.weight then to_nat p.weight else 1

-- A pool that the loop of `weightedPoolOrder` meets again is skipped.
unfoldable pub keep_new : Bool → ℕ → Option (List ℕ) → Option (List ℕ)
keep_new seen a none = none
keep_new seen a (some rest) = some (if seen then rest else a ∷ rest)

-- The loop over `offset`, at the position `start + offset`; `none` is an index out of range.
unfoldable pub walk : List ℕ → ℕ → ℕ → List ℕ → Option (List ℕ)
walk expanded position zero seen = some []
walk expanded position (suc left) seen = elim (get_elem? expanded (position % length expanded)) [
  | none ↦ none
  | some a ↦
      let met = ltb 0 (count a seen) in
      let rest = walk expanded (suc position) left (if met then seen else a ∷ seen) in
      keep_new met a rest
]

-- What `groupPoolsByPriority` adds a pool to: the group of its priority, or a new one.
unfoldable pub add_to_group : ℤ → ℕ → List (ℤ × List ℕ) → List (ℤ × List ℕ)
add_to_group q a [] = (q, a ∷ []) ∷ []
add_to_group q a ((q', g) ∷ rest) =
    let later = add_to_group q a rest in
    if eq_int q' q then (q', g ++ a ∷ []) ∷ rest else (q', g) ∷ later

-- Groups by falling priority.
unfoldable pub insert_group : ℤ × List ℕ → List (ℤ × List ℕ) → List (ℤ × List ℕ)
insert_group g [] = g ∷ []
insert_group g (h ∷ rest) =
    let later = insert_group g rest in if lt_int g.0 h.0 then h ∷ later else g ∷ h ∷ rest

unfoldable pub sort_groups : List (ℤ × List ℕ) → List (ℤ × List ℕ)
sort_groups [] = []
sort_groups (g ∷ rest) = insert_group g (sort_groups rest)

module _ (view : ℕ → Pool) where
  unfoldable pub expand : List ℕ → List ℕ
  expand [] = []
  expand (a ∷ rest) = replicate (repeat_of (view a)) a ++ expand rest

  -- `weightedPoolOrder`
  unfoldable pub weighted_pool_order : List ℕ → ℕ → Option (List ℕ)
  weighted_pool_order pools seed =
      if leb (length pools) 1
      then some pools
      else let expanded = expand pools in
        if length expanded == 0
        then some pools
        else walk expanded (seed % length expanded) (length expanded) []

  unfoldable pub collect : List (ℤ × List ℕ) → List ℕ → List (ℤ × List ℕ)
  collect groups [] = groups
  collect groups (a ∷ rest) = collect (add_to_group (view a).priority a groups) rest

  -- By falling weight, and equal weights by label.
  unfoldable pub before : ℕ → ℕ → Bool
  before a b =
      if not (eq_int (view a).weight (view b).weight)
      then lt_int (view b).weight (view a).weight
      else text_lt (view a).label (view b).label

  unfoldable pub insert_pool : ℕ → List ℕ → List ℕ
  insert_pool a [] = a ∷ []
  insert_pool a (b ∷ rest) =
      let later = insert_pool a rest in if before b a then b ∷ later else a ∷ b ∷ rest

  unfoldable pub sort_pools : List ℕ → List ℕ
  sort_pools [] = []
  sort_pools (a ∷ rest) = insert_pool a (sort_pools rest)

  unfoldable pub sort_each : List (ℤ × List ℕ) → List (List ℕ)
  sort_each [] = []
  sort_each ((q, g) ∷ rest) = sort_pools g ∷ sort_each rest

  -- `groupPoolsByPriority`
  unfoldable pub group_pools_by_priority : List ℕ → List (List ℕ)
  group_pools_by_priority pools = sort_each (sort_groups (collect [] pools))
