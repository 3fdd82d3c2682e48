-- ===== src/Order/Weighted.antt =====
-- `weightedPoolOrder` tries every pool once, and gives each the first place as often as its weight
-- says.
use freebuff2api.Base.{
  ◌+◌, ℕ, zero, suc, ◌%◌, ◌≤◌, ◌<◌, ◌≡◌, refl, sym, ap, ◌∙◌, inl, inr, false, Option, none, some,
  List, [], ◌∷◌, ◌++◌, arith, ltb, leb, if◌then◌else◌, length, replicate, count, count-append,
  count-cons, count-nil, Bool-cases, ◌==◌, length-append,
}
use freebuff2api.Pool.{Pool}
use freebuff2api.Order.{repeat_of, expand, weighted_pool_order}
use freebuff2api.Order.Cycle.{
  get_or, cycle, dedupe, walk-cycle, count-dedupe, count-cycle, cycle-mod,
}

repeat_of-pos : (p : Pool) → 0 < repeat_of p
unfolding repeat_of
repeat_of-pos p = ground arith

length-replicate : (n a : ℕ) → length (replicate n a) ≡ n
length-replicate zero a = refl
length-replicate (suc n) a = ap suc (length-replicate n a)

count-replicate : (n a b : ℕ) → count b (replicate n a) ≡ (if b == a then n else 0)
unfolding count
count-replicate zero a b = ground arith
count-replicate (suc n) a b = ground (arith, count-replicate n a b)

count-length : (xs : List ℕ) (a : ℕ) → 0 < count a xs → 0 < length xs
unfolding count
count-length [] a h = h
count-length (x ∷ xs) a h = omega arith

module _ (view : ℕ → Pool) where
  -- Each pool stands in the expanded list as often as its weight says.
  count-expand :
      (pools : List ℕ) (b : ℕ)
      → count b pools ≤ 1
      → count b (expand view pools) ≡ (if ltb 0 (count b pools) then repeat_of (view b) else 0)
  unfolding expand
  count-expand [] b h = ground (arith, count-nil b)
  count-expand (a ∷ rest) b h = ground (
    arith,
    count-append b (replicate (repeat_of (view a)) a) (expand view rest),
    count-replicate (repeat_of (view a)) a b,
    count-cons b a rest,
    count-expand rest b,
  )

  length-expand : (pools : List ℕ) → length pools ≤ length (expand view pools)
  unfolding expand
  length-expand [] = omega arith
  length-expand (a ∷ rest) = omega (
    arith,
    length-append (replicate (repeat_of (view a)) a) (expand view rest),
    length-replicate (repeat_of (view a)) a,
    repeat_of-pos (view a),
    length-expand rest,
  )

  weighted-walk :
      (pools : List ℕ) (seed : ℕ)
      → leb (length pools) 1 ≡ false
      → weighted_pool_order view pools seed
        ≡ some (dedupe [] (cycle (expand view pools) seed (length (expand view pools))))
  unfolding weighted_pool_order
  weighted-walk pools seed many =
      rw (many, nonempty)
        (walk-cycle e (seed % length e) (length e) [] (omega (arith, l))
          ∙ ap (λ c. some (dedupe [] c)) (sym (cycle-mod e seed (length e) (omega (arith, l)))))
    where
      e : List ℕ
      e = expand view pools

      l : 2 ≤ length e
      l = omega (arith, length-expand pools, more)
        where
          more : 2 ≤ length pools
          more = ground arith

      nonempty : (length e == 0) ≡ false
      nonempty = ground (arith, l)

  -- For pools that are pairwise different, as the values of the map are, `weightedPoolOrder` is never
  -- out of range, and its order has each of them exactly once and nothing else, whatever the seed.
  pub weighted_pool_order-perm :
      (pools : List ℕ) (seed : ℕ)
      → ((b : ℕ) → count b pools ≤ 1)
      → (order : List ℕ) × (weighted_pool_order view pools seed ≡ some order)
        × ((b : ℕ) → count b order ≡ count b pools)
  weighted_pool_order-perm pools seed distinct = elim (Bool-cases (leb (length pools) 1)) [
    | inl few ↦ (pools, unfold weighted_pool_order in rw few, λ b. refl)
    | inr many ↦ (
      dedupe [] (cycle e seed (length e)),
      weighted-walk pools seed many,
      λ b. ground (
        arith,
        count-dedupe b [] (cycle e seed (length e)),
        count-nil b,
        count-cycle e seed b (some_entry many),
        count-expand pools b (distinct b),
        repeat_of-pos (view b),
        distinct b,
      ),
    )
  ]
    where
      e : List ℕ
      e = expand view pools

      some_entry : leb (length pools) 1 ≡ false → 0 < length e
      some_entry many = ground (arith, length-expand pools)

  -- The pool that is tried first.
  abbrev pub leader : Option (List ℕ) → Option ℕ
  leader (some (a ∷ rest)) = some a
  leader _ = none

  -- How often a pool is tried first by `n` requests with the seeds `seed`, `seed + 1`, ..., as the
  -- 64-bit counter of `Acquire` gives them out, if they all look at the same list of pools.
  pub times_first : List ℕ → ℕ → ℕ → ℕ → ℕ
  times_first pools a seed zero = 0
  times_first pools a seed (suc n) =
      let later = times_first pools a (suc seed % 18446744073709551616) n in
      elim (leader (weighted_pool_order view pools seed)) [
        | none ↦ later
        | some b ↦ if a == b then suc later else later
      ]

  get_or-replicate : (n a i : ℕ) → i < n → get_or (replicate n a ++ []) i 0 ≡ a
  get_or-replicate zero a i h = elim h [ ]
  get_or-replicate (suc n) a zero h = refl
  get_or-replicate (suc n) a (suc i) h = get_or-replicate n a i (omega arith)

  leader-single :
      (a seed : ℕ) → get_or (expand view (a ∷ [])) (seed % length (expand view (a ∷ []))) 0 ≡ a
  unfolding expand
  leader-single a seed = get_or-replicate (repeat_of (view a)) a _ (
      grind (
        arith,
        length-append (replicate (repeat_of (view a)) a) [],
        length-replicate (repeat_of (view a)) a,
        repeat_of-pos (view a),
      ))

  leader-dedupe :
      (xs : List ℕ) (seed n : ℕ)
      → 0 < n
      → leader (some (dedupe [] (cycle xs seed n))) ≡ some (get_or xs (seed % length xs) 0)
  unfolding dedupe cycle
  leader-dedupe xs seed zero h = absurd (omega arith)
  leader-dedupe xs seed (suc n) h = unfold count in refl

  leader-few : (a seed : ℕ) → leader (weighted_pool_order view (a ∷ []) seed) ≡ some a
  unfolding weighted_pool_order
  leader-few a seed = refl

  leader-weighted :
      (pools : List ℕ) (seed : ℕ)
      → 0 < length pools
      → leader (weighted_pool_order view pools seed)
        ≡ some (get_or (expand view pools) (seed % length (expand view pools)) 0)
  leader-weighted [] seed h = absurd (omega arith)
  leader-weighted (a ∷ []) seed h = leader-few a seed ∙ ap some (sym (leader-single a seed))
  leader-weighted (a ∷ b ∷ rest) seed h =
      ap leader (weighted-walk (a ∷ b ∷ rest) seed (ground arith))
      ∙ leader-dedupe (expand view (a ∷ b ∷ rest)) seed (length (expand view (a ∷ b ∷ rest)))
          (omega (arith, length-expand (a ∷ b ∷ rest)))

  times_first-step :
      (pools : List ℕ) (a seed n : ℕ)
      → 0 < length pools
      → times_first pools a (suc seed % 18446744073709551616) n
        ≡ count a (cycle (expand view pools) (suc seed) n)
      → times_first pools a seed (suc n) ≡ count a (cycle (expand view pools) seed (suc n))
  unfolding times_first cycle
  times_first-step pools a seed n h later =
      rw (leader-weighted pools seed h, times_first)
        (ground (
          arith,
          later,
          count-cons a (get_or (expand view pools) (seed % length (expand view pools)) 0)
              (cycle (expand view pools) (suc seed) n),
        ))

  times_first-cycle :
      (pools : List ℕ) (a seed n : ℕ)
      → 0 < length pools
      → seed + n ≤ 18446744073709551616
      → times_first pools a seed n ≡ count a (cycle (expand view pools) seed n)
  unfolding times_first cycle
  times_first-cycle pools a seed zero h k = sym (count-nil a)
  times_first-cycle pools a seed (suc zero) h k =
      times_first-step pools a seed zero h (sym (count-nil a))
  times_first-cycle pools a seed (suc (suc n)) h k = times_first-step pools a seed (suc n) h (
      ap (λ s. times_first pools a s (suc n)) unwrapped
      ∙ times_first-cycle pools a (suc seed) (suc n) h (omega (arith, k)))
    where
      unwrapped : suc seed % 18446744073709551616 ≡ suc seed
      unwrapped = omega (arith, k)

  -- Among as many requests with consecutive seeds, that do not wrap around at 64 bits, and all with the
  -- same list of different pools in the same order, as the weights of the pools add up to, each pool is
  -- tried first exactly as often as its weight, where a weight that is not positive counts as one.
  pub weighted_pool_order-fair :
      (pools : List ℕ) (a seed : ℕ)
      → ((b : ℕ) → count b pools ≤ 1)
      → 0 < count a pools
      → seed + length (expand view pools) ≤ 18446744073709551616
      → times_first pools a seed (length (expand view pools)) ≡ repeat_of (view a)
  weighted_pool_order-fair pools a seed distinct member fits =
      times_first-cycle pools a seed (length (expand view pools)) some_pool fits
      ∙ count-cycle (expand view pools) seed a (omega (arith, length-expand pools, some_pool))
      ∙ count-expand pools a (distinct a)
      ∙ ground arith
    where
      some_pool : 0 < length pools
      some_pool = count-length pools a member
