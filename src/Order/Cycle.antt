-- ===== src/Order/Cycle.antt =====
-- The loop of `weightedPoolOrder` visits each place of the expanded list once, from any start.
use freebuff2api.Base.{
  ℕ, zero, suc, ◌+◌, ◌-◌, ◌*◌, ◌/◌, ◌%◌, ◌≤◌, ◌<◌, ◌≡◌, refl, sym, ap, ◌∙◌, inl, inr, true, false,
  some, List, [], ◌∷◌, ◌++◌, arith, ltb, if◌then◌else◌, length, get_elem?, take, drop, count,
  count-append, count-cons, count-nil, Bool-cases,
}
use mathlib.Core.Path.{ap₂}
use native.Mathlib.Nat.{mod-eq_of_lt, mod-add-div'}
use freebuff2api.Order.{walk, keep_new}

module _ {ℓ} {A : Type ℓ} where
  abbrev pub get_or : List A → ℕ → A → A
  get_or [] i d = d
  get_or (x ∷ xs) zero d = x
  get_or (x ∷ xs) (suc i) d = get_or xs i d

  pub get_elem?-get_or :
      (xs : List A) (i : ℕ) (d : A) → i < length xs → get_elem? xs i ≡ some (get_or xs i d)
  get_elem?-get_or [] i d h = elim h [ ]
  get_elem?-get_or (x ∷ xs) zero d h = refl
  get_elem?-get_or (x ∷ xs) (suc i) d h = get_elem?-get_or xs i d (omega arith)

  drop-get_or :
      (xs : List A) (i : ℕ) (d : A) → i < length xs → drop i xs ≡ get_or xs i d ∷ drop (suc i) xs
  drop-get_or [] i d h = elim h [ ]
  drop-get_or (x ∷ xs) zero d h = refl
  drop-get_or (x ∷ xs) (suc i) d h = drop-get_or xs i d (omega arith)

  take-append-drop : (n : ℕ) (xs : List A) → take n xs ++ drop n xs ≡ xs
  take-append-drop zero xs = refl
  take-append-drop (suc n) [] = refl
  take-append-drop (suc n) (x ∷ xs) = ap (◌∷◌ x) (take-append-drop n xs)

  take_all : (xs : List A) (n : ℕ) → length xs ≤ n → take n xs ≡ xs
  take_all [] zero h = refl
  take_all [] (suc n) h = refl
  take_all (x ∷ xs) zero h = absurd (omega arith)
  take_all (x ∷ xs) (suc n) h = ap (◌∷◌ x) (take_all xs n (omega arith))

  length-drop : (n : ℕ) (xs : List A) → length (drop n xs) ≡ length xs - n
  length-drop zero xs = omega arith
  length-drop (suc n) [] = omega arith
  length-drop (suc n) (x ∷ xs) = omega (arith, length-drop n xs)

-- The entries at `n` positions from `p` on, round and round.
unfoldable pub cycle : List ℕ → ℕ → ℕ → List ℕ
cycle xs p zero = []
cycle xs p (suc n) = get_or xs (p % length xs) 0 ∷ cycle xs (suc p) n

suc_plus : (m n : ℕ) → suc m + n ≡ suc (m + n)
suc_plus m n = omega arith

cycle_add : (xs : List ℕ) (p m n : ℕ) → cycle xs p (m + n) ≡ cycle xs p m ++ cycle xs (p + m) n
unfolding cycle
cycle_add xs p zero n = ground arith
cycle_add xs p (suc m) n = rw (suc_plus m n) (ground (arith, cycle_add xs (suc p) m n))

mod_shift : (p l : ℕ) → 0 < l → (p + l) % l ≡ p % l
mod_shift p l h = grind arith

mod_below : (p l : ℕ) → 0 < l → p % l < l
mod_below p l h = grind arith

cycle_shift : (xs : List ℕ) (p n : ℕ) → 0 < length xs → cycle xs (p + length xs) n ≡ cycle xs p n
unfolding cycle
cycle_shift xs p zero h = refl
cycle_shift xs p (suc n) h = ground (arith, cycle_shift xs (suc p) n h, mod_shift p (length xs) h)

one_turn : (r k l : ℕ) → r + suc k * l ≡ r + k * l + l
one_turn r k l = omega arith

div_split : (p l : ℕ) → p % l + p / l * l ≡ p
div_split p l = mod-add-div' p l

cycle_turns :
    (xs : List ℕ) (r k n : ℕ) → 0 < length xs → cycle xs (r + k * length xs) n ≡ cycle xs r n
cycle_turns xs r zero n h = ap (λ p. cycle xs p n) (omega arith)
cycle_turns xs r (suc k) n h =
    ap (λ p. cycle xs p n) (one_turn r k (length xs))
    ∙ cycle_shift xs (r + k * length xs) n h
    ∙ cycle_turns xs r k n h

-- A position counts only by its place in the round.
pub cycle-mod : (xs : List ℕ) (p n : ℕ) → 0 < length xs → cycle xs p n ≡ cycle xs (p % length xs) n
cycle-mod xs p n h =
    ap (λ q. cycle xs q n) (sym (div_split p (length xs)))
    ∙ cycle_turns xs (p % length xs) (p / length xs) n h

cycle-take : (xs : List ℕ) (p n : ℕ) → p + n ≤ length xs → cycle xs p n ≡ take n (drop p xs)
unfolding cycle
cycle-take xs p zero h = refl
cycle-take xs p (suc n) h =
    rw (drop-get_or xs p 0 (omega arith))
      (ground (arith, mod-eq_of_lt {n = p} {m = length xs} (omega arith), cycle-take xs (suc p) n))

-- From any start below the length, a whole round meets every entry as often as it stands there.
count-cycle_below :
    (xs : List ℕ) (s b : ℕ) → s < length xs → count b (cycle xs s (length xs)) ≡ count b xs
count-cycle_below xs s b h =
    ap (count b) parts
    ∙ count-append b (drop s xs) (take s xs)
    ∙ omega (arith, count-append b (take s xs) (drop s xs), ap (count b) (take-append-drop s xs))
  where
    first : cycle xs s (length xs - s) ≡ drop s xs
    first =
        cycle-take xs s (length xs - s) (omega arith)
        ∙ take_all (drop s xs) (length xs - s) (omega (arith, length-drop s xs))

    second : cycle xs (s + (length xs - s)) s ≡ take s xs
    second =
        ap (λ p. cycle xs p s) (omega arith)
        ∙ cycle_shift xs 0 s (omega arith)
        ∙ cycle-take xs 0 s (omega arith)

    parts : cycle xs s (length xs) ≡ drop s xs ++ take s xs
    parts =
        ap (cycle xs s) (omega arith) ∙ cycle_add xs s (length xs - s) s ∙ ap₂ (◌++◌) first second

pub count-cycle :
    (xs : List ℕ) (p b : ℕ) → 0 < length xs → count b (cycle xs p (length xs)) ≡ count b xs
count-cycle xs p b h =
    ap (count b) (cycle-mod xs p (length xs) h)
    ∙ count-cycle_below xs (p % length xs) b (mod_below p (length xs) h)

-- The first occurrence of each entry that is not yet seen.
unfoldable pub dedupe : List ℕ → List ℕ → List ℕ
dedupe seen [] = []
dedupe seen (a ∷ rest) =
    let met = ltb 0 (count a seen) in
    let later = dedupe (if met then seen else a ∷ seen) rest in if met then later else a ∷ later

-- The loop never runs out of range, and its result is the round without repetitions.
pub walk-cycle :
    (xs : List ℕ) (p n : ℕ) (seen : List ℕ)
    → 0 < length xs
    → walk xs p n seen ≡ some (dedupe seen (cycle xs p n))
unfolding walk cycle dedupe keep_new
walk-cycle xs p zero seen h = refl
walk-cycle xs p (suc n) seen h =
    rw (get_elem?-get_or xs (p % length xs) 0 (mod_below p (length xs) h), walk)
      (elim (Bool-cases (ltb 0 (count (get_or xs (p % length xs) 0) seen))) [
        | inl met ↦
            rw met
              (ap (keep_new true (get_or xs (p % length xs) 0)) (walk-cycle xs (suc p) n seen h))
        | inr new ↦ rw new (
            ap (keep_new false (get_or xs (p % length xs) 0))
              (walk-cycle xs (suc p) n (get_or xs (p % length xs) 0 ∷ seen) h))
      ])

pub count-dedupe :
    (b : ℕ) (seen xs : List ℕ)
    → count b (dedupe seen xs)
      ≡ (if ltb 0 (count b seen) then 0 else if ltb 0 (count b xs) then 1 else 0)
unfolding dedupe
count-dedupe b seen [] = ground (arith, count-nil b)
count-dedupe b seen (a ∷ rest) = ground (
  arith,
  count-dedupe b seen rest,
  count-dedupe b (a ∷ seen) rest,
  count-cons b a seen,
  count-cons b a rest,
  count-cons b a (dedupe (a ∷ seen) rest),
)
