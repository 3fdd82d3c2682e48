-- ===== src/Order/Keys.antt =====
-- Groups of pools under different keys: adding a pool, and sorting by falling key.
use freebuff2api.Base.{
  ℕ, ◌+◌, ◌≡◌, refl, ◌∙◌, inl, inr, true, false, List, [], ◌∷◌, ◌++◌, arith, count, count-append,
  count-nil, Bool-cases, ℤ, pos, negsuc, eq_int, lt_int, All,
}
use freebuff2api.Order.{add_to_group, insert_group, sort_groups}

-- Strictly falling keys.
abbrev pub Falling : List (ℤ × List ℕ) → Type 0
Falling [] = Unit
Falling (g ∷ rest) = All (λ h. lt_int h.0 g.0 ≡ true) rest × Falling rest

-- Different keys.
abbrev pub Apart : List (ℤ × List ℕ) → Type 0
Apart [] = Unit
Apart (g ∷ rest) = All (λ h. eq_int h.0 g.0 ≡ false) rest × Apart rest

-- The pools of all groups.
abbrev pub members : List (ℤ × List ℕ) → List ℕ
members [] = []
members ((q, g) ∷ rest) = g ++ members rest

lt_int_trans : (a b c : ℤ) → lt_int a b ≡ true → lt_int b c ≡ true → lt_int a c ≡ true
lt_int_trans (pos a) (pos b) (pos c) h k = ground arith
lt_int_trans (pos a) (pos b) (negsuc c) h k = ground arith
lt_int_trans (pos a) (negsuc b) c h k = ground arith
lt_int_trans (negsuc a) (pos b) (pos c) h k = ground arith
lt_int_trans (negsuc a) (pos b) (negsuc c) h k = ground arith
lt_int_trans (negsuc a) (negsuc b) (pos c) h k = ground arith
lt_int_trans (negsuc a) (negsuc b) (negsuc c) h k = ground arith

lt_int_total : (a b : ℤ) → eq_int a b ≡ false → lt_int a b ≡ false → lt_int b a ≡ true
lt_int_total (pos a) (pos b) h k = ground arith
lt_int_total (pos a) (negsuc b) h k = ground arith
lt_int_total (negsuc a) (pos b) h k = ground arith
lt_int_total (negsuc a) (negsuc b) h k = ground arith

eq_int_comm : (a b : ℤ) → eq_int a b ≡ eq_int b a
eq_int_comm (pos a) (pos b) = ground arith
eq_int_comm (pos a) (negsuc b) = refl
eq_int_comm (negsuc a) (pos b) = refl
eq_int_comm (negsuc a) (negsuc b) = ground arith

-- What is added has the key that is looked for, and the other keys stay.
pub add_to_group-All :
    (P : ℤ → Type 0) (q : ℤ) (a : ℕ) (gs : List (ℤ × List ℕ))
    → P q
    → All (λ h. P h.0) gs
    → All (λ h. P h.0) (add_to_group q a gs)
unfolding add_to_group
add_to_group-All P q a [] h k = (h, tt)
add_to_group-All P q a ((q', g) ∷ rest) h k = elim (Bool-cases (eq_int q' q)) [
  | inl same ↦ rw same k
  | inr other ↦ rw other (k.0, add_to_group-All P q a rest h k.1)
]

pub add_to_group-Apart :
    (q : ℤ) (a : ℕ) (gs : List (ℤ × List ℕ)) → Apart gs → Apart (add_to_group q a gs)
unfolding add_to_group
add_to_group-Apart q a [] h = (tt, tt)
add_to_group-Apart q a ((q', g) ∷ rest) h = elim (Bool-cases (eq_int q' q)) [
  | inl same ↦ rw same h
  | inr other ↦ rw other (
    add_to_group-All (λ k. eq_int k q' ≡ false) q a rest (eq_int_comm q q' ∙ other) h.0,
    add_to_group-Apart q a rest h.1,
  )
]

pub count-add_to_group :
    (b : ℕ) (q : ℤ) (a : ℕ) (gs : List (ℤ × List ℕ))
    → count b (members (add_to_group q a gs)) ≡ count b (a ∷ []) + count b (members gs)
unfolding add_to_group
count-add_to_group b q a [] = ground (arith, count-nil b)
count-add_to_group b q a ((q', g) ∷ rest) = elim (Bool-cases (eq_int q' q)) [
  | inl same ↦ rw same (
      omega (
        arith,
        count-append b (g ++ a ∷ []) (members rest),
        count-append b g (a ∷ []),
        count-append b g (members rest),
      ))
  | inr other ↦ rw other (
      omega (
        arith,
        count-append b g (members (add_to_group q a rest)),
        count-append b g (members rest),
        count-add_to_group b q a rest,
      ))
]

insert_group-All :
    (P : ℤ × List ℕ → Type 0) (g : ℤ × List ℕ) (gs : List (ℤ × List ℕ))
    → P g
    → All P gs
    → All P (insert_group g gs)
unfolding insert_group
insert_group-All P g [] h k = (h, tt)
insert_group-All P g (x ∷ rest) h k = elim (Bool-cases (lt_int g.0 x.0)) [
  | inl less ↦ rw less (k.0, insert_group-All P g rest h k.1)
  | inr more ↦ rw more (h, k)
]

pub sort_groups-All :
    (P : ℤ × List ℕ → Type 0) (gs : List (ℤ × List ℕ)) → All P gs → All P (sort_groups gs)
unfolding sort_groups
sort_groups-All P [] k = tt
sort_groups-All P (g ∷ rest) k =
    insert_group-All P g (sort_groups rest) k.0 (sort_groups-All P rest k.1)

All-lt_int :
    (a b : ℤ) (gs : List (ℤ × List ℕ))
    → lt_int a b ≡ true
    → All (λ h. lt_int h.0 a ≡ true) gs
    → All (λ h. lt_int h.0 b ≡ true) gs
All-lt_int a b [] h k = tt
All-lt_int a b (x ∷ rest) h k = (lt_int_trans x.0 a b k.0 h, All-lt_int a b rest h k.1)

insert_group-Falling :
    (g : ℤ × List ℕ) (gs : List (ℤ × List ℕ))
    → All (λ h. eq_int h.0 g.0 ≡ false) gs
    → Falling gs
    → Falling (insert_group g gs)
unfolding insert_group
insert_group-Falling g [] ne f = (tt, tt)
insert_group-Falling g (x ∷ rest) ne f = elim (Bool-cases (lt_int g.0 x.0)) [
  | inl less ↦ rw less (
    insert_group-All (λ h. lt_int h.0 x.0 ≡ true) g rest less f.0,
    insert_group-Falling g rest ne.1 f.1,
  )
  | inr more ↦ rw more (
      let below = lt_int_total g.0 x.0 (eq_int_comm g.0 x.0 ∙ ne.0) more in
      ((below, All-lt_int x.0 g.0 rest below f.0), f))
]

pub sort_groups-Falling : (gs : List (ℤ × List ℕ)) → Apart gs → Falling (sort_groups gs)
unfolding sort_groups
sort_groups-Falling [] h = tt
sort_groups-Falling (g ∷ rest) h =
    insert_group-Falling g (sort_groups rest) (sort_groups-All _ rest h.0)
      (sort_groups-Falling rest h.1)

count-insert_group :
    (b : ℕ) (g : ℤ × List ℕ) (gs : List (ℤ × List ℕ))
    → count b (members (insert_group g gs)) ≡ count b g.1 + count b (members gs)
unfolding insert_group
count-insert_group b g [] = omega (arith, count-append b g.1 [])
count-insert_group b g (x ∷ rest) = elim (Bool-cases (lt_int g.0 x.0)) [
  | inl less ↦ rw less (
      omega (
        arith,
        count-append b x.1 (members (insert_group g rest)),
        count-append b x.1 (members rest),
        count-insert_group b g rest,
      ))
  | inr more ↦
      rw more
        (omega (arith, count-append b g.1 (x.1 ++ members rest), count-append b x.1 (members rest)))
]

pub count-sort_groups :
    (b : ℕ) (gs : List (ℤ × List ℕ)) → count b (members (sort_groups gs)) ≡ count b (members gs)
unfolding sort_groups
count-sort_groups b [] = refl
count-sort_groups b (g ∷ rest) = omega (
  arith,
  count-insert_group b g (sort_groups rest),
  count-append b g.1 (members rest),
  count-sort_groups b rest,
)
