-- ===== src/Lease/Retirement.antt =====
-- A retired pool without leases is emptied by one round of maintenance.
use freebuff2api.Base.{
  ℕ, ◌<◌, ◌≡◌, ◌⊎◌, inl, inr, refl, sym, subst, ==_iff, true, false, List, [], ◌∷◌, arith, ltb,
  ◌==◌, Text, text_eq_refl, lookup, count, count-remove, Bool-cases,
}
use freebuff2api.Errors.{Outcome, ok}
use freebuff2api.Pool.{
  run_addresses, Pool, is_current, finish_if_ready, finish_begin, finish_end, forget, update,
  is_idle,
}
use freebuff2api.Pool.Current.{
  run_addresses-count, IsOwned, IsOwned-same, is_current_iff, is_current_of_lookup,
  is_current-forget, forget-IsOwned,
}
use freebuff2api.Lease.{finish_all, maintain, rotate_all}

-- The pool no longer names the run.
pub record Clear (p : Pool) (a : ℕ) : Type 0 where
  pub undrained : count a p.draining ≡ 0
  pub replaced : is_current p a ≡ false

-- No lease is out on the run, and no FINISH of it is under way while the pool names it.
pub record Free (p : Pool) (a : ℕ) : Type 0 where
  pub idle : (p.cell a).inflight ≡ 0
  pub unmarked : ((p.cell a).finishing ≡ false) ⊎ Clear p a

pub record AllFree (p : Pool) : Type 0 where
  pub owned : IsOwned p
  pub gone : p.retired ≡ true
  pub free : (a : ℕ) → Free p a

abbrev marked : Pool → ℕ → Pool
marked p a = record p { cell = update p.cell a (record (p.cell a) { finishing = true }) }

is_current-marked : (p : Pool) (a b : ℕ) → is_current (marked p a) b ≡ is_current p b
unfolding is_current
is_current-marked p a b = ground arith

module _ (p : Pool) (a : ℕ) where
  finished_sent :
      p.retired ≡ true
      → (p.cell a).inflight ≡ 0
      → (p.cell a).finishing ≡ false
      → finish_if_ready p a (ok tt) ≡ forget (marked p a) a
  unfolding finish_if_ready finish_begin finish_end
  finished_sent gone idle unmarked = ground arith

  finished_kept : (p.cell a).finishing ≡ true → finish_if_ready p a (ok tt) ≡ p
  unfolding finish_if_ready finish_begin
  finished_kept marked_so = ground arith

  forget-Clear : (b : ℕ) → (a ≡ b) ⊎ Clear p b → Clear (forget (marked p a) a) b
  forget-Clear b h = record {
    undrained = unfold forget in ground (arith, count-remove a b p.draining);
    replaced = ground (arith, is_current-forget (marked p a) a b, is_current-marked p a b);
  }

  forget-Free : (b : ℕ) → Free p b → (p.cell a).inflight ≡ 0 → Free (forget (marked p a) a) b
  unfolding forget
  forget-Free b f idle = elim (Bool-cases (a == b)) [
    | inl same ↦ record { idle = ground (arith, f); unmarked = inr (forget-Clear b (ground arith)) }
    | inr other ↦ record {
      idle = ground (arith, f);
      unmarked = elim f.unmarked [
        | inl u ↦ inl (ground arith)
        | inr c ↦ inr (forget-Clear b (inr c))
      ];
    }
  ]

  forget-AllFree : AllFree p → AllFree (forget (marked p a) a)
  forget-AllFree v = record {
    owned =
        forget-IsOwned (marked p a) a
          (IsOwned-same p (marked p a) refl (omega arith) (λ b. ground arith) v.owned);
    gone = unfold forget in v.gone;
    free = λ b. forget-Free b (v.free b) (v.free a).idle;
  }

  -- What finishing one run of a retired pool does.
  record Emptied (q : Pool) : Type 0 where
    all : AllFree q
    clear : Clear q a
    more : (b : ℕ) → Clear p b → Clear q b

  finish-Emptied : AllFree p → Emptied (finish_if_ready p a (ok tt))
  finish-Emptied v = elim (Bool-cases (p.cell a).finishing) [
    | inl under ↦
        rw (finished_kept under)
          (record { all = v; clear = cleared (v.free a) under; more = λ b c. c })
    | inr idle ↦ rw (finished_sent v.gone (v.free a).idle idle) (record {
      all = forget-AllFree v;
      clear = forget-Clear a (inl refl);
      more = λ b c. forget-Clear b (inr c);
    })
  ]
    where
      cleared : Free p a → (p.cell a).finishing ≡ true → Clear p a
      cleared f under = elim f.unmarked [ inl u ↦ absurd (ground arith) | inr c ↦ c ]

finish_all-AllFree :
    (p : Pool) (xs : List ℕ) (answers : ℕ → Outcome (Unit {0}))
    → ((a : ℕ) → answers a ≡ ok tt)
    → AllFree p
    → AllFree (finish_all p xs answers)
unfolding finish_all
finish_all-AllFree p [] answers good v = v
finish_all-AllFree p (a ∷ xs) answers good v =
    rw (good a)
      (finish_all-AllFree (finish_if_ready p a (ok tt)) xs answers good (finish-Emptied p a v).all)

finish_all-Clear :
    (p : Pool) (xs : List ℕ) (answers : ℕ → Outcome (Unit {0}))
    → ((a : ℕ) → answers a ≡ ok tt)
    → AllFree p
    → (b : ℕ) → (0 < count b xs) ⊎ Clear p b
    → Clear (finish_all p xs answers) b
unfolding finish_all
finish_all-Clear p [] answers good v b (inl h) = absurd (unfold count in omega arith)
finish_all-Clear p [] answers good v b (inr c) = c
finish_all-Clear p (a ∷ xs) answers good v b h =
    rw (good a) (finish_all-Clear (finish_if_ready p a (ok tt)) xs answers good w.all b (after h))
  where
    w : Emptied p a (finish_if_ready p a (ok tt))
    w = finish-Emptied p a v

    after :
        (0 < count b (a ∷ xs)) ⊎ Clear p b
        → (0 < count b xs) ⊎ Clear (finish_if_ready p a (ok tt)) b
    after (inr c) = inr (w.more b c)
    after (inl k) = elim (Bool-cases (b == a)) [
      | inl same ↦
          inr (subst (Clear (finish_if_ready p a (ok tt))) (sym ((==_iff b a).0 same)) w.clear)
      | inr other ↦ inl (unfold count in ground arith)
    ]

-- A pool that names no run is idle.
Clear-idle : (p : Pool) → IsOwned p → ((a : ℕ) → Clear p a) → is_idle p ≡ true
unfolding is_idle
Clear-idle p o c = go p.draining p.runs refl refl
  where
    go : (d : List ℕ) (m : List (Text × ℕ)) → p.draining ≡ d → p.runs ≡ m → is_idle p ≡ true
    go [] [] e f = ground arith
    go (a ∷ d) m e f = unfold count in ground (arith, c a)
    go d ((k, a) ∷ m) e f = cc (
      is_current_of_lookup p k a o (rw f (unfold lookup in ground (arith, text_eq_refl k))),
      (c a).replaced,
    )

-- One round of maintenance, while nobody else uses the pool, empties a retired pool whose runs have no
-- lease and are not being finished, if the upstream accepts each FINISH: the pool is then idle.
pub maintain-idle :
    (p : Pool) (now : ℕ) (starts : Text → Outcome Text) (answers : ℕ → Outcome (Unit {0}))
    → AllFree p
    → ((a : ℕ) → answers a ≡ ok tt)
    → is_idle (maintain p false now starts answers) ≡ true
unfolding maintain rotate_all
maintain-idle p now starts answers v good =
    Clear-idle (finish_all q (run_addresses p.runs) answers)
      (finish_all-AllFree q (run_addresses p.runs) answers good w).owned all_clear
  where
    q : Pool
    q = finish_all p p.draining answers

    w : AllFree q
    w = finish_all-AllFree p p.draining answers good v

    all_clear : (a : ℕ) → Clear (finish_all q (run_addresses p.runs) answers) a
    all_clear a = elim (Bool-cases (is_current p a)) [
      | inl c ↦
          finish_all-Clear q (run_addresses p.runs) answers good w a
            (inl (run_addresses-count p.runs _ a ((is_current_iff p a).0 c)))
      | inr n ↦
          finish_all-Clear q (run_addresses p.runs) answers good w a
            (inr (finish_all-Clear p p.draining answers good v a (left n)))
    ]
      where
        left : is_current p a ≡ false → (0 < count a p.draining) ⊎ Clear p a
        left n = elim (Bool-cases (ltb 0 (count a p.draining))) [
          | inl some_left ↦ inl (ground arith)
          | inr none_left ↦ inr (record { undrained = ground arith; replaced = n })
        ]
