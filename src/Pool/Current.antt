-- ===== src/Pool/Current.antt =====
-- Which run is its agent's current one, after each change of a pool.
use freebuff2api.Base.{
  count, ◌∷◌, [], List, ℕ, ◌≤◌, ◌<◌, ◌≡◌, ap, ◌∙◌, refl, ◌↔◌, true, false, some, arith, ◌==◌,
  if◌then◌else◌, Text, text_eq, text_eq_iff, text_eq_refl, lookup, lookup-insert, lookup-delete,
}
use freebuff2api.Errors.{ok}
use freebuff2api.Pool.{
  run_addresses, Pool, is_current, rotate_commit, forget, finish_end, invalidate,
}

-- The map of runs names allocated runs, each under its own agent.
pub record IsOwned (p : Pool) : Type 0 where
  pub allocated : (k : Text) (a : ℕ) → lookup k p.runs ≡ some a → a < p.next
  pub filed : (k : Text) (a : ℕ) → lookup k p.runs ≡ some a → (p.cell a).agent_id ≡ k

pub is_current_iff :
    (p : Pool) (a : ℕ) → (is_current p a ≡ true) ↔ (lookup (p.cell a).agent_id p.runs ≡ some a)
unfolding is_current
is_current_iff p a = ground arith

pub run_addresses-count :
    (m : List (Text × ℕ)) (k : Text) (a : ℕ) → lookup k m ≡ some a → 0 < count a (run_addresses m)
unfolding run_addresses lookup count
run_addresses-count [] k a e = absurd (ground arith)
run_addresses-count ((j, b) ∷ m) k a e = ground (arith, run_addresses-count m k a)

-- A run that the map names is current.
pub is_current_of_lookup :
    (p : Pool) (k : Text) (a : ℕ) → IsOwned p → lookup k p.runs ≡ some a → is_current p a ≡ true
is_current_of_lookup p k a o e =
    (is_current_iff p a).1 (ap (λ j. lookup j p.runs) (o.filed k a e) ∙ e)

pub is_current-allocated : (p : Pool) (a : ℕ) → IsOwned p → is_current p a ≡ true → a < p.next
is_current-allocated p a o h = o.allocated _ a ((is_current_iff p a).0 h)

-- After a rotation the new run is current, and of the others those of another agent.
pub is_current-rotate_commit :
    (p : Pool) (agent id : Text) (now b : ℕ)
    → b < p.next
    → is_current (rotate_commit p agent id now) b
      ≡ (if text_eq agent (p.cell b).agent_id then false else is_current p b)
unfolding is_current rotate_commit
is_current-rotate_commit p agent id now b h =
    ground (arith, lookup-insert agent (p.cell b).agent_id p.next p.runs)

pub is_current-rotate_new :
    (p : Pool) (agent id : Text) (now : ℕ) → is_current (rotate_commit p agent id now) p.next ≡ true
unfolding is_current rotate_commit
is_current-rotate_new p agent id now =
    ground (arith, lookup-insert agent agent p.next p.runs, text_eq_refl agent)

-- `forget` takes the one run out of the map, and no other.
pub is_current-forget :
    (p : Pool) (a b : ℕ) → is_current (forget p a) b ≡ (if a == b then false else is_current p b)
unfolding is_current forget
is_current-forget p a b = ground (
  arith,
  lookup-delete (p.cell a).agent_id (p.cell b).agent_id p.runs,
  text_eq_iff (p.cell a).agent_id (p.cell b).agent_id,
)

pub rotate_commit-IsOwned :
    (p : Pool) (agent id : Text) (now : ℕ) → IsOwned p → IsOwned (rotate_commit p agent id now)
unfolding rotate_commit
rotate_commit-IsOwned p agent id now o = record {
  allocated = λ k a e. ground (arith, lookup-insert agent k p.next p.runs, o.allocated k a);
  filed = λ k a e. ground (
    arith,
    lookup-insert agent k p.next p.runs,
    text_eq_iff agent k,
    o.filed k a,
    o.allocated k a,
  );
}

pub forget-IsOwned : (p : Pool) (a : ℕ) → IsOwned p → IsOwned (forget p a)
unfolding forget
forget-IsOwned p a o = record {
  allocated = λ k b e. ground (arith, lookup-delete (p.cell a).agent_id k p.runs, o.allocated k b);
  filed = λ k b e. ground (arith, lookup-delete (p.cell a).agent_id k p.runs, o.filed k b);
}

-- `finish_end` and `invalidate` as far as the current runs go.
pub is_current-finish_end_ok :
    (p : Pool) (a b : ℕ)
    → is_current (finish_end p a (ok tt)) b ≡ (if a == b then false else is_current p b)
unfolding finish_end
is_current-finish_end_ok p a b = is_current-forget p a b

pub is_current-invalidate :
    (p : Pool) (a b : ℕ) (why : Text)
    → is_current (invalidate p a why) b ≡ (if a == b then false else is_current p b)
is_current-invalidate p a b why = same ∙ is_current-forget p a b
  where
    same : is_current (invalidate p a why) b ≡ is_current (forget p a) b
    same = unfold invalidate is_current in refl

-- A change that leaves the map and the runs' agents alone.
pub IsOwned-same :
    (p q : Pool)
    → q.runs ≡ p.runs
    → p.next ≤ q.next
    → ((a : ℕ) → (q.cell a).agent_id ≡ (p.cell a).agent_id)
    → IsOwned p
    → IsOwned q
IsOwned-same p q e n f o = record {
  allocated = λ k a h. ground (arith, o.allocated k a);
  filed = λ k a h. ground (arith, o.filed k a, f a);
}
