-- ===== src/Pool/System/Preserved.antt =====
-- Every step keeps the invariant.
use freebuff2api.Base.{
  ℕ, suc, ◌<◌, ◌≡◌, inl, inr, ◌≢◌, ◌⊎◌, count-nil, refl, true, ◌&&◌, [], ◌∷◌, arith, lookup, count,
  some, if◌then◌else◌, Text, text_eq, text_eq_iff, count-append, count-remove, count-remove_one,
  count-cons, remove_one, Option-cases,
}
use native.Mathlib.Decide.{ℕ_discrete}
use freebuff2api.Errors.{Error, Outcome, ok, fail}
use freebuff2api.Pool.{
  Pool, is_current, rotate_commit, acquire_commit, release_lease, finish_begin, finish_end, forget,
  invalidate, drain_old, run_addresses, shutdown_begin,
}
use freebuff2api.Pool.Current.{
  run_addresses-count, IsOwned, is_current_iff, is_current-allocated, is_current-rotate_commit,
  is_current-rotate_new, is_current-finish_end_ok, is_current-invalidate, rotate_commit-IsOwned,
  forget-IsOwned, IsOwned-same,
}
use freebuff2api.Pool.System.{
  System, SameRuns, Step, rotates, leases, releases, sends, answers, invalidates, shuts, closes,
  others, after_answer, after_shutdown, after_closing,
}
use freebuff2api.Pool.System.Invariant.{At, Inv}

-- `shutdown` takes all runs of the pool.
shutdown-count :
    (p : Pool) (a : ℕ)
    → (is_current p a ≡ true) ⊎ (0 < count a p.draining)
    → 0 < count a (shutdown_begin p).1
unfolding shutdown_begin
shutdown-count p a h = ground (
  arith,
  count-append a (run_addresses p.runs) p.draining,
  run_addresses-count p.runs (p.cell a).agent_id a,
  is_current_iff p a,
)

module _ (s : System) (v : Inv s) where
  rotate-draining :
      (agent : Text) (b : ℕ)
      → count b (drain_old (lookup agent s.pool.runs) s.pool.draining) ≡ (
          if text_eq agent (s.pool.cell b).agent_id && is_current s.pool b
          then suc (count b s.pool.draining)
          else count b s.pool.draining)
  unfolding drain_old is_current
  rotate-draining agent b = elim (Option-cases (lookup agent s.pool.runs)) [
    | inl e ↦ ground (arith, text_eq_iff agent (s.pool.cell b).agent_id)
    | inr (old, e) ↦ ground (
      arith,
      text_eq_iff agent (s.pool.cell b).agent_id,
      v.owned.filed agent old e,
      count-append b s.pool.draining (old ∷ []),
      count-cons b old [],
      count-nil b,
    )
  ]

  -- The new run; nothing pointed to its address before.
  rotate-At_new :
      (agent id : Text) (now : ℕ)
      → At (record s { pool = rotate_commit s.pool agent id now }) s.pool.next
  unfolding rotate_commit
  rotate-At_new agent id now = ground (
    arith,
    v.at s.pool.next,
    rotate-draining agent s.pool.next,
    is_current-rotate_new s.pool agent id now,
    is_current-allocated s.pool s.pool.next v.owned,
  )

  rotate-At_old :
      (agent id : Text) (now b : ℕ)
      → b ≢ s.pool.next
      → At (record s { pool = rotate_commit s.pool agent id now }) b
  unfolding rotate_commit
  rotate-At_old agent id now b h = ground (
    arith,
    v.at b,
    rotate-draining agent b,
    is_current-rotate_commit s.pool agent id now b,
    is_current-allocated s.pool b v.owned,
  )

  lease-At :
      (agent : Text) (a : ℕ)
      → lookup agent s.pool.runs ≡ some a
      → (b : ℕ) → At (record s { pool = (acquire_commit s.pool agent).0; held = a ∷ s.held }) b
  unfolding acquire_commit is_current
  lease-At agent a e b = ground (arith, v.at b, count-cons b a s.held, v.owned.allocated agent a e)

  release-At :
      (a : ℕ)
      → 0 < count a s.held
      → (b : ℕ) → At (record s { pool = release_lease s.pool a; held = remove_one a s.held }) b
  unfolding release_lease is_current
  release-At a h b = ground (arith, v.at a, v.at b, count-remove_one a b s.held)

  send-At :
      (a : ℕ)
      → a < s.pool.next
      → (finish_begin s.pool a).1 ≡ true
      → (b : ℕ) → At (record s { pool = (finish_begin s.pool a).0; sending = a ∷ s.sending }) b
  unfolding finish_begin is_current
  send-At a h e b = ground (arith, v.at a, v.at b, count-cons b a s.sending)

  answer-At_ok : (a : ℕ) → 0 < count a s.sending → (b : ℕ) → At (after_answer s a (ok tt)) b
  unfolding finish_end forget
  answer-At_ok a h b = ground (
    arith,
    v.at a,
    v.at b,
    count-remove_one a b s.sending,
    count-cons b a s.finished,
    count-remove a b s.pool.draining,
    is_current-finish_end_ok s.pool a b,
  )

  answer-At_fail :
      (a : ℕ) (e : Error) → 0 < count a s.sending → (b : ℕ) → At (after_answer s a (fail e)) b
  unfolding finish_end is_current
  answer-At_fail a e h b = ground (arith, v.at a, v.at b, count-remove_one a b s.sending)

  invalidate-At :
      (a : ℕ) (why : Text)
      → (b : ℕ) → At (record s { pool = invalidate s.pool a why; dropped = a ∷ s.dropped }) b
  unfolding invalidate forget
  invalidate-At a why b = ground (
    arith,
    v.at b,
    count-cons b a s.dropped,
    count-remove a b s.pool.draining,
    is_current-invalidate s.pool a b why,
  )

  shutdown-At : (b : ℕ) → At (after_shutdown s) b
  shutdown-At b =
      unfold shutdown_begin is_current lookup count in
      ground (
        arith,
        v.at b,
        shutdown-count s.pool b,
        count-append b (shutdown_begin s.pool).1 s.taken,
        count-append b (shutdown_begin s.pool).1 s.closing,
      )

  closing-At_ok : (a : ℕ) → 0 < count a s.closing → (b : ℕ) → At (after_closing s a (ok tt)) b
  closing-At_ok a h b =
      ground (arith, v.at b, count-remove_one a b s.closing, count-cons b a s.closed)

  closing-At_fail :
      (a : ℕ) (e : Error) → 0 < count a s.closing → (b : ℕ) → At (after_closing s a (fail e)) b
  closing-At_fail a e h b = ground (arith, v.at b, count-remove_one a b s.closing)

  others-At : (q : Pool) → SameRuns s.pool q → (b : ℕ) → At (record s { pool = q }) b
  unfolding is_current
  others-At q same b = ground (arith, v.at b)

  lease-IsOwned : (agent : Text) → IsOwned (acquire_commit s.pool agent).0
  unfolding acquire_commit
  lease-IsOwned agent = elim (Option-cases (lookup agent s.pool.runs)) [
    | inl e ↦ rw (e, acquire_commit) v.owned
    | inr (a, e) ↦
        rw (e, acquire_commit)
          (IsOwned-same s.pool _ refl (omega arith) (λ b. ground arith) v.owned)
  ]

  release-IsOwned : (a : ℕ) → IsOwned (release_lease s.pool a)
  unfolding release_lease
  release-IsOwned a =
      IsOwned-same s.pool _ (ground arith) (ground arith) (λ b. ground arith) v.owned

  send-IsOwned : (a : ℕ) → IsOwned (finish_begin s.pool a).0
  unfolding finish_begin
  send-IsOwned a = IsOwned-same s.pool _ (ground arith) (ground arith) (λ b. ground arith) v.owned

  answer-IsOwned : (a : ℕ) (answer : Outcome (Unit {0})) → IsOwned (finish_end s.pool a answer)
  unfolding finish_end
  answer-IsOwned a (ok u) = forget-IsOwned s.pool a v.owned
  answer-IsOwned a (fail e) = IsOwned-same s.pool _ refl (omega arith) (λ b. ground arith) v.owned

  invalidate-IsOwned : (a : ℕ) (why : Text) → IsOwned (invalidate s.pool a why)
  unfolding invalidate
  invalidate-IsOwned a why =
      IsOwned-same (forget s.pool a) _ refl (omega arith) (λ b. refl)
        (forget-IsOwned s.pool a v.owned)

  shutdown-IsOwned : IsOwned (shutdown_begin s.pool).0
  unfolding shutdown_begin lookup
  shutdown-IsOwned = record { allocated = λ k a e. ground arith; filed = λ k a e. ground arith }

  others-IsOwned : (q : Pool) → SameRuns s.pool q → IsOwned q
  others-IsOwned q same =
      IsOwned-same s.pool q same.runs (omega (arith, same.next)) (λ b. ground arith) v.owned

pub lease-lookup :
    (p : Pool) (agent : Text) (a : ℕ)
    → (acquire_commit p agent).1 ≡ ok a
    → lookup agent p.runs ≡ some a
unfolding acquire_commit
lease-lookup p agent a h = ground arith

answer-At :
    (s : System) (v : Inv s) (a : ℕ) (answer : Outcome (Unit {0}))
    → 0 < count a s.sending
    → (b : ℕ) → At (after_answer s a answer) b
answer-At s v a (ok u) h b = answer-At_ok s v a h b
answer-At s v a (fail e) h b = answer-At_fail s v a e h b

closing-At :
    (s : System) (v : Inv s) (a : ℕ) (answer : Outcome (Unit {0}))
    → 0 < count a s.closing
    → (b : ℕ) → At (after_closing s a answer) b
closing-At s v a (ok u) h b = closing-At_ok s v a h b
closing-At s v a (fail e) h b = closing-At_fail s v a e h b

rotate-At :
    (s : System) (v : Inv s) (agent id : Text) (now b : ℕ)
    → At (record s { pool = rotate_commit s.pool agent id now }) b
rotate-At s v agent id now b = elim (ℕ_discrete b s.pool.next) [
  | yes e ↦ rw e (rotate-At_new s v agent id now)
  | no n ↦ rotate-At_old s v agent id now b n
]

-- Each locked part of a pool's methods, `shutdown` included, and each answer of the upstream keeps the
-- invariant, whatever the others have done before it.
pub Step-Inv : {s t : System} → Step s t → Inv s → Inv t
Step-Inv (rotates s agent id now) v = record {
  owned = rotate_commit-IsOwned s.pool agent id now v.owned;
  at = rotate-At s v agent id now;
}
Step-Inv (leases s agent a e) v = record {
  owned = lease-IsOwned s v agent;
  at = lease-At s v agent a (lease-lookup s.pool agent a e);
}
Step-Inv (releases s a h) v = record { owned = release-IsOwned s v a; at = release-At s v a h }
Step-Inv (sends s a h e) v = record { owned = send-IsOwned s v a; at = send-At s v a h e }
Step-Inv (answers s a answer h) v = record {
  owned = answer-IsOwned s v a answer;
  at = answer-At s v a answer h;
}
Step-Inv (invalidates s a why h) v = record {
  owned = invalidate-IsOwned s v a why;
  at = invalidate-At s v a why;
}
Step-Inv (shuts s) v = record { owned = shutdown-IsOwned s v; at = shutdown-At s v }
Step-Inv (closes s a answer h) v = record { owned = v.owned; at = closing-At s v a answer h }
Step-Inv (others s q same) v = record {
  owned = others-IsOwned s v q same;
  at = others-At s v q same;
}
