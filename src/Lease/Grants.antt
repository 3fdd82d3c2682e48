-- ===== src/Lease/Grants.antt =====
-- What a lease that `acquire` gives stands for, and what a refused one leaves behind.
use freebuff2api.Base.{
  sym, ℕ, ◌+◌, ◌<◌, ◌≡◌, ◌⊎◌, inl, inr, refl, subst, true, false, Option, none, some, List, [],
  arith, Text, text_eq_refl, lookup, lookup-insert, Bool-cases, Option-cases,
}
use freebuff2api.Errors.{Outcome, ok, fail}
use freebuff2api.Pool.{
  Pool, CachedSession, is_cooling, is_due, needs_rotate, rotate_agent, rotate_commit,
  acquire_commit, rotate_answered,
}
use freebuff2api.Pool.Current.{IsOwned}
use freebuff2api.FreeSession.{ready_session}
use freebuff2api.SessionCycle.{ensure_session, ensure_begin, ensure_end, ensure_round, refreshes}
use freebuff2api.Lease.{AcquireEnv, acquire, acquire_rotated, acquire_ensured}

-- The agent's run is not due for rotation, or was started by this call.
abbrev Young : Pool → AcquireEnv → ℕ → Type 0
Young p env a =
    ((p.cell a).started_at ≡ env.rotated)
    ⊎ (env.checked < (p.cell a).started_at + p.rotation_interval)

-- The session can be used: it is ready, or this call has refreshed it.
abbrev Served : Pool → AcquireEnv → Type 0
Served p env =
    ((id : Text) × (ready_session p env.ensured ≡ some id))
    ⊎ ((s : CachedSession) × (id : Text) × (env.refreshed ≡ ok (s, id)) × (p.session ≡ some s))

-- The run `a` is the agent's in `p`.
record Prepared (agent : Text) (env : AcquireEnv) (p : Pool) (a : ℕ) : Type 0 where
  current : lookup agent p.runs ≡ some a
  filed : (p.cell a).agent_id ≡ agent
  young : Young p env a

-- A lease on the run `a` of the pool `q`.
pub record Granted (agent : Text) (env : AcquireEnv) (q : Pool) (a : ℕ) : Type 0 where
  pub current : lookup agent q.runs ≡ some a
  pub filed : (q.cell a).agent_id ≡ agent
  pub leased : 0 < (q.cell a).inflight
  pub young : Young q env a
  pub served : Served q env

-- Nobody else changes the pool while `acquire` has it unlocked.
pub record Alone (env : AcquireEnv) : Type 0 where
  pub session_same : (p : Pool) → env.meets_session p ≡ p
  pub commit_same : (p : Pool) → env.meets_commit p ≡ p
  pub no_wait : env.wakes ≡ []

-- What holds of an answer that gives a lease.
abbrev Ensures : (Pool → ℕ → Type 0) → Option (Pool × Outcome ℕ) → Type 0
Ensures P none = Unit
Ensures P (some (q, ok a)) = P q a
Ensures P (some (q, fail e)) = Unit

ready_session-same :
    (p q : Pool) (now : ℕ) → q.session ≡ p.session → ready_session q now ≡ ready_session p now
unfolding ready_session
ready_session-same p q now e = ground arith

module _ (agent : Text) (env : AcquireEnv) (alone : Alone env) where
  commit_alone-Granted :
      (p : Pool) (a : ℕ)
      → Prepared agent env p a
      → Served p env
      → Ensures (Granted agent env) (some (acquire_commit p agent))
  unfolding acquire_commit
  commit_alone-Granted p a v w =
      rw (v.current, acquire_commit)
        (record {
          current = v.current;
          filed = ground (arith, v.filed);
          leased = ground arith;
          young = ground (arith, v.young);
          served = ground (arith, w, ready_session-same p (acquire_commit p agent).0 env.ensured);
        })

  commit-Granted :
      (p : Pool) (a : ℕ)
      → Prepared agent env p a
      → Served p env
      → Ensures (Granted agent env) (some (acquire_commit (env.meets_commit p) agent))
  commit-Granted p a v w =
      subst (λ q. Ensures (Granted agent env) (some (acquire_commit q agent)))
        (sym (alone.commit_same p)) (commit_alone-Granted p a v w)

  refreshed-Granted :
      (p : Pool) (a : ℕ) (r : Outcome (CachedSession × Text))
      → env.refreshed ≡ r
      → Prepared agent env p a
      → Ensures (Granted agent env) (
          acquire_ensured agent env
            (ensure_round (record p { refreshing = true }, refreshes) none r))
  unfolding acquire_ensured ensure_round ensure_end
  refreshed-Granted p a (fail e) h v = tt
  refreshed-Granted p a (ok (s, id)) h v =
      commit-Granted (ensure_end (record p { refreshing = true }) (ok (s, id))) a
        (record { current = v.current; filed = v.filed; young = v.young }) (inr (s, id, h, refl))

  ensured-Granted :
      (p : Pool) (a : ℕ)
      → Prepared agent env p a
      → Ensures
          (Granted agent env)
          (acquire_ensured agent env (ensure_session p env.ensured [] env.refreshed))
  unfolding acquire_ensured ensure_session ensure_begin
  ensured-Granted p a v = elim (Option-cases (ready_session p env.ensured)) [
    | inr (id, e) ↦ rw (e, ensure_begin) (commit-Granted p a v (inl (id, e)))
    | inl e ↦ elim (Bool-cases p.refreshing) [
      | inl busy ↦ rw (e, ensure_begin, busy) tt
      | inr free ↦ rw (e, ensure_begin, free) (refreshed-Granted p a env.refreshed refl v)
    ]
  ]

  served-Granted :
      (p : Pool) (a : ℕ) (wakes : List (Option (Pool × ℕ)))
      → wakes ≡ []
      → Prepared agent env p a
      → Ensures (Granted agent env) (
          acquire_ensured agent env
            (ensure_session (env.meets_session p) env.ensured wakes env.refreshed))
  served-Granted p a wakes nowait v = rw (alone.session_same p, nowait) (ensured-Granted p a v)

  rotated-Granted :
      (p : Pool) (answer : Outcome Text)
      → Ensures
          (Granted agent env)
          (acquire_rotated agent env (rotate_answered p agent env.rotated answer))
  unfolding acquire_rotated rotate_answered
  rotated-Granted p (fail e) = tt
  rotated-Granted p (ok id) =
      served-Granted (rotate_commit p agent id env.rotated) p.next env.wakes alone.no_wait (
        unfold rotate_commit in
        record {
          current = rw (lookup-insert agent agent p.next p.runs, text_eq_refl agent) refl;
          filed = ground arith;
          young = ground arith;
        })

  kept-Prepared :
      (p : Pool)
      → IsOwned p
      → needs_rotate p agent env.checked ≡ false
      → (a : ℕ) × Prepared agent env p a
  unfolding needs_rotate is_due
  kept-Prepared p o h = elim (Option-cases (lookup agent p.runs)) [
    | inl e ↦ absurd (ground arith)
    | inr (a, e) ↦ (a, ground (arith, o.filed agent a e))
  ]

  acquire-Ensures :
      (p : Pool)
      → IsOwned p
      → is_cooling p env.checked ≡ false
      → Ensures (Granted agent env) (acquire p agent env)
  unfolding acquire rotate_agent
  acquire-Ensures p o warm = elim (Bool-cases (needs_rotate p agent env.checked)) [
    | inl due ↦ elim (Bool-cases (is_cooling p env.rotated)) [
      | inl cold ↦ rw (warm, due, cold) tt
      | inr warm' ↦ rw (warm, due, warm') (rotated-Granted p env.start)
    ]
    | inr young ↦
        let (a, v) = kept-Prepared p o young in
        rw (warm, young) (served-Granted p a env.wakes alone.no_wait v)
  ]

  -- A lease that `acquire` gives, if nobody else changes the pool meanwhile and it does not have to
  -- wait for another's refresh: the pool was not
  -- cooling down, the leased run is the agent's current one and counts the lease, it was not due
  -- for rotation or has just been started, and the pool's session is ready or has just been
  -- refreshed.
  pub acquire-Granted :
      (p : Pool) {q : Pool} {a : ℕ}
      → IsOwned p
      → acquire p agent env ≡ some (q, ok a)
      → (is_cooling p env.checked ≡ false) × Granted agent env q a
  acquire-Granted p {q} {a} o h =
      (warm, subst (Ensures (Granted agent env)) h (acquire-Ensures p o warm))
    where
      warm : is_cooling p env.checked ≡ false
      warm = elim (Bool-cases (is_cooling p env.checked)) [
        | inl cold ↦ unfold acquire in ground arith
        | inr no_cold ↦ no_cold
      ]
