-- ===== src/FreeSession/Refresh.antt =====
-- What `refreshSession` and its poll delay guarantee.
use freebuff2api.Base.{
  codes, ℕ, suc, ◌≤◌, ◌≡◌, ◌⊎◌, ◌≢◌, inl, inr, refl, false, Option, none, some, List, [], ◌∷◌, ◌++◌,
  map, arith, Text, text_eq, trim_space, length, All,
}
use freebuff2api.Errors.{Outcome, ok, fail}
use freebuff2api.Pool.{
  SessionStatus, disabled, absent, queued, active, ended, superseded, CachedSession,
}
use freebuff2api.FreeSession.{
  parse_optional_time, status_text, Response, Request, create_or_refresh, get_session, Reply,
  answered, interrupted, Turn, ends, polls, recreates, turn, turn_of, active_session, refresh_loop,
  refresh_session, queued_poll_delay, second, poll_interval, status_of,
}

-- Between two polls the code waits at least a second and at most five, whatever number the upstream
-- estimates, also one at which the 64-bit product overflows.
pub queued_poll_delay_bounds :
    (r : Response) → (second ≤ queued_poll_delay r) × (queued_poll_delay r ≤ poll_interval)
unfolding queued_poll_delay
queued_poll_delay_bounds r = ground arith

-- A session that the upstream granted: free sessions are disabled, or an active one has an instance.
abbrev pub Usable : CachedSession → Text → Type 0
Usable s id =
    (s.instance_id ≡ id)
    × (((s.status ≡ disabled) × (id ≡ [])) ⊎ ((s.status ≡ active) × (text_eq id [] ≡ false)))

-- A poll names an instance.
abbrev pub Named : Request → Type 0
Named create_or_refresh = Unit
Named (get_session id) = text_eq id [] ≡ false

module _ (parse_time : Text → Option ℕ) where
  turn-Usable :
      (r : Response) (st : Option SessionStatus) {s : CachedSession} {id : Text}
      → turn_of parse_time r st ≡ ends (ok (s, id))
      → Usable s id
  unfolding turn_of active_session
  turn-Usable r none h = ground arith
  turn-Usable r (some disabled) h = ground arith
  turn-Usable r (some active) h = ground arith
  turn-Usable r (some queued) h = ground arith
  turn-Usable r (some absent) h = ground arith
  turn-Usable r (some ended) h = ground arith
  turn-Usable r (some superseded) h = ground arith

  turn-ends-Usable :
      (r : Response) {s : CachedSession} {id : Text}
      → turn parse_time r ≡ ends (ok (s, id))
      → Usable s id
  unfolding turn
  turn-ends-Usable r h = turn-Usable r (status_of (trim_space r.status)) h

  refresh_loop-Usable :
      (r : Response) (replies : List Reply) {s : CachedSession} {id : Text}
      → (refresh_loop parse_time r replies).1 ≡ some (ok (s, id))
      → Usable s id
  unfolding refresh_loop
  refresh_loop-Usable r [] {s} {id} h = ground (arith, turn-ends-Usable r {s = s} {id = id})
  refresh_loop-Usable r (interrupted ∷ rest) {s} {id} h =
      ground
        (arith, turn-ends-Usable r {s = s} {id = id}, refresh_loop-Usable r rest {s = s} {id = id})
  refresh_loop-Usable r (answered (fail e) ∷ rest) {s} {id} h =
      ground (arith, turn-ends-Usable r {s = s} {id = id})
  refresh_loop-Usable r (answered (ok r') ∷ rest) {s} {id} h =
      ground
        (arith, turn-ends-Usable r {s = s} {id = id}, refresh_loop-Usable r' rest {s = s} {id = id})

  -- Whatever the upstream answers, a session that `refreshSession` returns can be used: either free
  -- sessions are disabled and the instance is empty, or it is active and its instance, the same in
  -- the session and beside it, is not empty.
  pub refresh_session-Usable :
      (first : Outcome Response) (replies : List Reply) {s : CachedSession} {id : Text}
      → (refresh_session parse_time first replies).1 ≡ some (ok (s, id))
      → Usable s id
  unfolding refresh_session
  refresh_session-Usable (ok r) replies h = refresh_loop-Usable r replies h
  refresh_session-Usable (fail e) replies h = cc

  turn_of-polls :
      (r : Response) (st : Option SessionStatus) (id : Text)
      → turn_of parse_time r st ≡ polls id
      → text_eq id [] ≡ false
  unfolding turn_of
  turn_of-polls r none id h = cc
  turn_of-polls r (some disabled) id h = cc
  turn_of-polls r (some active) id h = cc
  turn_of-polls r (some queued) id h = ground arith
  turn_of-polls r (some absent) id h = cc
  turn_of-polls r (some ended) id h = cc
  turn_of-polls r (some superseded) id h = cc

  turn-polls : (r : Response) (id : Text) → turn parse_time r ≡ polls id → text_eq id [] ≡ false
  unfolding turn
  turn-polls r id h = turn_of-polls r (status_of (trim_space r.status)) id h

  Turn-cases :
      (r : Response)
      → ((o : Outcome (CachedSession × Text)) × (turn parse_time r ≡ ends o))
        ⊎ ((id : Text) × (turn parse_time r ≡ polls id) × (text_eq id [] ≡ false))
        ⊎ (turn parse_time r ≡ recreates)
  Turn-cases r = go (turn parse_time r) refl
    where
      go :
          (t : Turn)
          → turn parse_time r ≡ t
          → ((o : Outcome (CachedSession × Text)) × (turn parse_time r ≡ ends o))
            ⊎ ((id : Text) × (turn parse_time r ≡ polls id) × (text_eq id [] ≡ false))
            ⊎ (turn parse_time r ≡ recreates)
      go (ends o) e = inl (o, e)
      go (polls id) e = inr (inl (id, e, turn-polls r id e))
      go recreates e = inr (inr e)

  -- What one more request adds to a log.
  refresh_loop-Named :
      (r : Response) (replies : List Reply)
      → All Named (refresh_loop parse_time r replies).0
        × (length (refresh_loop parse_time r replies).0 ≤ length replies)
  unfolding refresh_loop
  refresh_loop-Named r [] = ground (arith, Turn-cases r)
  refresh_loop-Named r (interrupted ∷ rest) =
      ground (arith, Turn-cases r, refresh_loop-Named r rest)
  refresh_loop-Named r (answered (fail e) ∷ rest) = ground (arith, Turn-cases r)
  refresh_loop-Named r (answered (ok r') ∷ rest) =
      ground (arith, Turn-cases r, refresh_loop-Named r' rest)

  -- What the upstream's protocol says of a response. It asks to wait for an instance, or to start
  -- again.
  abbrev pub StatusIs : Response → Text → Type 0
  StatusIs r s = trim_space r.status ≡ s

  abbrev pub Waits : Response → Type 0
  Waits r =
      (StatusIs r (codes "queued") × (text_eq (trim_space r.instance_id) [] ≡ false))
      ⊎ StatusIs r (codes "none")
      ⊎ StatusIs r (codes "ended")
      ⊎ StatusIs r (codes "superseded")

  -- When a session expires, 0 for never.
  abbrev pub Expires : Response → ℕ → Type 0
  Expires r t =
      ((trim_space r.expires_at ≡ []) × (t ≡ 0))
      ⊎ ((text_eq (trim_space r.expires_at) [] ≡ false)
          × (parse_time (trim_space r.expires_at) ≡ some t))

  -- It grants a session, which is disabled or active.
  abbrev pub Grants : Response → CachedSession → Type 0
  Grants r s =
      (StatusIs r (codes "disabled")
        × (s ≡ record { status = disabled; instance_id = []; expires_at = 0 }))
      ⊎ (StatusIs r (codes "active")
          × (text_eq (trim_space r.instance_id) [] ≡ false)
          × ((t : ℕ) × Expires r t
              × (s ≡ record {
                status = active;
                instance_id = trim_space r.instance_id;
                expires_at = t;
              })))

  Grants-ends :
      (r : Response) (s : CachedSession)
      → Grants r s
      → turn parse_time r ≡ ends (ok (s, s.instance_id))
  unfolding turn turn_of status_of status_text text_eq active_session parse_optional_time
  Grants-ends r s (inl (e, f)) = rw (e, f) refl
  Grants-ends r s (inr (e, n, (t, inl (x, z), f))) = rw (e, n, x, f, z) refl
  Grants-ends r s (inr (e, n, (t, inr (x, z), f))) = rw (e, n, x, z, f) refl

  Waits-pending :
      (r : Response) → Waits r → (o : Outcome (CachedSession × Text)) → turn parse_time r ≢ ends o
  unfolding turn turn_of status_of status_text text_eq
  Waits-pending r (inl (e, n)) o = rw (e, n) cc
  Waits-pending r (inr (inl e)) o = rw e cc
  Waits-pending r (inr (inr (inl e))) o = rw e cc
  Waits-pending r (inr (inr (inr e))) o = rw e cc

  refresh_loop-ends :
      (r : Response) (later : List Reply) (o : Outcome (CachedSession × Text))
      → turn parse_time r ≡ ends o
      → (refresh_loop parse_time r later).1 ≡ some o
  unfolding refresh_loop
  refresh_loop-ends r [] o f = ground arith
  refresh_loop-ends r (interrupted ∷ rest) o f = ground arith
  refresh_loop-ends r (answered (fail e) ∷ rest) o f = ground arith
  refresh_loop-ends r (answered (ok r') ∷ rest) o f = ground arith

  -- The loop goes on through every response that asks to wait, and ends at one that does not.
  refresh_loop-Grants :
      (r : Response) (pending : List Response) (last : Response)
      (o : Outcome (CachedSession × Text)) (later : List Reply)
      → Waits r
      → All Waits pending
      → turn parse_time last ≡ ends o
      → (refresh_loop parse_time r (map (λ r'. answered (ok r')) (pending ++ last ∷ []) ++ later)).1
        ≡ some o
  unfolding refresh_loop
  refresh_loop-Grants r [] last o later p ps f = elim (Turn-cases r) [
    | inl (o', e) ↦ absurd (Waits-pending r p o' e)
    | inr (inl (id, e, _)) ↦ rw (e, refresh_loop) (refresh_loop-ends last later o f)
    | inr (inr e) ↦ rw (e, refresh_loop) (refresh_loop-ends last later o f)
  ]
  refresh_loop-Grants r (q ∷ pending) last o later p ps f = elim (Turn-cases r) [
    | inl (o', e) ↦ absurd (Waits-pending r p o' e)
    | inr (inl (id, e, _)) ↦
        rw (e, refresh_loop) (refresh_loop-Grants q pending last o later ps.0 ps.1 f)
    | inr (inr e) ↦ rw (e, refresh_loop) (refresh_loop-Grants q pending last o later ps.0 ps.1 f)
  ]

  -- The requests of `refreshSession` start with one for a new session, each poll among them names an
  -- instance, and there is at most one more than replies.
  pub refresh_session-Named :
      (first : Outcome Response) (replies : List Reply)
      → All Named (refresh_session parse_time first replies).0
        × (length (refresh_session parse_time first replies).0 ≤ suc (length replies))
  unfolding refresh_session
  refresh_session-Named (fail e) replies = ((tt, tt), omega arith)
  refresh_session-Named (ok r) replies =
      let tail = refresh_loop-Named r replies in ((tt, tail.0), omega (arith, tail.1))

  -- However many responses ask to wait for an instance or to start again, `refreshSession` goes on to
  -- the first that grants a session, disabled or active, and returns that session with its instance,
  -- whatever the upstream would have answered later.
  pub refresh_session-Grants :
      (r : Response) (pending : List Response) (last : Response) (s : CachedSession)
      (later : List Reply)
      → Waits r
      → All Waits pending
      → Grants last s
      → (refresh_session parse_time
          (ok r)
          (map (λ r'. answered (ok r')) (pending ++ last ∷ []) ++ later)).1
        ≡ some (ok (s, s.instance_id))
  unfolding refresh_session
  refresh_session-Grants r pending last s later p ps g =
      refresh_loop-Grants r pending last (ok (s, s.instance_id)) later p ps (Grants-ends last s g)
