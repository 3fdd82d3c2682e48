-- ===== src/Sessions/Trace.antt =====
-- The session manager against a specification that never forgets: a token's deadline, by the calls
-- alone. Cleaning up and deleting expired sessions cannot be seen through `Valid`.
use freebuff2api.Base.{
  subst, ℕ, ◌≤◌, ◌<◌, ◌≡◌, refl, ap, sym, inl, inr, true, false, not, Option, none, some, List, [],
  ◌∷◌, arith, ltb, Text, text_eq, text_eq_iff, lookup, delete, lookup-delete, lookup-retain,
  Unique-insert, Unique-delete, Unique-retain, Bool-cases, ◌∙◌,
}
use freebuff2api.Sessions.{
  SessionRecord, SessionManager, enabled, create, valid, valid_record, destroy, cleanup_locked,
  is_live,
}
use freebuff2api.Sessions.Calls.{
  Call, creates, valids, destroys, step, run, Deadlines, in_time, note, notes, clock_after, InOrder,
  Monotone, final_clock, Agrees, Tracks, Agrees-later, Agrees-keep, insert-Agrees, delete-Agrees,
  lookup_nil,
}

module _ (m : SessionManager) (d : Deadlines) (on : enabled m ≡ true) (t : ℕ) where
  create-Tracks :
      (token : Text) (swept now : ℕ)
      → Tracks t m d
      → (t ≤ swept)
      → (swept ≤ now)
      → Tracks now (create m token swept now).0 (note m.ttl d (creates token swept now))
  unfolding create note cleanup_locked
  create-Tracks token swept now v h k =
      rw (on, create)
        (record {
          unique = Unique-insert token _ _ (Unique-retain (is_live swept) m.sessions v.unique);
          agrees = λ j. insert-Agrees now token j _ _ _ (
              rw (lookup-retain (is_live swept) j m.sessions v.unique)
                (Agrees-later swept now _ _ k (Agrees-keep t swept _ _ h (v.agrees j))));
        })

  -- A token is in time exactly if it is stored and has not run out.
  in_time-none : (u : ℕ) (e : Option ℕ) → t ≤ u → Agrees t none e → in_time u e ≡ false
  in_time-none u none h a = refl
  in_time-none u (some e) h a = ground arith

  in_time-some :
      (u : ℕ) (r : SessionRecord) (e : Option ℕ)
      → Agrees t (some r) e
      → in_time u e ≡ not (ltb r.expires_at u)
  in_time-some u r none a = absurd a
  in_time-some u r (some e) a = ground arith

  -- A token that has run out may be dropped.
  Agrees-gone :
      (u : ℕ) (r : SessionRecord) (e : Option ℕ)
      → r.expires_at < u
      → Agrees t (some r) e
      → Agrees u none e
  Agrees-gone u r none h a = tt
  Agrees-gone u r (some e) h a = omega arith

  drop-Agrees :
      (token j : Text) (now : ℕ) (r : SessionRecord)
      → lookup token m.sessions ≡ some r
      → r.expires_at < now
      → t ≤ now
      → Tracks t m d
      → Agrees now (lookup j (delete token m.sessions)) (d j)
  drop-Agrees token j now r e late h v =
      rw (lookup-delete token j m.sessions) (elim (Bool-cases (text_eq token j)) [
        | inl same ↦ rw same (
            Agrees-gone now r (d j) late
              (rw (sym ((text_eq_iff token j).0 same)) (rw e at (v.agrees token))))
        | inr other ↦ rw other (Agrees-later t now _ _ h (v.agrees j))
      ])

  -- `Valid` on a stored token, on one that has run out, and on one that is not there.
  valid_record-Tracks :
      (token : Text) (checked now : ℕ) (r : Option SessionRecord)
      → lookup token m.sessions ≡ r
      → text_eq token [] ≡ false
      → Tracks t m d
      → (t ≤ checked)
      → (checked ≤ now)
      → Tracks now (valid_record m token checked now r).0 (note m.ttl d (valids token checked now))
        × ((valid_record m token checked now r).1 ≡ in_time checked (d token))
  unfolding valid_record note
  valid_record-Tracks token checked now none e ne v h k =
      let miss = in_time-none checked (d token) h (rw e at (v.agrees token)) in
      rw miss (
        record {
          unique = v.unique;
          agrees = λ j. rw (ne, miss) (Agrees-later t now _ _ (omega arith) (v.agrees j));
        },
        refl,
      )
  valid_record-Tracks token checked now (some r) e ne v h k =
      let hit = in_time-some checked r (d token) (rw e at (v.agrees token)) in
      elim (Bool-cases (ltb r.expires_at checked)) [
        | inl late ↦
            rw (late, hit, late)
              (
                record {
                  unique = Unique-delete token m.sessions v.unique;
                  agrees = λ j.
                      rw (ne, hit, late)
                        (drop-Agrees token j now r e (ground arith) (omega arith) v);
                },
                refl,
              )
        | inr early ↦
            rw (early, hit, early)
              (
                record {
                  unique = Unique-insert token _ m.sessions v.unique;
                  agrees = λ j.
                      rw (ne, hit, early)
                        (insert-Agrees now token j _ m.sessions (d j)
                          (Agrees-later t now _ _ (omega arith) (v.agrees j)));
                },
                refl,
              )
      ]

  valid-Tracks :
      (token : Text) (checked now : ℕ)
      → Tracks t m d
      → t ≤ checked
      → checked ≤ now
      → Tracks now (valid m token checked now).0 (note m.ttl d (valids token checked now))
  unfolding valid note
  valid-Tracks token checked now v h k = elim (Bool-cases (text_eq token [])) [
    | inl empty ↦
        rw (on, empty)
          (record {
            unique = v.unique;
            agrees = λ j. rw empty (Agrees-later t now _ _ (omega arith) (v.agrees j));
          })
    | inr other ↦
        rw (on, other)
          (valid_record-Tracks token checked now (lookup token m.sessions) refl other v h k).0
  ]

  destroy-Tracks :
      (token : Text) → Tracks t m d → Tracks t (destroy m token) (note m.ttl d (destroys token))
  unfolding destroy note
  destroy-Tracks token v = elim (Bool-cases (text_eq token [])) [
    | inl empty ↦ rw (on, empty) (record { unique = v.unique; agrees = λ j. rw empty (v.agrees j) })
    | inr other ↦
        rw (on, other)
          (record {
            unique = Unique-delete token m.sessions v.unique;
            agrees = λ j. rw other (delete-Agrees t token j m.sessions (d j) (v.agrees j));
          })
  ]

  step-Tracks :
      (c : Call) → InOrder t c → Tracks t m d → Tracks (clock_after t c) (step m c) (note m.ttl d c)
  unfolding step
  step-Tracks (creates token swept now) o v = create-Tracks token swept now v o.0 o.1
  step-Tracks (valids token checked now) o v = valid-Tracks token checked now v o.0 o.1
  step-Tracks (destroys token) o v = destroy-Tracks token v

-- No call changes the password or the time to live.
step_keeps :
    (m : SessionManager) (c : Call) → ((step m c).ttl ≡ m.ttl) × ((step m c).password ≡ m.password)
unfolding step create valid valid_record destroy cleanup_locked
step_keeps m (creates token swept now) = ground arith
step_keeps m (valids token checked now) = ground arith
step_keeps m (destroys token) = ground arith

step-enabled : (m : SessionManager) (c : Call) → enabled (step m c) ≡ enabled m
unfolding enabled
step-enabled m c = ap (λ p. not (text_eq p [])) (step_keeps m c).1

run-Tracks :
    (cs : List Call) (m : SessionManager) (d : Deadlines) (t : ℕ)
    → enabled m ≡ true
    → Monotone t cs
    → Tracks t m d
    → Tracks (final_clock t cs) (run m cs) (notes m.ttl d cs)
unfolding run notes
run-Tracks [] m d t on o v = v
run-Tracks (c ∷ cs) m d t on o v =
    subst
      (λ l.
        Tracks (final_clock (clock_after t c) cs) (run (step m c) cs) (notes l (note m.ttl d c) cs))
      (step_keeps m c).0
      (run-Tracks cs (step m c) (note m.ttl d c) (clock_after t c) (step-enabled m c ∙ on) o.1
        (step-Tracks m d on t c o.0 v))

run-enabled : (cs : List Call) (m : SessionManager) → enabled (run m cs) ≡ enabled m
unfolding run
run-enabled [] m = refl
run-enabled (c ∷ cs) m = run-enabled cs (step m c) ∙ step-enabled m c

-- After any calls of a manager that starts with no session, with clock readings that do not run
-- backwards, `Valid` says of a non-empty token exactly whether its deadline, as the calls alone set
-- it, has not passed: a clean-up by `Create` and a deletion by `Valid` cannot be seen.
pub valid-run :
    (m : SessionManager) (cs : List Call) (t checked now : ℕ) (token : Text)
    → enabled m ≡ true
    → m.sessions ≡ []
    → Monotone t cs
    → final_clock t cs ≤ checked
    → checked ≤ now
    → text_eq token [] ≡ false
    → (valid (run m cs) token checked now).1 ≡ in_time checked (notes m.ttl (λ _. none) cs token)
unfolding valid
valid-run m cs t checked now token on start o h k ne =
    let m' = run m cs in
    let d = notes m.ttl (λ _. none) cs in
    let v =
      run-Tracks cs m (λ _. none) t on o
        (record { unique = rw start tt; agrees = λ j. rw start (lookup_nil j t) }) in
    let on' = run-enabled cs m ∙ on in
    rw (on', ne)
      (valid_record-Tracks m' d on' (final_clock t cs) token checked now (lookup token m'.sessions)
        refl ne v h k).1
