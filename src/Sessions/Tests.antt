-- ===== src/Sessions/Tests.antt =====
-- The login sessions at concrete inputs.
use freebuff2api.Base.{◌≡◌, refl, true, [], ◌∷◌, List, codes, text_eq, arith}
use freebuff2api.Sessions.{SessionManager, enabled, valid}
use freebuff2api.Sessions.Trace.{valid-run}
use freebuff2api.Sessions.Calls.{Call, creates, valids, destroys, run, notes, note}

abbrev manager : SessionManager
manager = record { password = codes "secret"; ttl = 10; sessions = [] }

abbrev calls : List Call
calls =
    creates (codes "a") 0 1
    ∷ valids (codes "a") 5 6
    ∷ creates (codes "b") 8 9
    ∷ destroys (codes "b")
    ∷ []

-- The first session was used at 6, so that it lives until 16.
valid-run_example : (valid (run manager calls) (codes "a") 12 13).1 ≡ true
unfolding enabled text_eq notes note
valid-run_example =
    valid-run manager calls 0 12 13 (codes "a") refl refl
      (
        (omega arith, omega arith),
        ((omega arith, omega arith), ((omega arith, omega arith), (tt, tt))),
      )
      (omega arith) (omega arith) refl
