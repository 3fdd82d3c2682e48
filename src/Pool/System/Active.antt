-- ===== src/Pool/System/Active.antt =====
-- A pool that is not retired, and what can go wrong in one that is.
use freebuff2api.Base.{
  ℕ, ◌<◌, ◌+◌, ◌≡◌, ◌⊎◌, ◌≢◌, true, false, ◌∷◌, arith, lookup, count, some, Text, count-cons,
  count-remove_one, remove_one,
}
use freebuff2api.Errors.{Error, Outcome, ok, fail}
use freebuff2api.Pool.{
  Pool, is_current, acquire_commit, release_lease, finish_begin, finish_end, shutdown_begin,
}
use freebuff2api.Pool.Current.{
  is_current_of_lookup, is_current-rotate_commit, is_current-finish_end_ok, is_current-invalidate,
}
use freebuff2api.Pool.System.{
  System, SameRuns, Step, rotates, leases, releases, sends, answers, invalidates, shuts, closes,
  others, Reach, here, step_on, after_answer, after_shutdown, after_closing,
}
use freebuff2api.Pool.System.Invariant.{Inv}
use freebuff2api.Pool.System.Reachable.{IsNew, Reach-Inv}
use freebuff2api.Pool.System.Preserved.{lease-lookup}

-- While a pool is not retired, a run whose FINISH by `finishIfReady` is on its way or has succeeded is
-- not current,
-- and nobody holds or gets a lease on it.
record Settled (s : System) (a : ℕ) : Type 0 where
  settled :
      (count a s.sending + count a s.finished ≡ 0)
      ⊎ ((is_current s.pool a ≡ false) × (count a s.held ≡ 0))

-- Reachability through states that all have a property.
pub data ReachWhile (P : System → Type 0) (s : System) : System → Type 0 where
  starts : P s → ReachWhile P s s
  goes : {t u : System} → ReachWhile P s t → Step t u → P u → ReachWhile P s u

abbrev pub IsActive : System → Type 0
IsActive s = s.pool.retired ≡ false

pub Reach-of_while : {P : System → Type 0} {s t : System} → ReachWhile P s t → Reach s t
Reach-of_while (starts p) = here
Reach-of_while (goes r st p) = step_on (Reach-of_while r) st

while_holds : {P : System → Type 0} {s t : System} → ReachWhile P s t → P t
while_holds (starts p) = p
while_holds (goes r st p) = p

lease-Settled :
    (s : System) (agent : Text) (a b : ℕ)
    → (acquire_commit s.pool agent).1 ≡ ok a
    → Inv s
    → Settled s b
    → Settled (record s { pool = (acquire_commit s.pool agent).0; held = a ∷ s.held }) b
unfolding acquire_commit is_current
lease-Settled s agent a b e v h =
    ground (arith, count-cons b a s.held, lease-lookup s.pool agent a e, v.owned.filed agent a)

release-Settled :
    (s : System) (a b : ℕ)
    → Settled s b
    → Settled (record s { pool = release_lease s.pool a; held = remove_one a s.held }) b
unfolding release_lease is_current
release-Settled s a b h = ground (arith, count-remove_one a b s.held)

send-Settled :
    (s : System) (a b : ℕ)
    → (finish_begin s.pool a).1 ≡ true
    → Inv s
    → IsActive s
    → Settled s b
    → Settled (record s { pool = (finish_begin s.pool a).0; sending = a ∷ s.sending }) b
unfolding finish_begin is_current
send-Settled s a b e v on h = ground (arith, v.at b, count-cons b a s.sending)

answer_ok-Settled :
    (s : System) (a b : ℕ)
    → 0 < count a s.sending
    → Settled s b
    → Inv s
    → Settled (after_answer s a (ok tt)) b
answer_ok-Settled s a b k h v = ground (
  arith,
  v.at b,
  count-remove_one a b s.sending,
  count-cons b a s.finished,
  is_current-finish_end_ok s.pool a b,
)

answer_fail-Settled :
    (s : System) (a b : ℕ) (e : Error) → Settled s b → Inv s → Settled (after_answer s a (fail e)) b
unfolding finish_end is_current
answer_fail-Settled s a b e h v = ground (arith, v.at b, count-remove_one a b s.sending)

shutdown-Settled : (s : System) (b : ℕ) → Settled s b → Settled (after_shutdown s) b
unfolding shutdown_begin is_current lookup
shutdown-Settled s b h = ground arith

closing-Settled :
    (s : System) (a b : ℕ) (answer : Outcome (Unit {0}))
    → Settled s b
    → Settled (after_closing s a answer) b
closing-Settled s a b answer h = ground arith

others-Settled :
    (s : System) (q : Pool) (b : ℕ)
    → SameRuns s.pool q
    → Settled s b
    → Settled (record s { pool = q }) b
unfolding is_current
others-Settled s q b same h = ground arith

Step-Settled : {s t : System} (b : ℕ) → Step s t → Inv s → IsActive s → Settled s b → Settled t b
Step-Settled b (rotates s agent id now) v on h =
    ground (arith, v.at b, is_current-rotate_commit s.pool agent id now b)
Step-Settled b (leases s agent a e) v on h = lease-Settled s agent a b e v h
Step-Settled b (releases s a k) v on h = release-Settled s a b h
Step-Settled b (sends s a k e) v on h = send-Settled s a b e v on h
Step-Settled b (answers s a (ok u) k) v on h = answer_ok-Settled s a b k h v
Step-Settled b (answers s a (fail e) k) v on h = answer_fail-Settled s a b e h v
Step-Settled b (invalidates s a why k) v on h = ground (arith, is_current-invalidate s.pool a b why)
Step-Settled b (shuts s) v on h = shutdown-Settled s b h
Step-Settled b (closes s a answer k) v on h = closing-Settled s a b answer h
Step-Settled b (others s q same) v on h = others-Settled s q b same h

IsNew-Settled : (s : System) (a : ℕ) → IsNew s → Settled s a
unfolding count
IsNew-Settled s a n = ground arith

while-Settled : {s t : System} (a : ℕ) → IsNew s → ReachWhile IsActive s t → Settled t a
while-Settled {s} a n (starts p) = IsNew-Settled s a n
while-Settled a n (goes r st p) =
    Step-Settled a st (Reach-Inv n (Reach-of_while r)) (while_holds r) (while-Settled a n r)

-- As long as a new pool has not been retired, nobody holds a lease on a run whose FINISH by
-- `finishIfReady` is on its way or has succeeded, that run is not current, and `acquire` gives no lease
-- on it. (`shutdown` sends FINISH for all runs of the pool without looking at their leases.)
pub finished-not_leased :
    {s t : System} (a : ℕ) (agent : Text)
    → IsNew s
    → ReachWhile IsActive s t
    → 0 < count a t.sending + count a t.finished
    → (count a t.held ≡ 0)
      × (is_current t.pool a ≡ false)
      × ((acquire_commit t.pool agent).1 ≢ ok a)
finished-not_leased {s} {t} a agent n r h = (
  omega (arith, part.1),
  part.0,
  λ e. cc (is_current_of_lookup t.pool agent a v.owned (lease-lookup t.pool agent a e), part.0),
)
  where
    v : Inv t
    v = Reach-Inv n (Reach-of_while r)

    part : (is_current t.pool a ≡ false) × (count a t.held ≡ 0)
    part = ground (arith, while-Settled a n r)

-- In a retired pool this fails: whenever an agent's current run is idle, the maintenance of a
-- retired pool can send its FINISH, and a request that chose the pool before it was retired can
-- still take a lease on the run before the upstream answers.
pub retired-leased :
    (s : System) (agent : Text) (a : ℕ)
    → s.pool.retired ≡ true
    → lookup agent s.pool.runs ≡ some a
    → a < s.pool.next
    → (s.pool.cell a).inflight ≡ 0
    → (s.pool.cell a).finishing ≡ false
    → (t : System) × Reach s t × (0 < count a t.sending) × (0 < count a t.held)
unfolding finish_begin
retired-leased s agent a gone e h idle unmarked = (
  u,
  step_on (step_on here (sends s a h sent)) (leases t agent a leased),
  ground (arith, count-cons a a s.sending),
  ground (arith, count-cons a a s.held),
)
  where
    sent : (finish_begin s.pool a).1 ≡ true
    sent = ground arith

    t : System
    t = record s { pool = (finish_begin s.pool a).0; sending = a ∷ s.sending }

    leased : (acquire_commit t.pool agent).1 ≡ ok a
    leased = unfold acquire_commit in ground arith

    u : System
    u = record t { pool = (acquire_commit t.pool agent).0; held = a ∷ t.held }
