-- ===== src/Pool.antt =====
-- run_manager.go, `tokenPool`: the runs of one account's token, how they are leased, replaced,
-- drained and finished. A `*managedRun` is an address into `cell`, since the map of runs, the
-- draining list and the leases share the runs that they point to. Each function is what the source
-- does under one lock of `p.mu`, or such parts with the upstream's answer between them.
pub mod Current
pub mod System
pub mod Tests
use freebuff2api.Base.{
  ℕ, suc, ◌+◌, ◌-◌, ◌≡◌, Bool, true, false, ◌&&◌, ◌||◌, not, Option, none, some, List, [], ◌∷◌,
  ◌++◌, ltb, leb, ◌==◌, if◌then◌else◌, ℤ, is_positive, to_nat, Text, text_eq, lookup, insert,
  delete, remove,
}
use freebuff2api.Errors.{Error, reason, cooling_down, run_missing, Outcome, ok, fail}

-- `managedRun`
pub record Run : Type 0 where
  pub id : Text
  pub agent_id : Text
  pub started_at : ℕ
  pub inflight : ℕ
  pub request_count : ℕ
  pub finishing : Bool

pub data SessionStatus : Type 0 where
  disabled absent queued active ended superseded : SessionStatus

-- `cachedSession`; the time 0 is Go's zero time.
pub record CachedSession : Type 0 where
  pub status : SessionStatus
  pub instance_id : Text
  pub expires_at : ℕ

-- `tokenPool`. `refreshing` says that `sessionRefreshCh` is not nil, and `last_error` is none where
-- `lastError` is empty.
pub record Pool : Type 0 where
  pub account_id : Text
  pub label : Text
  pub token : Text
  pub priority : ℤ
  pub weight : ℤ
  pub retired : Bool
  pub rotation_interval : ℕ
  pub runs : List (Text × ℕ)
  pub draining : List ℕ
  pub cell : ℕ → Run
  pub next : ℕ
  pub session : Option CachedSession
  pub refreshing : Bool
  pub rebuild_scheduled : Bool
  pub last_error : Option Error
  pub cooldown_until : ℕ

-- A write through a pointer.
abbrev pub update : (ℕ → Run) → ℕ → Run → ℕ → Run
update f a r b = if b == a then r else f b

-- `now.Before(p.cooldownUntil)`
abbrev pub is_cooling : Pool → ℕ → Bool
is_cooling p now = ltb now p.cooldown_until

-- The test of `acquire`: no run for the agent, or one that is due for rotation.
unfoldable pub is_due : Pool → ℕ → ℕ → Bool
is_due p now a = leb ((p.cell a).started_at + p.rotation_interval) now

unfoldable pub needs_rotate : Pool → Text → ℕ → Bool
unfolding is_due
needs_rotate p agent now = elim (lookup agent p.runs) [ none ↦ true | some a ↦ is_due p now a ]

-- `current, ok := p.runs[run.agentID]; ok && current == run`
unfoldable pub is_current : Pool → ℕ → Bool
is_current p a = elim (lookup (p.cell a).agent_id p.runs) [
  | none ↦ false
  | some current ↦ current == a
]

abbrev pub fresh_run : Text → Text → ℕ → Run
fresh_run id agent now = record {
  id = id;
  agent_id = agent;
  started_at = now;
  inflight = 0;
  request_count = 0;
  finishing = false;
}

-- The second locked part of `rotateAgent`: the new run takes the agent, the old one drains.
unfoldable pub drain_old : Option ℕ → List ℕ → List ℕ
drain_old none draining = draining
drain_old (some old) draining = draining ++ old ∷ []

unfoldable pub rotate_commit : Pool → Text → Text → ℕ → Pool
unfolding drain_old
rotate_commit p agent id now = record p {
  runs = insert agent p.next p.runs;
  draining = drain_old (lookup agent p.runs) p.draining;
  cell = update p.cell p.next (fresh_run id agent now);
  next = suc p.next;
  last_error = none;
}

-- `rotateAgent`, given the upstream's answer to `StartRun`. What follows in a goroutine is a
-- `finish_if_ready` of the old run.
unfoldable pub rotate_answered : Pool → Text → ℕ → Outcome Text → Pool × Outcome (Unit {0})
unfolding rotate_commit
rotate_answered p agent now (ok id) = (rotate_commit p agent id now, ok tt)
rotate_answered p agent now (fail e) = (record p { last_error = some e }, fail e)

unfoldable pub rotate_agent : Pool → Text → ℕ → Outcome Text → Pool × Outcome (Unit {0})
unfolding rotate_answered
rotate_agent p agent now answer =
    if is_cooling p now
    then (p, fail (cooling_down p.cooldown_until))
    else rotate_answered p agent now answer

-- The last locked part of `acquire`: a lease on the agent's current run.
unfoldable pub acquire_commit : Pool → Text → Pool × Outcome ℕ
acquire_commit p agent = elim (lookup agent p.runs) [
  | none ↦ (p, fail run_missing)
  | some a ↦
      let r = p.cell a in
      (
        record p {
          cell =
              update p.cell a
                (record r { inflight = suc r.inflight; request_count = suc r.request_count });
        },
        ok a,
      )
]

-- The locked part of `release`; `inflight` stops at 0.
unfoldable pub release_lease : Pool → ℕ → Pool
release_lease p a =
    let r = p.cell a in
    if ltb 0 r.inflight
    then record p { cell = update p.cell a (record r { inflight = r.inflight - 1 }) }
    else p

-- The first locked part of `finishIfReady`: whether `FinishRun` is sent.
unfoldable pub finish_begin : Pool → ℕ → Pool × Bool
finish_begin p a =
    let r = p.cell a in
    if ltb 0 r.inflight || r.finishing
    then (p, false)
    else if is_current p a && not p.retired
    then (p, false)
    else (record p { cell = update p.cell a (record r { finishing = true }) }, true)

-- Takes a run out of the map, if it is its agent's current one, and off the draining list.
unfoldable pub forget : Pool → ℕ → Pool
forget p a = record p {
  runs = if is_current p a then delete (p.cell a).agent_id p.runs else p.runs;
  draining = remove a p.draining;
}

-- The last locked part of `finishIfReady`, after the upstream's answer.
unfoldable pub finish_end : Pool → ℕ → Outcome (Unit {0}) → Pool
unfolding forget
finish_end p a (ok _) = forget p a
finish_end p a (fail e) =
    let r = p.cell a in
    record p { cell = update p.cell a (record r { finishing = false }); last_error = some e }

unfoldable pub finish_if_ready : Pool → ℕ → Outcome (Unit {0}) → Pool
unfolding finish_begin finish_end
finish_if_ready p a answer =
    let (p', sent) = finish_begin p a in if sent then finish_end p' a answer else p'

unfoldable pub release : Pool → ℕ → Outcome (Unit {0}) → Pool
unfolding release_lease finish_if_ready
release p a answer = finish_if_ready (release_lease p a) a answer

-- `if reason != "" { p.lastError = reason }`
unfoldable pub noted : Text → Option Error → Option Error
noted why e = if text_eq why [] then e else some (reason why)

unfoldable pub invalidate : Pool → ℕ → Text → Pool
unfolding forget noted
invalidate p a why = let p' = forget p a in record p' { last_error = noted why p.last_error }

-- `duration` is in nanoseconds; one that is not positive does nothing.
unfoldable pub mark_cooldown : Pool → ℤ → Text → ℕ → Pool
unfolding noted
mark_cooldown p duration why now =
    if is_positive duration
    then record p { cooldown_until = now + to_nat duration; last_error = noted why p.last_error }
    else p

unfoldable pub run_addresses : List (Text × ℕ) → List ℕ
run_addresses [] = []
run_addresses ((k, a) ∷ rest) = a ∷ run_addresses rest

-- The locked part of `shutdown`: every run leaves the pool, and is to be finished.
unfoldable pub shutdown_begin : Pool → Pool × List ℕ
shutdown_begin p = (record p { runs = []; draining = [] }, run_addresses p.runs ++ p.draining)

unfoldable pub is_idle : Pool → Bool
is_idle p = elim p.draining [ _ ∷ _ ↦ false | [] ↦ elim p.runs [ _ ∷ _ ↦ false | [] ↦ true ] ]
