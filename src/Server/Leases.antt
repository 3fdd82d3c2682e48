-- ===== src/Server/Leases.antt =====
-- What a chat request does with its leases, and what it counts.
use freebuff2api.Base.{
  text_eq, ℕ, ◌+◌, ◌≤◌, ◌≡◌, refl, Bool, true, false, ◌&&◌, Option, none, some, List, [], ◌∷◌, ◌==◌,
  arith, Text, ==_refl,
}
use freebuff2api.Errors.{Outcome, ok, fail}
use freebuff2api.Dispatch.{RunLease}
use freebuff2api.Server.{
  LeasedRun, Event, request_started, request_succeeded, request_failed, account_attempted,
  account_succeeded, account_failed, leased, released, invalidated, cooled, session_invalidated,
  marked_invalid, copied, Answer, streams, AttemptEnv, attempt, attempts, settle, give_up,
  attempt_sent, attempt_leased, attempt_acquired, auth_events, ChatRequest, Checked, refuses,
  accepts, check, proxy, proxy_checked,
}

abbrev same_lease : RunLease → RunLease → Bool
same_lease l k = (l.pool == k.pool) && (l.run == k.run)

-- A lease is used only by its holder.
abbrev holds : Option RunLease → RunLease → Bool
holds none l = false
holds (some k) l = same_lease k l

-- Whether the events that have to do with leases, with some lease held before, come in a possible
-- order: one lease at a time, each is released, nothing is done with one that is not held, and none
-- is held at the end.
abbrev pub disciplined : Option RunLease → List Event → Bool
disciplined none [] = true
disciplined (some k) [] = false
disciplined none (leased l ∷ rest) = disciplined (some l) rest
disciplined (some k) (leased l ∷ rest) = false
disciplined held (released l ∷ rest) = holds held l && disciplined none rest
disciplined held (invalidated l why ∷ rest) = holds held l && disciplined held rest
disciplined held (cooled l duration why ∷ rest) = holds held l && disciplined held rest
disciplined held (session_invalidated l why ∷ rest) = holds held l && disciplined held rest
disciplined held (request_started ∷ rest) = disciplined held rest
disciplined held (request_succeeded ∷ rest) = disciplined held rest
disciplined held (request_failed ∷ rest) = disciplined held rest
disciplined held (account_attempted a ∷ rest) = disciplined held rest
disciplined held (account_succeeded a ∷ rest) = disciplined held rest
disciplined held (account_failed a ∷ rest) = disciplined held rest
disciplined held (marked_invalid a why ∷ rest) = disciplined held rest
disciplined held (copied status ∷ rest) = disciplined held rest

module _ (error_of : Text → Option Text) where
  settle-disciplined :
      (l : LeasedRun) (status : ℕ) (body : Text) (later : List Event × Answer)
      → disciplined none later.0 ≡ true
      → disciplined (some l.lease) (settle error_of l status body later).0 ≡ true
  unfolding settle auth_events
  settle-disciplined l status body (rest, answer) h =
      ground (arith, ==_refl l.lease.pool, ==_refl l.lease.run)

  attempt-disciplined :
      (env : AttemptEnv) (later : List Event × Answer)
      → disciplined none later.0 ≡ true
      → disciplined none (attempt error_of env later).0 ≡ true
  unfolding attempt attempt_acquired attempt_leased attempt_sent give_up
  attempt-disciplined env later h = go env.acquired env.injected env.responded
    where
      go :
          (acquired : Outcome LeasedRun) (injected : Outcome Text) (responded : Outcome (ℕ × Text))
          → disciplined none (attempt_acquired error_of acquired injected responded later).0 ≡ true
      go (fail e) injected responded = refl
      go (ok l) (fail e) responded = ground (arith, ==_refl l.lease.pool, ==_refl l.lease.run)
      go (ok l) (ok sent) (fail e) = ground (arith, ==_refl l.lease.pool, ==_refl l.lease.run)
      go (ok l) (ok sent) (ok (status, body)) = settle-disciplined l status body later h

  attempts-disciplined :
      (envs : List AttemptEnv) → disciplined none (attempts error_of envs).0 ≡ true
  unfolding attempts
  attempts-disciplined [] = refl
  attempts-disciplined (env ∷ rest) =
      attempt-disciplined env (attempts error_of rest) (attempts-disciplined rest)

-- Whatever a chat request meets, it handles its leases in order: it holds one at a time, does nothing
-- with one that it does not hold, and has released each when it answers.
pub proxy-disciplined :
    (error_of decode_model agent_for : Text → Option Text) (r : ChatRequest)
    (first second : AttemptEnv)
    → disciplined none (proxy error_of decode_model agent_for r first second).0 ≡ true
unfolding proxy proxy_checked
proxy-disciplined error_of decode_model agent_for r first second =
    go (check error_of decode_model agent_for r)
  where
    go :
        (c : Checked)
        → disciplined none (proxy_checked error_of decode_model agent_for c first second).0 ≡ true
    go (refuses answer) = refl
    go (accepts agent) = attempts-disciplined error_of (first ∷ second ∷ [])

-- How many events of a kind there are.
abbrev pub tally : (Event → ℕ) → List Event → ℕ
tally f [] = 0
tally f (e ∷ rest) = f e + tally f rest

abbrev pub starts : Event → ℕ
starts request_started = 1
starts e = 0

abbrev pub successes : Event → ℕ
successes request_succeeded = 1
successes e = 0

abbrev pub failures : Event → ℕ
failures request_failed = 1
failures e = 0

abbrev pub leasings : Event → ℕ
leasings (leased l) = 1
leasings e = 0

abbrev pub trials : Event → ℕ
trials (account_attempted a) = 1
trials e = 0

abbrev pub earnings : Event → ℕ
earnings (account_succeeded a) = 1
earnings e = 0

-- Whether each attempt counted for an account is counted once more, as a success or a failure of the
-- same account, before the next attempt, before the request itself is counted and before the end, or
-- is followed by an invalid session and then not counted; and nothing else is counted for an account. The attempt of `due`, if some, is to
-- be counted yet.
abbrev pub paired : Option Text → List Event → Bool
paired none [] = true
paired (some a) [] = false
paired none (account_attempted a ∷ rest) = paired (some a) rest
paired (some a) (account_attempted b ∷ rest) = false
paired none (account_succeeded b ∷ rest) = false
paired (some a) (account_succeeded b ∷ rest) = text_eq a b && paired none rest
paired none (account_failed b ∷ rest) = false
paired (some a) (account_failed b ∷ rest) = text_eq a b && paired none rest
paired due (session_invalidated l why ∷ rest) = paired none rest
paired due (request_started ∷ rest) = paired due rest
paired none (request_succeeded ∷ rest) = paired none rest
paired (some a) (request_succeeded ∷ rest) = false
paired none (request_failed ∷ rest) = paired none rest
paired (some a) (request_failed ∷ rest) = false
paired due (leased l ∷ rest) = paired due rest
paired due (released l ∷ rest) = paired due rest
paired due (invalidated l why ∷ rest) = paired due rest
paired due (cooled l duration why ∷ rest) = paired due rest
paired due (marked_invalid a why ∷ rest) = paired due rest
paired due (copied status ∷ rest) = paired due rest

abbrev pub streamed : Answer → ℕ
streamed (streams status) = 1
streamed answer = 0

-- A request that was accepted: it ends as one success or one failure, as a success exactly if the
-- upstream's answer was passed on, and takes at most two leases. Each attempt is credited to its
-- account as a success or a failure, but for those that end with an invalid session, and as a success
-- exactly if the request is one.
pub record Settled (n : ℕ) (log : List Event) (answer : Answer) : Type 0 where
  pub once : tally successes log + tally failures log ≡ 1
  pub honest : tally successes log ≡ streamed answer
  pub leases : tally leasings log ≤ n
  pub tried : tally trials log ≡ tally leasings log
  pub credited : paired none log ≡ true
  pub earned : tally earnings log ≡ tally successes log
  pub unstarted : tally starts log ≡ 0

module _ (error_of : Text → Option Text) where
  begun : LeasedRun → List Event
  begun l = leased l.lease ∷ account_attempted l.account_id ∷ []
