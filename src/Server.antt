-- ===== src/Server.antt =====
-- server.go: API keys, and the handling of a chat request, as the list of what it does to the
-- statistics, the leases and the accounts, and its answer, less the messages. `decode_model` is what
-- `json.Unmarshal` finds in a request body: none if it is no JSON object, the string under "model",
-- empty where there is none; `error_of` is the same for "error" in an upstream answer; `agent_for` is
-- `AgentForModel` of the model registry.
pub mod Leases
pub mod Keys
pub mod Answers
mod Tests
use freebuff2api.Base.{
  ℕ, suc, ◌+◌, Bool, true, false, ◌&&◌, ◌||◌, not, Option, none, some, List, [], ◌∷◌, ◌++◌, ltb,
  leb, ◌==◌, if◌then◌else◌, ℤ, pos, Text, codes, text_eq, trim_space,
}
use freebuff2api.Errors.{Error, Outcome, ok, fail}
use freebuff2api.Dispatch.{RunLease}
use freebuff2api.TextSearch.{
  has_prefix, drop_prefix, trim_prefix, contains_string, to_lower, contains,
}

abbrev pub bearer : Text
bearer = codes "Bearer "

-- `authorized`, by the header `Authorization`.
unfoldable pub authorized : List Text → Text → Bool
authorized keys header =
    let authorization = trim_space header in
    if text_eq authorization []
    then false
    else if not (has_prefix authorization bearer)
    then false
    else contains_string keys (trim_space (trim_prefix authorization bearer))

-- `requireAPIKey`: whether the request goes on to the handler.
unfoldable pub admits : List Text → Text → Bool
admits [] header = true
admits (key ∷ keys) header = authorized (key ∷ keys) header

-- `isRunInvalid`
unfoldable pub is_run_invalid : ℕ → Text → Bool
is_run_invalid status body =
    if not (status == 400)
    then false
    else let message = to_lower body in
      contains message (codes "runid not found") || contains message (codes "runid not running")

-- The cases of `isSessionInvalid`.
unfoldable pub session_errors : List Text
session_errors =
    codes "freebuff_update_required"
    ∷ codes "waiting_room_required"
    ∷ codes "waiting_room_queued"
    ∷ codes "session_superseded"
    ∷ codes "session_expired"
    ∷ []

-- `runLease`, with the account of its pool.
pub record LeasedRun : Type 0 where
  pub lease : RunLease
  pub account_id : Text

-- What a request does beside its answer.
pub data Event : Type 0 where
  -- the statistics: of all requests, and of an account
  request_started request_succeeded request_failed : Event
  account_attempted account_succeeded account_failed : Text → Event
  -- `Acquire`, `Release`, `Invalidate`, `Cooldown` (in nanoseconds), and `invalidateSession` of the
  -- lease's pool
  leased released : RunLease → Event
  invalidated : RunLease → Text → Event
  cooled : RunLease → ℕ → Text → Event
  session_invalidated : RunLease → Text → Event
  -- `MarkInvalid`
  marked_invalid : Text → Text → Event
  -- the upstream's answer is copied to the client
  copied : ℕ → Event

-- The answer: an error of the proxy, with its status, type and code, the upstream's answer, or the
-- upstream's error.
pub data Answer : Type 0 where
  rejects : ℕ → Text → Text → Answer
  streams : ℕ → Answer
  passes_error : ℕ → Text → Answer

-- What an attempt meets: the run manager's, the encoder's and the upstream's results.
pub record AttemptEnv : Type 0 where
  pub acquired : Outcome LeasedRun
  pub injected : Outcome Text
  pub responded : Outcome (ℕ × Text)

abbrev pub invalid_request : Text
invalid_request = codes "invalid_request_error"

abbrev pub server_error : Text
server_error = codes "server_error"

abbrev pub auth_rejected : Text
auth_rejected = codes "upstream auth rejected token"

-- 30 * time.Minute
abbrev pub auth_cooldown : ℕ
auth_cooldown = 1800000000000

abbrev pub after : List Event → List Event × Answer → List Event × Answer
after events (rest, answer) = (events ++ rest, answer)

-- What a status 401 does beside.
auth_events : LeasedRun → ℕ → List Event
auth_events l status =
    if status == 401
    then cooled l.lease auth_cooldown auth_rejected
      ∷ session_invalidated l.lease auth_rejected
      ∷ marked_invalid l.account_id auth_rejected
      ∷ []
    else []

module _ (error_of : Text → Option Text) where
  -- `isSessionInvalid`
  unfoldable pub is_session_invalid : ℕ → Text → Bool
  is_session_invalid status body = if ltb status 400 then false else elim (error_of body) [
    | none ↦ false
    | some e ↦ contains_string session_errors (trim_space e)
  ]

  -- An attempt, once the upstream has answered; `later` is what the next attempt does.
  settle : LeasedRun → ℕ → Text → List Event × Answer → List Event × Answer
  unfolding auth_events
  settle l status body later =
      if leb 200 status && ltb status 300
      then (
        account_succeeded l.account_id ∷ request_succeeded ∷ copied status ∷ released l.lease ∷ [],
        streams status,
      )
      else if is_session_invalid status body
      then after (session_invalidated l.lease (trim_space body) ∷ released l.lease ∷ []) later
      else if is_run_invalid status body
      then after
          (account_failed l.account_id
            ∷ invalidated l.lease (trim_space body)
            ∷ released l.lease
            ∷ [])
          later
      else (
        account_failed l.account_id
            ∷ request_failed
            ∷ (auth_events l status ++ released l.lease ∷ []),
        passes_error status body,
      )

  give_up : LeasedRun → Answer → List Event × Answer
  give_up l answer = (account_failed l.account_id ∷ request_failed ∷ released l.lease ∷ [], answer)

  attempt_sent : LeasedRun → Outcome (ℕ × Text) → List Event × Answer → List Event × Answer
  unfolding settle give_up
  attempt_sent l (fail e) later = give_up l (rejects 502 server_error [])
  attempt_sent l (ok (status, body)) later = settle l status body later

  attempt_leased :
      LeasedRun → Outcome Text → Outcome (ℕ × Text) → List Event × Answer → List Event × Answer
  unfolding attempt_sent give_up
  attempt_leased l (fail e) responded later = give_up l (rejects 400 invalid_request [])
  attempt_leased l (ok sent) responded later = attempt_sent l responded later

  -- A round of the loop of `proxyChatCompletions`.
  attempt_acquired :
      Outcome LeasedRun
      → Outcome Text
      → Outcome (ℕ × Text)
      → List Event × Answer
      → List Event × Answer
  unfolding attempt_leased
  attempt_acquired (fail e) injected responded later =
      (request_failed ∷ [], rejects 502 server_error [])
  attempt_acquired (ok l) injected responded later =
      after (leased l.lease ∷ account_attempted l.account_id ∷ [])
        (attempt_leased l injected responded later)

  unfoldable pub attempt : AttemptEnv → List Event × Answer → List Event × Answer
  unfolding attempt_acquired
  attempt env later = attempt_acquired env.acquired env.injected env.responded later

  -- The loop over the attempts given, and what follows it.
  unfoldable pub attempts : List AttemptEnv → List Event × Answer
  attempts [] = (request_failed ∷ [], rejects 502 server_error [])
  attempts (env ∷ rest) = attempt env (attempts rest)

-- The request, as far as the handler looks at it; a body that cannot be read is a failure.
pub record ChatRequest : Type 0 where
  pub method : Text
  pub body : Outcome Text

-- The checks before the first attempt: the answer, or the agent.
pub data Checked : Type 0 where
  refuses : Answer → Checked
  accepts : Text → Checked

module _ (error_of decode_model agent_for : Text → Option Text) where
  check_model : Text → Checked
  check_model model =
      if text_eq model []
      then refuses (rejects 400 invalid_request [])
      else elim (agent_for model) [
        | none ↦ refuses (rejects 400 invalid_request (codes "model_not_found"))
        | some agent ↦ accepts agent
      ]

  check_body : Outcome Text → Checked
  unfolding check_model
  check_body (fail e) = refuses (rejects 400 invalid_request [])
  check_body (ok body) = elim (decode_model body) [
    | none ↦ refuses (rejects 400 invalid_request [])
    | some model ↦ check_model (trim_space model)
  ]

  unfoldable pub check : ChatRequest → Checked
  unfolding check_body
  check r =
      if not (text_eq r.method (codes "POST"))
      then refuses (rejects 405 invalid_request [])
      else check_body r.body

  proxy_checked : Checked → AttemptEnv → AttemptEnv → List Event × Answer
  proxy_checked (refuses answer) first second = ([], answer)
  proxy_checked (accepts agent) first second =
      after (request_started ∷ []) (attempts error_of (first ∷ second ∷ []))

  -- `proxyChatCompletions`; `second` is what a second attempt meets, if there is one.
  unfoldable pub proxy : ChatRequest → AttemptEnv → AttemptEnv → List Event × Answer
  unfolding proxy_checked
  proxy r first second = proxy_checked (check r) first second
