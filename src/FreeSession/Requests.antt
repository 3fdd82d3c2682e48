-- ===== src/FreeSession/Requests.antt =====
-- free_session.go: the HTTP requests for a session, and what is read out of their answers. `url` is
-- what `url.JoinPath` makes of the base URL and a path.
use freebuff2api.Base.{
  ℕ, ◌≡◌, refl, ap, ◌&&◌, not, Option, some, List, [], ◌∷◌, ◌++◌, if◌then◌else◌, ◌==◌, pos, Text,
  codes, text_eq, trim_space,
}
use freebuff2api.Errors.{upstream, Outcome, ok, fail}
use freebuff2api.Pool.{CachedSession}
use freebuff2api.FreeSession.{
  Response, Reply, answered, interrupted, ends, asks, Request, create_or_refresh, get_session,
  status_text, status_of, turn, turn_of, refresh_loop, refresh_session, disabled_session,
}
use freebuff2api.Upstream.{Returned, returns, breaks, failed_status, is_success}

-- A request for the session, less its body: "{}" for POST, else none.
pub record SessionRequest : Type 0 where
  pub method : Text
  pub url : Text
  pub headers : List (Text × Text)

abbrev session_path : Text
session_path = codes "/api/v1/freebuff/session"

common_headers : Text → Text → List (Text × Text)
common_headers user_agent token =
    (codes "Authorization", codes "Bearer " ++ token)
    ∷ (codes "Accept", codes "application/json")
    ∷ (codes "User-Agent", user_agent)
    ∷ []

unfoldable pub session_headers : Text → Text → Text → Text → List (Text × Text)
unfolding common_headers
session_headers user_agent method token instance =
    common_headers user_agent token
    ++ ((if text_eq method (codes "POST")
          then (codes "Content-Type", codes "application/json") ∷ []
          else [])
        ++ (if text_eq method (codes "GET") && not (text_eq instance [])
            then (codes "x-freebuff-instance-id", instance) ∷ []
            else []))

-- The request that `doSessionRequest` sends.
pub session_request : (Text → Text) → Text → Text → Text → Text → SessionRequest
session_request url user_agent method token instance = record {
  method = method;
  url = url session_path;
  headers = session_headers user_agent method token instance;
}

-- The requests of `CreateOrRefreshSession` and `GetSession`, as `refreshSession` makes them.
unfoldable pub request_of : (Text → Text) → Text → Text → Request → SessionRequest
request_of url user_agent token create_or_refresh =
    session_request url user_agent (codes "POST") token []
request_of url user_agent token (get_session instance) =
    session_request url user_agent (codes "GET") token instance

-- The request of `EndSession`.
pub end_request : (Text → Text) → Text → Text → SessionRequest
unfolding common_headers
end_request url user_agent token = record {
  method = codes "DELETE";
  url = url session_path;
  headers = common_headers user_agent token;
}

-- What an upstream without sessions is taken to say.
abbrev pub no_sessions : Response
no_sessions = record {
  status = codes "disabled";
  instance_id = [];
  expires_at = [];
  remaining_ms = pos 0;
  estimated_wait_ms = pos 0;
  grace_period_remaining_ms = pos 0;
  message = [];
}

unfoldable pub session_decoded : Returned Response → Outcome Response
session_decoded (breaks e) = fail (upstream (codes "decode free session response: " ++ e))
session_decoded (returns r) =
    if text_eq (trim_space r.status) []
    then fail (upstream (codes "free session response missing status"))
    else ok r

unfoldable pub session_read : (Text → Returned Response) → ℕ → Returned Text → Outcome Response
session_read decode status (breaks e) = fail (upstream (codes "read free session response: " ++ e))
session_read decode status (returns body) =
    if not (is_success status)
    then fail (failed_status (codes "free session request") status body)
    else session_decoded (decode body)

-- `doSessionRequest`, from what the HTTP client returns on: a status and what reading the body gives.
unfoldable pub do_session_request :
    (Text → Returned Response) → Returned (ℕ × Returned Text) → Outcome Response
do_session_request decode (breaks e) = fail (upstream (codes "send free session request: " ++ e))
do_session_request decode (returns (status, body)) =
    if status == 404 then ok no_sessions else session_read decode status body

abbrev body_or_none : Returned Text → Text
body_or_none (returns body) = body
body_or_none (breaks e) = []

-- `EndSession` of the client, likewise; a body that cannot be read is taken as empty.
unfoldable pub end_session_answered : Returned (ℕ × Returned Text) → Outcome (Unit {0})
end_session_answered (breaks e) = fail (upstream (codes "send free session delete request: " ++ e))
end_session_answered (returns (status, body)) =
    if status == 404
    then ok tt
    else if not (is_success status)
    then fail (failed_status (codes "free session delete") status (body_or_none body))
    else ok tt

refresh_loop-ended :
    (parse_time : Text → Option ℕ) (r : Response) (replies : List Reply)
    (o : Outcome (CachedSession × Text))
    → turn parse_time r ≡ ends o
    → refresh_loop parse_time r replies ≡ ([], some o)
unfolding refresh_loop
refresh_loop-ended parse_time r [] o h = rw (h, refresh_loop) refl
refresh_loop-ended parse_time r (interrupted ∷ rest) o h = rw (h, refresh_loop) refl
refresh_loop-ended parse_time r (answered (fail e) ∷ rest) o h = rw (h, refresh_loop) refl
refresh_loop-ended parse_time r (answered (ok r') ∷ rest) o h = rw (h, refresh_loop) refl

turn-no_sessions :
    (parse_time : Text → Option ℕ) → turn parse_time no_sessions ≡ ends (ok (disabled_session, []))
unfolding turn turn_of status_of status_text trim_space text_eq
turn-no_sessions parse_time = refl

-- An upstream that answers the first request by 404 has no sessions: the pool gets the disabled
-- session, and no second request is made.
pub refresh_session-no_sessions :
    (decode : Text → Returned Response) (parse_time : Text → Option ℕ) (body : Returned Text)
    (replies : List Reply)
    → refresh_session parse_time (do_session_request decode (returns (404, body))) replies
      ≡ (create_or_refresh ∷ [], some (ok (disabled_session, [])))
unfolding do_session_request refresh_session
refresh_session-no_sessions decode parse_time body replies = ap (asks create_or_refresh) (
    refresh_loop-ended parse_time no_sessions replies (ok (disabled_session, []))
      (turn-no_sessions parse_time))
