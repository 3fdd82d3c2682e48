-- ===== src/Upstream.antt =====
-- upstream.go: the requests that the upstream client makes, and what it reads out of an answer. What
-- the HTTP client, `io.ReadAll` and `json.Unmarshal` return are arguments, an error by its text; `url` is
-- what `url.JoinPath` makes of the base URL and a path.
pub mod Rejected
mod Tests
use freebuff2api.Base.{
  ℕ, Bool, true, false, ◌&&◌, not, Option, none, some, List, [], ◌∷◌, ◌++◌, ltb, leb, if◌then◌else◌,
  Text, codes, text_eq, trim_space, decimal,
}
use freebuff2api.Errors.{Error, upstream, Outcome, ok, fail}
use freebuff2api.Json.{Json, num, str, obj, Fields, end, field}

-- The result of a library's call.
pub data Returned {ℓ} (A : Type ℓ) : Type ℓ where
  returns : A → Returned A
  breaks : Text → Returned A

-- `http.Response`: its status, and what `io.ReadAll` gives of its body.
pub record Reply : Type 0 where
  pub status : ℕ
  pub body : Returned Text

-- `http.Request`, as `doJSON` builds it.
pub record UpstreamRequest : Type 0 where
  pub method : Text
  pub url : Text
  pub headers : List (Text × Text)
  pub content : Json

-- `doJSON`: the request, and the error if it cannot be sent.
pub do_json_request : (Text → Text) → Text → Text → Text → Json → UpstreamRequest
do_json_request url user_agent token path content = record {
  method = codes "POST";
  url = url path;
  headers =
      (codes "Authorization", codes "Bearer " ++ token)
      ∷ (codes "Content-Type", codes "application/json")
      ∷ (codes "Accept", codes "application/json, text/event-stream")
      ∷ (codes "User-Agent", user_agent)
      ∷ [];
  content = content;
}

unfoldable pub do_json : Returned Reply → Outcome Reply
do_json (returns reply) = ok reply
do_json (breaks e) = fail (upstream (codes "send upstream request: " ++ e))

-- The payloads of `StartRun` and `FinishRun`.
pub start_payload : Text → Json
start_payload agent =
    obj (field (codes "action") (str (codes "START")) (field (codes "agentId") (str agent) end))

pub finish_payload : Text → ℕ → Json
finish_payload run_id steps = obj (
    field (codes "action") (str (codes "FINISH")) (
      field (codes "runId") (str run_id) (
        field (codes "status") (str (codes "completed")) (
          field (codes "totalSteps") (num (decimal steps)) (
            field (codes "directCredits") (num (codes "0"))
              (field (codes "totalCredits") (num (codes "0")) end))))))

abbrev pub is_success : ℕ → Bool
is_success status = leb 200 status && ltb status 300

-- The error for a status that is no success.
unfoldable pub failed_status : Text → ℕ → Text → Error
failed_status what status body =
    upstream (
      what ++ (codes " failed with status " ++ (decimal status ++ (codes ": " ++ trim_space body))))

unfoldable pub run_id_of : Text → Returned Text → Outcome Text
run_id_of body (breaks e) = fail (upstream (codes "decode start run response: " ++ e))
run_id_of body (returns id) =
    if text_eq (trim_space id) []
    then fail (upstream (codes "start run response missing runId: " ++ trim_space body))
    else ok id

module _ (decode_run_id : Text → Returned Text) where
  unfoldable pub started : ℕ → Returned Text → Outcome Text
  started status (breaks e) = fail (upstream (codes "read start run response: " ++ e))
  started status (returns body) =
      if not (is_success status)
      then fail (failed_status (codes "start run") status body)
      else run_id_of body (decode_run_id body)

  -- `StartRun`, from what the HTTP client returns on.
  unfoldable pub start_run : Returned Reply → Outcome Text
  start_run r = elim (do_json r) [ ok reply ↦ started reply.status reply.body | fail e ↦ fail e ]

unfoldable pub finished : ℕ → Returned Text → Outcome (Unit {0})
finished status (breaks e) = fail (upstream (codes "read finish run response: " ++ e))
finished status (returns body) =
    if not (is_success status) then fail (failed_status (codes "finish run") status body) else ok tt

-- `FinishRun`
unfoldable pub finish_run : Returned Reply → Outcome (Unit {0})
finish_run r = elim (do_json r) [ ok reply ↦ finished reply.status reply.body | fail e ↦ fail e ]

unfoldable pub chat_answered : ℕ → Returned Text → Outcome (ℕ × Text)
chat_answered status (returns body) = ok (status, if is_success status then [] else body)
chat_answered status (breaks e) =
    if is_success status
    then ok (status, [])
    else fail (upstream (codes "read upstream error response: " ++ e))

-- `ChatCompletions`: the status, and the body that it has read if that is no success.
unfoldable pub chat_completions : Returned Reply → Outcome (ℕ × Text)
chat_completions r = elim (do_json r) [
  | ok reply ↦ chat_answered reply.status reply.body
  | fail e ↦ fail e
]

-- `validateToken` of accounts.go: a run is started and finished.
unfoldable pub validate_token : Outcome Text → (Text → Outcome (Unit {0})) → Outcome (Unit {0})
validate_token (fail e) finish = fail e
validate_token (ok run_id) finish = finish run_id
