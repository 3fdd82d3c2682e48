-- ===== src/Server/Tests.antt =====
-- API keys and chat requests at concrete inputs.
use freebuff2api.Base.{
  ℕ, ◌≡◌, ◌⊎◌, ◌↔◌, refl, true, Option, none, some, List, [], ◌∷◌, if◌then◌else◌, Text, codes,
  text_eq,
}
use freebuff2api.Errors.{ok, reason}
use freebuff2api.Server.Answers.{Read, goes_on, broken, copy_response_body}
use freebuff2api.Server.Answers.Copied.{
  joined_chunks, body_of, end_of, written_well, copy_response_body-whole,
}
use freebuff2api.Server.{LeasedRun, AttemptEnv, ChatRequest, proxy, admits, is_run_invalid}
use freebuff2api.TextSearch.{to_lower, contains, has_prefix}
use freebuff2api.Server.Keys.{Listed, Presents, admits_iff}
use freebuff2api.Server.Leases.{disciplined, proxy-disciplined}

abbrev keys : List Text
keys = codes "one" ∷ codes "two" ∷ []

admits_iff_example :
    (admits keys (codes " Bearer  two ") ≡ true)
    ↔ ((keys ≡ []) ⊎ ((key : Text) × Listed key keys × Presents (codes " Bearer  two ") key))
admits_iff_example = admits_iff keys (codes " Bearer  two ")

is_run_invalid_test : is_run_invalid 400 (codes "error: runId not Found") ≡ true
unfolding is_run_invalid to_lower contains has_prefix
is_run_invalid_test = refl

-- The JSON decoders, on bodies that are the string itself.
decode_model : Text → Option Text
decode_model body = some body

abbrev error_of : Text → Option Text
error_of body = some body

agent_for : Text → Option Text
agent_for model = if text_eq model (codes "m") then some (codes "agent") else none

abbrev request : ChatRequest
request = record { method = codes "POST"; body = ok (codes " m ") }

abbrev leased_run : ℕ → LeasedRun
leased_run a = record { lease = record { pool = 0; run = a }; account_id = codes "id" }

-- The session has expired at first; then the answer is good.
abbrev first : AttemptEnv
first = record {
  acquired = ok (leased_run 3);
  injected = ok [];
  responded = ok (409, codes "session_expired");
}

abbrev second : AttemptEnv
second = record { acquired = ok (leased_run 4); injected = ok []; responded = ok (200, []) }

proxy-disciplined_example :
    disciplined none (proxy error_of decode_model agent_for request first second).0 ≡ true
proxy-disciplined_example = proxy-disciplined error_of decode_model agent_for request first second

-- A stream of two chunks, the last read of which fails.
abbrev reads : List Read
reads =
    goes_on (codes "data: 1") ∷ goes_on [] ∷ broken (codes "data: 2") (reason (codes "reset")) ∷ []

copy_response_body-whole_example :
    (joined_chunks (copy_response_body (written_well reads)).0 ≡ body_of reads)
    × ((copy_response_body (written_well reads)).1 ≡ end_of reads)
copy_response_body-whole_example = copy_response_body-whole reads
