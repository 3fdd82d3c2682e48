-- ===== src/Server/Answers.antt =====
-- server.go: what is written to the client. `decode` is what `json.Unmarshal` into a map finds in a
-- body, `is_json` is `json.Valid`, `status_text` is `http.StatusText`, `marshal` is `json.Marshal`.
pub mod Copied
use freebuff2api.Base.{
  ℕ, Bool, ◌&&◌, not, Option, none, some, List, [], ◌∷◌, ◌++◌, if◌then◌else◌, Text, codes, text_eq,
  trim_space, lookup, insert, delete,
}
use freebuff2api.TextSearch.{equal_fold}
use freebuff2api.Errors.{Error, Outcome, ok, fail}
use freebuff2api.Json.{
  Json, num, str, arr, obj, Items, nil, cons, Fields, end, field, get_field, set_field,
}

-- The string under a key, if it is not blank.
abbrev string_at : Option Json → Option Text
string_at (some (str t)) = if text_eq (trim_space t) [] then none else some t
string_at _ = none

abbrev or_text : Option Text → Text → Text
or_text (some t) other = t
or_text none other = other

-- The message, the type and the code of an error.
pub record ApiError : Type 0 where
  pub message : Text
  pub kind : Text
  pub code : Text

abbrev pub upstream_error : Text
upstream_error = codes "upstream_error"

unfoldable pub error_field : Option Json → ApiError
error_field (some (str t)) = record { message = []; kind = upstream_error; code = t }
error_field (some (obj f)) = record {
  message = or_text (string_at (get_field (codes "message") f)) [];
  kind = or_text (string_at (get_field (codes "type") f)) upstream_error;
  code = or_text (string_at (get_field (codes "code") f)) [];
}
error_field _ = record { message = []; kind = upstream_error; code = [] }

-- The message of the payload itself, or the body where there is none.
unfoldable pub with_message : ApiError → Fields → Text → ApiError
with_message e payload body =
    let message = or_text (string_at (get_field (codes "message") payload)) e.message in
    record e { message = if text_eq message [] then trim_space body else message }

-- `extractUpstreamError`
unfoldable pub extract_upstream_error : (Text → Option Fields) → Text → ApiError
extract_upstream_error decode body = elim (decode body) [
  | none ↦ record { message = trim_space body; kind = upstream_error; code = [] }
  | some payload ↦ with_message (error_field (get_field (codes "error") payload)) payload body
]

-- The payload of `writeOpenAIError`.
unfoldable pub open_ai_error : (ℕ → Text) → ℕ → ApiError → Json
open_ai_error status_text status e =
    let message = if text_eq e.message [] then status_text status else e.message in
    let content = field (codes "message") (str message) (field (codes "type") (str e.kind) end) in
    obj (
      field (codes "error")
        (obj (if text_eq e.code [] then content else set_field (codes "code") (str e.code) content))
        end)

-- The payload of `writePassthroughError`.
unfoldable pub passthrough_error :
    (Text → Bool) → (Text → Option Fields) → (ℕ → Text) → ℕ → Text → Json
passthrough_error is_json decode status_text status body =
    let trimmed = trim_space body in
    open_ai_error status_text status (
      if not (text_eq trimmed []) && is_json trimmed
      then extract_upstream_error decode trimmed
      else record { message = trim_space trimmed; kind = upstream_error; code = [] })

-- What is sent: the status, the content type, and the body.
pub record Sent : Type 0 where
  pub status : ℕ
  pub content_type : Text
  pub body : Text

abbrev encoding_failed : Text
encoding_failed =
    codes "{\"error\":{\"message\":\"failed to encode response\",\"type\":\"server_error\"}}\n"

abbrev encoded : ℕ → Outcome Text → Sent
encoded status (ok body) = record {
  status = status;
  content_type = codes "application/json";
  body = body;
}
encoded status (fail e) = record {
  status = 500;
  content_type = codes "text/plain; charset=utf-8";
  body = encoding_failed;
}

-- `writeJSON`; `http.Error` ends its text with a line feed.
unfoldable pub write_json : (Json → Outcome Text) → ℕ → Json → Sent
write_json marshal status payload = encoded status (marshal payload)

-- `http.Header` with keys in canonical form. `dst.Del` and `dst.Add` on such a key.
abbrev Headers : Type 0
Headers = List (Text × List Text)

add_value : Headers → Text → Text → Headers
add_value h key value = elim (lookup key h) [
  | none ↦ insert key (value ∷ []) h
  | some values ↦ insert key (values ++ value ∷ []) h
]

add_values : Headers → Text → List Text → Headers
unfolding add_value
add_values h key [] = h
add_values h key (value ∷ rest) = add_values (add_value h key value) key rest

-- `copyHeaders`
unfoldable pub copy_headers :
    List (Text × List Text) → List (Text × List Text) → List (Text × List Text)
unfolding add_values
copy_headers dst [] = dst
copy_headers dst ((key, values) ∷ rest) =
    if equal_fold key (codes "Content-Length")
    then copy_headers dst rest
    else copy_headers (add_values (delete key dst) key values) rest

-- A call of `Read`: the bytes, and whether the body goes on, ends, or fails.
pub data Read : Type 0 where
  goes_on at_end : Text → Read
  broken : Text → Error → Read

-- A write, unless there are no bytes; what follows a write that succeeds.
write_then :
    Text
    → Outcome (Unit {0})
    → List Text × Option (Outcome (Unit {0}))
    → List Text × Option (Outcome (Unit {0}))
write_then [] written later = later
write_then (b ∷ bytes) (ok _) later = ((b ∷ bytes) ∷ later.0, later.1)
write_then (b ∷ bytes) (fail e) later = ((b ∷ bytes) ∷ [], some (fail e))

-- `copyResponseBody`: the chunks that it writes, and its result; none if the reads given do not bring it
-- to an end. `writes` are the results of the writes, one for each read.
unfoldable pub copy_response_body :
    List (Read × Outcome (Unit {0})) → List Text × Option (Outcome (Unit {0}))
unfolding write_then
copy_response_body [] = ([], none)
copy_response_body ((goes_on bytes, written) ∷ rest) =
    write_then bytes written (copy_response_body rest)
copy_response_body ((at_end bytes, written) ∷ rest) = write_then bytes written ([], some (ok tt))
copy_response_body ((broken bytes e, written) ∷ rest) = write_then bytes written ([], some (fail e))

-- The payload of `modelsPayload`; `created` is the start of the server in seconds.
unfoldable pub model_items : Text → List Text → Items
model_items created [] = nil
model_items created (model ∷ rest) =
    cons
      (obj (
        field (codes "id") (str model) (
          field (codes "object") (str (codes "model")) (
            field (codes "created") (num created) (
              field (codes "owned_by") (str (codes "Freebuff2API"))
                (field (codes "root") (str model) (field (codes "permission") (arr nil) end)))))))
      (model_items created rest)

unfoldable pub models_payload : Text → List Text → Json
models_payload created models = obj (
    field (codes "object") (str (codes "list"))
      (field (codes "data") (arr (model_items created models)) end))
