-- ===== src/Metadata.antt =====
-- server.go: the request that goes upstream for a chat request. `marshal` is `json.Marshal`, `client_id`
-- what `generateClientSessionId` returns.
pub mod Injected
mod Tests
use freebuff2api.Base.{Option, none, some, [], ◌∷◌, if◌then◌else◌, Text, codes, text_eq, trim_space}
use freebuff2api.Errors.{Error, marshal_failed, Outcome, ok, fail}
use freebuff2api.Json.{Json, str, arr, obj, Items, Fields, get_field, set_field}
use freebuff2api.Schema.{as_map, as_list, normalize_tool_schemas}
use freebuff2api.Schema.Values.{clone_map}

abbrev pub model_key : Text
model_key = codes "model"

abbrev pub tools_key : Text
tools_key = codes "tools"

abbrev pub metadata_key : Text
metadata_key = codes "codebuff_metadata"

abbrev pub run_id_key : Text
run_id_key = codes "run_id"

abbrev pub cost_mode_key : Text
cost_mode_key = codes "cost_mode"

abbrev pub client_id_key : Text
client_id_key = codes "client_id"

abbrev pub instance_key : Text
instance_key = codes "freebuff_instance_id"

-- `normalizeToolSchemas` changes the tools where they are.
unfoldable pub with_tools : Fields → Option Items → Fields
with_tools f none = f
with_tools f (some tools) = set_field tools_key (arr (normalize_tool_schemas tools)) f

unfoldable pub with_run : Fields → Text → Text → Text → Fields
with_run metadata run_id client_id instance =
    let named =
      set_field client_id_key (str client_id) (
        set_field cost_mode_key (str (codes "free"))
          (set_field run_id_key (str run_id) metadata)) in
    if text_eq (trim_space instance) [] then named else set_field instance_key (str instance) named

-- What `injectUpstreamMetadata` encodes.
unfoldable pub injected : Fields → Text → Text → Text → Text → Fields
injected payload model run_id instance client_id =
    let named = set_field model_key (str model) (clone_map payload) in
    let cloned = with_tools named (as_list (get_field tools_key named)) in
    set_field metadata_key
      (obj (with_run (as_map (get_field metadata_key cloned)) run_id client_id instance)) cloned

abbrev marshalled : Outcome Text → Outcome Text
marshalled (ok body) = ok body
marshalled (fail e) = fail (marshal_failed e)

-- `injectUpstreamMetadata`
unfoldable pub inject_upstream_metadata :
    (Json → Outcome Text) → Fields → Text → Text → Text → Text → Outcome Text
inject_upstream_metadata marshal payload model run_id instance client_id =
    marshalled (marshal (obj (injected payload model run_id instance client_id)))
