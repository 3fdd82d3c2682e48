-- ===== src/Metadata/Injected.antt =====
-- What the request that goes upstream has under each key.
use freebuff2api.Base.{
  ◌≡◌, refl, subst, ◌∙◌, true, false, ◌||◌, inl, inr, Option-cases, Option, none, some, Text,
  text_eq, text_eq_iff, [], if◌then◌else◌, codes, trim_space, arith,
}
use freebuff2api.Json.{Json, str, arr, obj, Fields, get_field, set_field}
use freebuff2api.Json.Keys.{get_field-set_field}
use freebuff2api.Schema.{as_map, as_list, normalize_tool_schemas}
use freebuff2api.Schema.Values.{clone_map-same}
use freebuff2api.Metadata.{
  model_key, tools_key, metadata_key, run_id_key, cost_mode_key, client_id_key, instance_key,
  with_tools, with_run, injected,
}

abbrev pub normalized_tools : Option Json → Option Json
normalized_tools o = elim (as_list o) [
  | none ↦ o
  | some tools ↦ some (arr (normalize_tool_schemas tools))
]

-- What is expected under a key of the metadata.
abbrev pub metadata_field : Fields → Text → Text → Text → Text → Option Json
metadata_field given run_id client_id instance k =
    if text_eq instance_key k
    then (if text_eq (trim_space instance) [] then get_field k given else some (str instance))
    else if text_eq client_id_key k
    then some (str client_id)
    else if text_eq cost_mode_key k
    then some (str (codes "free"))
    else if text_eq run_id_key k
    then some (str run_id)
    else get_field k given

other_keys :
    (k : Text)
    → text_eq instance_key k ≡ true
    → (text_eq client_id_key k || text_eq cost_mode_key k || text_eq run_id_key k) ≡ false
other_keys k h =
    subst
      (λ j. (text_eq client_id_key j || text_eq cost_mode_key j || text_eq run_id_key j) ≡ false)
      ((text_eq_iff instance_key k).0 h) (unfold text_eq in refl)

get_field-with_run :
    (given : Fields) (run_id client_id instance k : Text)
    → get_field k (with_run given run_id client_id instance)
      ≡ metadata_field given run_id client_id instance k
unfolding with_run
get_field-with_run given run_id client_id instance k = ground (
  arith,
  get_field-set_field run_id_key k (str run_id) given,
  get_field-set_field cost_mode_key k (str (codes "free"))
      (set_field run_id_key (str run_id) given),
  get_field-set_field client_id_key k (str client_id)
      (set_field cost_mode_key (str (codes "free")) (set_field run_id_key (str run_id) given)),
  get_field-set_field instance_key k (str instance) (
      set_field client_id_key (str client_id)
        (set_field cost_mode_key (str (codes "free")) (set_field run_id_key (str run_id) given))),
  other_keys k,
)

get_field-with_tools :
    (f : Fields) (k : Text)
    → get_field k (with_tools f (as_list (get_field tools_key f)))
      ≡ (if text_eq tools_key k then normalized_tools (get_field tools_key f) else get_field k f)
unfolding with_tools
get_field-with_tools f k = elim (Option-cases (as_list (get_field tools_key f))) [
  | inl other ↦ rw (other, with_tools) (ground (arith, text_eq_iff tools_key k))
  | inr (tools, e) ↦
      rw (e, with_tools)
        (ground (arith, get_field-set_field tools_key k (arr (normalize_tool_schemas tools)) f))
]

-- What is expected under a key of the request that goes upstream.
abbrev pub injected_field : Fields → Text → Text → Text → Text → Text → Option Json
injected_field payload model run_id instance client_id k =
    if text_eq metadata_key k
    then some (obj (with_run (as_map (get_field metadata_key payload)) run_id client_id instance))
    else if text_eq tools_key k
    then normalized_tools (get_field tools_key payload)
    else if text_eq model_key k
    then some (str model)
    else get_field k payload

abbrev named : Fields → Text → Fields
named payload model = set_field model_key (str model) payload

abbrev tooled : Fields → Text → Fields
tooled payload model =
    with_tools (named payload model) (as_list (get_field tools_key (named payload model)))

tools-named :
    (payload : Fields) (model : Text)
    → get_field tools_key (named payload model) ≡ get_field tools_key payload
unfolding text_eq
tools-named payload model = get_field-set_field model_key tools_key (str model) payload

get_field-tooled :
    (payload : Fields) (model k : Text)
    → get_field k (tooled payload model) ≡ (
        if text_eq tools_key k
        then normalized_tools (get_field tools_key payload)
        else if text_eq model_key k
        then some (str model)
        else get_field k payload)
get_field-tooled payload model k =
    get_field-with_tools (named payload model) k
    ∙ rw (tools-named payload model, get_field-set_field model_key k (str model) payload) refl

metadata-tooled :
    (payload : Fields) (model : Text)
    → get_field metadata_key (tooled payload model) ≡ get_field metadata_key payload
unfolding text_eq
metadata-tooled payload model = get_field-tooled payload model metadata_key

-- The request that goes upstream has the model and the metadata, the tools with their schemas
-- normalised if they are a list, and under any other key what the client's request has; the metadata
-- are the client's, if they are a map, with the run, the cost mode "free", the client's number and, if it
-- is not blank, the session's instance.
pub get_field-injected :
    (payload : Fields) (model run_id instance client_id k : Text)
    → (get_field k (injected payload model run_id instance client_id)
        ≡ injected_field payload model run_id instance client_id k)
      × ((j : Text)
          → get_field j
              (with_run (as_map (get_field metadata_key payload)) run_id client_id instance)
            ≡ metadata_field (as_map (get_field metadata_key payload)) run_id client_id instance j)
unfolding injected
get_field-injected payload model run_id instance client_id k = (
  rw (clone_map-same payload, metadata-tooled payload model)
      (get_field-set_field metadata_key k
          (obj (with_run (as_map (get_field metadata_key payload)) run_id client_id instance))
          (tooled payload model)
        ∙ rw (get_field-tooled payload model k) refl),
  get_field-with_run (as_map (get_field metadata_key payload)) run_id client_id instance,
)
