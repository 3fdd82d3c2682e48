-- ===== src/Metadata/Tests.antt =====
-- The request that goes upstream at a concrete input.
use freebuff2api.Base.{◌≡◌, true, Text, codes, []}
use freebuff2api.Json.{bool, str, obj, Fields, end, field, get_field}
use freebuff2api.Schema.{as_map}
use freebuff2api.Metadata.{model_key, metadata_key, run_id_key, injected, with_run}
use freebuff2api.Metadata.Injected.{injected_field, metadata_field, get_field-injected}

-- {"model": " m ", "stream": true, "codebuff_metadata": {"run_id": "forged"}}
abbrev chat_payload : Fields
chat_payload = field model_key (str (codes " m ")) (
    field (codes "stream") (bool true)
      (field metadata_key (obj (field run_id_key (str (codes "forged")) end)) end))

get_field-injected_example :
    (get_field metadata_key (injected chat_payload (codes "m") (codes "r") [] (codes "c"))
      ≡ injected_field chat_payload (codes "m") (codes "r") [] (codes "c") metadata_key)
    × ((j : Text)
        → get_field j
            (with_run (as_map (get_field metadata_key chat_payload)) (codes "r") (codes "c") [])
          ≡ metadata_field
              (as_map (get_field metadata_key chat_payload))
              (codes "r")
              (codes "c")
              []
              j)
get_field-injected_example =
    get_field-injected chat_payload (codes "m") (codes "r") [] (codes "c") metadata_key
