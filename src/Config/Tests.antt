-- ===== src/Config/Tests.antt =====
-- Lists and settings at concrete inputs.
use freebuff2api.Base.{
  ◌≡◌, refl, Option, none, some, [], ◌∷◌, if◌then◌else◌, ℤ, pos, Text, codes, text_eq, trim_space,
}
use freebuff2api.Config.{
  has_seen, dedupe_strings, dedupe_from, compact_strings, fields, split_list, trim_slashes,
  RawConfig, Settings, loads, check_settings, load_config,
}
use freebuff2api.Config.Loading.{IsSound, IsDerived, load_config-IsSound}

split_list_test : split_list (codes "a, b,,c\n") ≡ codes "a" ∷ codes "b" ∷ codes "c" ∷ []
unfolding split_list fields compact_strings trim_space text_eq
split_list_test = refl

-- The environment gives the tokens, and the file the rest.
getenv : Text → Text
getenv name = if text_eq name (codes "AUTH_TOKENS") then codes "one,two" else []

parse_duration : Text → Option ℤ
parse_duration s = if text_eq s (codes "6h") then some (pos 21600000000000) else none

abbrev file : RawConfig
file = record {
  listen_addr = codes ":8080";
  upstream_base_url = codes "https://codebuff.com/";
  auth_tokens = [];
  rotation_interval = codes "6h";
  request_timeout = codes " 6h";
  api_keys = [];
  http_proxy = [];
  web_password = codes "secret";
  data_db_path = [];
  data_encryption_key = codes "key";
}

abbrev settings : Settings
settings = record {
  listen_addr = codes ":8080";
  upstream_base_url = codes "https://codebuff.com";
  auth_tokens = codes "one" ∷ codes "two" ∷ [];
  rotation_interval = pos 21600000000000;
  request_timeout = pos 21600000000000;
  user_agent = codes "ai-sdk/openai-compatible/1.0.25/codebuff";
  api_keys = [];
  http_proxy = [];
  web_password = codes "secret";
  data_db_path = codes "data/freebuff2api.db";
  data_encryption_key = codes "key";
}

loaded : load_config getenv parse_duration file ≡ loads settings
unfolding load_config check_settings split_list fields dedupe_strings dedupe_from compact_strings
    has_seen trim_slashes trim_space text_eq getenv parse_duration
loaded = refl

load_config-IsSound_example : IsSound settings × IsDerived settings
load_config-IsSound_example = load_config-IsSound getenv parse_duration file settings loaded
