-- ===== src/Config.antt =====
-- config.go: the settings, and the lists in them. `getenv` is `os.Getenv`, `parse_duration` is
-- `time.ParseDuration`, in nanoseconds. Reading the file is left out: `file` is what it gives, the
-- defaults included. Also `compactAgentIDs` of run_manager.go, which treats its list in the same way.
pub mod Lists
pub mod Loading
pub mod ClientId
mod Tests
use freebuff2api.Base.{
  ℕ, Bool, true, false, ◌&&◌, ◌||◌, not, Option, none, some, List, [], ◌∷◌, ◌++◌, if◌then◌else◌,
  ◌==◌, ℤ, pos, is_positive, Text, codes, text_eq, trim_space,
}
use mathlib.Core.List.{reverse}

-- `compactStrings`
unfoldable pub compact_strings : List Text → List Text
compact_strings [] = []
compact_strings (value ∷ rest) =
    let v = trim_space value in
    let later = compact_strings rest in if text_eq v [] then later else v ∷ later

-- A set of strings, as the list of those seen.
unfoldable pub has_seen : Text → List Text → Bool
has_seen v [] = false
has_seen v (w ∷ seen) = text_eq w v || has_seen v seen

unfoldable pub dedupe_from : List Text → List Text → List Text
dedupe_from seen [] = []
dedupe_from seen (v ∷ rest) =
    let known = dedupe_from seen rest in
    let later = dedupe_from (v ∷ seen) rest in if has_seen v seen then known else v ∷ later

-- `dedupeStrings`
unfoldable pub dedupe_strings : List Text → List Text
dedupe_strings values = dedupe_from [] (compact_strings values)

-- `compactAgentIDs`: it trims, skips and remembers in one loop.
unfoldable pub compact_from : List Text → List Text → List Text
compact_from seen [] = []
compact_from seen (value ∷ rest) =
    let v = trim_space value in
    let known = compact_from seen rest in
    let later = compact_from (v ∷ seen) rest in
    if text_eq v [] then known else if has_seen v seen then known else v ∷ later

unfoldable pub compact_agent_ids : List Text → List Text
compact_agent_ids values = compact_from [] values

-- `strings.FieldsFunc` with the separators of `splitList`; `field` is the current one, in reverse.
abbrev is_separator : ℕ → Bool
is_separator a = (a == 44) || (a == 10) || (a == 13)

abbrev end_field : Text → List Text → List Text
end_field [] later = later
end_field (a ∷ field) later = reverse (a ∷ field) ∷ later

unfoldable pub fields : Text → Text → List Text
fields field [] = end_field field []
fields field (a ∷ s) =
    let ended = fields [] s in
    let longer = fields (a ∷ field) s in if is_separator a then end_field field ended else longer

-- `splitList`
unfoldable pub split_list : Text → List Text
split_list value = compact_strings (fields [] value)

-- `strings.TrimRight(s, "/")`
unfoldable pub drop_slashes : Text → Text
drop_slashes [] = []
drop_slashes (a ∷ s) = let rest = drop_slashes s in if a == 47 then rest else a ∷ s

unfoldable pub trim_slashes : Text → Text
unfolding drop_slashes
trim_slashes s = reverse (drop_slashes (reverse s))

-- `rawConfig`
pub record RawConfig : Type 0 where
  pub listen_addr : Text
  pub upstream_base_url : Text
  pub auth_tokens : List Text
  pub rotation_interval : Text
  pub request_timeout : Text
  pub api_keys : List Text
  pub http_proxy : Text
  pub web_password : Text
  pub data_db_path : Text
  pub data_encryption_key : Text

-- `Config`
pub record Settings : Type 0 where
  pub listen_addr : Text
  pub upstream_base_url : Text
  pub auth_tokens : List Text
  pub rotation_interval : ℤ
  pub request_timeout : ℤ
  pub user_agent : Text
  pub api_keys : List Text
  pub http_proxy : Text
  pub web_password : Text
  pub data_db_path : Text
  pub data_encryption_key : Text

-- The errors of `loadConfig`.
pub data ConfigError : Type 0 where
  bad_interval bad_timeout : ConfigError
  no_listen_addr no_base_url no_tokens interval_not_positive timeout_not_positive : ConfigError
  no_key_for_store no_key_for_password : ConfigError

pub data Loaded : Type 0 where
  loads : Settings → Loaded
  invalid : ConfigError → Loaded

-- `filepath.Join("data", "freebuff2api.db")`
abbrev default_db_path : Text
default_db_path = codes "data/freebuff2api.db"

settings_of : RawConfig → ℤ → ℤ → Settings
settings_of c interval timeout =
    let key = trim_space c.data_encryption_key in
    let path = trim_space c.data_db_path in
    record {
      listen_addr = trim_space c.listen_addr;
      upstream_base_url = trim_slashes (trim_space c.upstream_base_url);
      auth_tokens = dedupe_strings c.auth_tokens;
      rotation_interval = interval;
      request_timeout = timeout;
      user_agent = codes "ai-sdk/openai-compatible/1.0.25/codebuff";
      api_keys = dedupe_strings c.api_keys;
      http_proxy = trim_space c.http_proxy;
      web_password = trim_space c.web_password;
      data_db_path = if not (text_eq key []) && text_eq path [] then default_db_path else path;
      data_encryption_key = key;
    }

-- The `switch` on the settings.
unfoldable pub check_settings : Settings → Loaded
check_settings s =
    if text_eq s.listen_addr []
    then invalid no_listen_addr
    else if text_eq s.upstream_base_url []
    then invalid no_base_url
    else if (elim s.auth_tokens [ [] ↦ true | _ ∷ _ ↦ false ]) && text_eq s.data_db_path []
    then invalid no_tokens
    else if not (is_positive s.rotation_interval)
    then invalid interval_not_positive
    else if not (is_positive s.request_timeout)
    then invalid timeout_not_positive
    else if not (text_eq s.data_db_path []) && text_eq s.data_encryption_key []
    then invalid no_key_for_store
    else if not (text_eq s.web_password []) && text_eq s.data_encryption_key []
    then invalid no_key_for_password
    else loads s

module _ (getenv : Text → Text) (parse_duration : Text → Option ℤ) where
  -- `overrideString` and `overrideCSV`
  override_string : Text → Text → Text
  override_string target name =
      let value = trim_space (getenv name) in if text_eq value [] then target else value

  override_csv : List Text → Text → List Text
  override_csv target name =
      let value = trim_space (getenv name) in if text_eq value [] then target else split_list value

  overridden : RawConfig → RawConfig
  unfolding override_string override_csv
  overridden c = record {
    listen_addr = override_string c.listen_addr (codes "LISTEN_ADDR");
    upstream_base_url = override_string c.upstream_base_url (codes "UPSTREAM_BASE_URL");
    auth_tokens = override_csv c.auth_tokens (codes "AUTH_TOKENS");
    rotation_interval = override_string c.rotation_interval (codes "ROTATION_INTERVAL");
    request_timeout = override_string c.request_timeout (codes "REQUEST_TIMEOUT");
    api_keys = override_csv c.api_keys (codes "API_KEYS");
    http_proxy = override_string c.http_proxy (codes "HTTP_PROXY");
    web_password = override_string c.web_password (codes "WEB_PASSWORD");
    data_db_path = override_string c.data_db_path (codes "DATA_DB_PATH");
    data_encryption_key = override_string c.data_encryption_key (codes "DATA_ENCRYPTION_KEY");
  }

  load_parsed : RawConfig → Option ℤ → Option ℤ → Loaded
  unfolding settings_of
  load_parsed c none timeout = invalid bad_interval
  load_parsed c (some interval) none = invalid bad_timeout
  load_parsed c (some interval) (some timeout) = check_settings (settings_of c interval timeout)

  -- `loadConfig`
  unfoldable pub load_config : RawConfig → Loaded
  unfolding overridden load_parsed
  load_config file =
      let c = overridden file in
      load_parsed c (parse_duration (trim_space c.rotation_interval))
        (parse_duration (trim_space c.request_timeout))
