-- ===== src/Entry/Tests.antt =====
-- A start without a store, and a request to the console.
use freebuff2api.Base.{◌≡◌, refl, none, true, [], ◌∷◌, List, pos, Text, codes, text_eq, ltb}
use freebuff2api.Errors.{Error, ok}
use freebuff2api.Config.{Settings}
use freebuff2api.Pool.Tests.{pool}
use freebuff2api.Store.Tests.{encrypt, decrypt}
use freebuff2api.Upstream.{breaks}
use freebuff2api.Accounts.Manage.{Drawn, bootstrap}
use freebuff2api.Server.{streams}
use freebuff2api.Web.{WebRequest, WebEnv}
use freebuff2api.Web.Keyed.{Filed}
use freebuff2api.Entry.{App, LaunchEnv, first_manager, started, launched, launch}
use freebuff2api.Registry.Refresh.{new_model_registry, start_registry}
use freebuff2api.Entry.Launched.{Happening, visited, rejected, after_all, launch-Filed}

abbrev error_text : Error → Text
error_text e = []

no_blocks : Text → List (Text × Text)
no_blocks source = []

no_models : Text → List Text
no_models block = []

abbrev settings : Settings
settings = record {
  listen_addr = codes ":8080";
  upstream_base_url = codes "https://example.com";
  auth_tokens = codes "token" ∷ [];
  rotation_interval = pos 100;
  request_timeout = pos 9;
  user_agent = codes "agent";
  api_keys = [];
  http_proxy = [];
  web_password = codes "secret";
  data_db_path = [];
  data_encryption_key = [];
}

abbrev drawn : Drawn
drawn = record { encrypt = encrypt; account_id = codes "acc-1"; now = 5 }

abbrev launch_env : LaunchEnv
launch_env = record {
  source = breaks (codes "unreachable");
  pick = λ _ _. 0;
  pick_fallback = λ _ _. 0;
  drawn = λ _. drawn;
  now = 5;
  pools = λ _. pool;
}

-- The program that is started: a start without a store does not fail.
abbrev app : App
app =
    started settings
      (start_registry no_blocks no_models launch_env.pick launch_env.pick_fallback
        new_model_registry launch_env.source)
      (bootstrap decrypt ltb error_text (first_manager settings [] launch_env) launch_env.drawn
        launch_env.now).0

launches : launch no_blocks no_models decrypt ltb error_text settings [] launch_env ≡ ok app
unfolding launch launched bootstrap text_eq
launches = refl

abbrev web_env : WebEnv
web_env = record {
  swept = 6;
  now = 6;
  token = codes "t1";
  drawn = drawn;
  validated = ok tt;
  checked_at = 6;
  written_at = 6;
  chat_status = 200;
  chat = streams 200;
}

abbrev login : WebRequest
login = record {
  method = codes "POST";
  path = codes "/web/login";
  cookie = none;
  is_tls = true;
  forwarded_proto = [];
  password = none;
  new_account = none;
  account_update = none;
}

abbrev happenings : List Happening
happenings = visited login web_env ∷ rejected (codes "legacy-1") (codes "why") 7 7 ∷ []

launch-Filed_example : Filed (after_all decrypt ltb error_text app.console happenings)
launch-Filed_example =
    launch-Filed no_blocks no_models decrypt ltb error_text settings [] launch_env app happenings
      launches
