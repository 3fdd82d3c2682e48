-- ===== src/Web/Tests.antt =====
-- The console at concrete inputs.
use freebuff2api.Base.{
  ◌≡◌, refl, true, false, ◌&&◌, none, some, [], ◌∷◌, Text, codes, text_eq, ltb, lookup, arith,
  trim_space,
}
use freebuff2api.TextSearch.{has_prefix, equal_fold}
use freebuff2api.Errors.{Error, ok}
use freebuff2api.Sessions.{enabled}
use freebuff2api.Sessions.Password.{enabled-text_eq}
use freebuff2api.Store.Tests.{table, encrypt, decrypt}
use freebuff2api.Manager.Tests.{manager}
use freebuff2api.Server.{streams}
use freebuff2api.Web.{
  WebRequest, Console, WebEnv, to_account, is_api, route_of, serve_web, web_login, cookie_valid,
  request_is_secure, split_path,
}
use freebuff2api.Web.Guarded.{Guarded, is_protected, serve_web-Guarded}
use freebuff2api.Web.Login.{knows, web_login-knows}

abbrev error_text : Error → Text
error_text e = []

abbrev console : Console
console = record {
  sessions = record { password = codes "secret"; ttl = 10; sessions = [] };
  accounts = record {
    is_stored = true;
    auth_tokens = [];
    accounts = record { table = table; runs = manager };
    legacy_records = [];
  };
}

abbrev env : WebEnv
env = record {
  swept = 4;
  now = 5;
  token = codes "t1";
  drawn = record { encrypt = encrypt; account_id = codes "acc-2"; now = 5 };
  validated = ok tt;
  checked_at = 6;
  written_at = 7;
  chat_status = 200;
  chat = streams 200;
}

-- A request to delete an account, without a cookie.
abbrev deletion : WebRequest
deletion = record {
  method = codes "DELETE";
  path = codes "/web/api/accounts/acc-1";
  cookie = none;
  is_tls = false;
  forwarded_proto = [];
  password = none;
  new_account = none;
  account_update = none;
}

deletion_route : route_of deletion.path ≡ to_account
unfolding route_of text_eq has_prefix
deletion_route = refl

has_sessions : enabled console.sessions ≡ true
unfolding text_eq
has_sessions = enabled-text_eq console.sessions

no_session : (cookie_valid console deletion env).1 ≡ false
unfolding cookie_valid
no_session = refl

of_console : is_api (route_of deletion.path) ≡ false
unfolding route_of text_eq has_prefix
of_console = refl

serve_web-Guarded_example :
    Guarded
      (is_protected (route_of deletion.path))
      console
      deletion
      env
      (serve_web decrypt ltb error_text console deletion env)
serve_web-Guarded_example =
    serve_web-Guarded decrypt ltb error_text console deletion env has_sessions no_session of_console

abbrev login : WebRequest
login = record deletion {
  method = codes "POST";
  path = codes "/web/login";
  password = some (codes " secret ");
}

abbrev with_cookie : WebRequest
with_cookie = record deletion { cookie = some (codes "t1") }

token_fresh : lookup env.token console.sessions.sessions ≡ none
unfolding lookup
token_fresh = refl

web_login-knows_example :
    (cookie_valid (web_login console login env).0 with_cookie env).1
    ≡ (text_eq login.method (codes "POST") && knows console.sessions.password login.password)
web_login-knows_example =
    web_login-knows console login with_cookie env env (λ e. ground arith) token_fresh (omega arith)
      refl

-- U+017F is an s to `strings.EqualFold`.
secure_test :
    request_is_secure (record login { forwarded_proto = 72 ∷ 116 ∷ 84 ∷ 80 ∷ 0xc5 ∷ 0xbf ∷ [] })
    ≡ true
unfolding request_is_secure equal_fold trim_space
secure_test = refl

split_path_test : split_path (codes "a//b") ≡ (codes "a", [] ∷ codes "b" ∷ [])
unfolding split_path
split_path_test = refl
