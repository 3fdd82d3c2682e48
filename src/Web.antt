-- ===== src/Web.antt =====
-- server.go: the web console's handlers over the session manager and the account manager, less the
-- pages of web_ui.go. A request is what `net/http` and `json.Decoder` make of it; what a handler draws
-- and reads from clocks is an argument.
pub mod Guarded
pub mod Login
pub mod Keyed
mod Tests
use freebuff2api.Base.{
  ℕ, ◌+◌, Bool, true, false, ◌&&◌, ◌||◌, not, Option, none, some, List, [], ◌∷◌, if◌then◌else◌,
  ◌==◌, ltb, leb, Text, codes, text_eq, trim_space, length,
}
use freebuff2api.TextSearch.{has_prefix, trim_prefix, equal_fold}
use freebuff2api.Errors.{Error, Outcome, ok, fail}
use freebuff2api.Config.{drop_slashes, trim_slashes}
use freebuff2api.Store.{AccountInput, AccountUpdateInput}
use freebuff2api.Server.{Answer}
use freebuff2api.Sessions.{SessionManager, enabled, authenticate, create, valid, destroy}
use freebuff2api.Accounts.Manage.{
  AccountView, AccountManager, Drawn, list_views, validate_view, create_view, update_view,
  delete_managed,
}

-- A request: its method, path and session cookie, whether it came by TLS, the header
-- X-Forwarded-Proto, and its body as each handler decodes it.
pub record WebRequest : Type 0 where
  pub method : Text
  pub path : Text
  pub cookie : Option Text
  pub is_tls : Bool
  pub forwarded_proto : Text
  pub password : Option Text
  pub new_account : Option AccountInput
  pub account_update : Option AccountUpdateInput

-- The cookie that a handler sets: its value, whether it is secure, and when it expires, 0 for at once.
pub record SessionCookie : Type 0 where
  pub value : Text
  pub is_secure : Bool
  pub expires_at : ℕ

pub data Content : Type 0 where
  nothing : Content
  -- an error, or a message that the handler itself has
  message : Content
  failed : Error → Content
  done : Content
  -- "enabled", "authenticated", "account_store_enabled"
  session_state : Bool → Bool → Bool → Content
  one_account : AccountView → Content
  all_accounts : List AccountView → Content
  -- the payloads of `healthPayload` and `modelsPayload`
  health models : Content
  -- the answer of `proxyChatCompletions`
  proxied : Answer → Content

-- The answer: its status, the cookie that it sets, and its content.
pub record WebAnswer : Type 0 where
  pub status : ℕ
  pub cookie : Option SessionCookie
  pub content : Content

-- What the handlers work on.
pub record Console : Type 0 where
  pub sessions : SessionManager
  pub accounts : AccountManager

-- What a handler meets: the clock readings of the session manager, the token of a new session, what
-- `Create` and `Update` draw, what `validateToken` comes to, the times of a validation, and the status
-- and the answer of `proxyChatCompletions`, or of the proxy's own interface, which Server models.
pub record WebEnv : Type 0 where
  pub swept : ℕ
  pub now : ℕ
  pub token : Text
  pub drawn : Drawn
  pub validated : Outcome (Unit {0})
  pub checked_at : ℕ
  pub written_at : ℕ
  pub chat_status : ℕ
  pub chat : Answer

abbrev pub answer : ℕ → Content → WebAnswer
answer status content = record { status = status; cookie = none; content = content }

-- `requestIsSecure`
unfoldable pub request_is_secure : WebRequest → Bool
request_is_secure r =
    if r.is_tls then true else equal_fold (trim_space r.forwarded_proto) (codes "https")

-- 24 * time.Hour
abbrev pub cookie_age : ℕ
cookie_age = 86400000000000

abbrev is_get : WebRequest → Bool
is_get r = text_eq r.method (codes "GET")

abbrev is_post : WebRequest → Bool
is_post r = text_eq r.method (codes "POST")

method_not_allowed : Console → Console × WebAnswer
method_not_allowed c = (c, answer 405 message)

not_found : Console → Console × WebAnswer
not_found c = (c, answer 404 message)

login_with : Console → WebRequest → WebEnv → Option Text → Console × WebAnswer
login_with c r env none = (c, answer 400 message)
login_with c r env (some password) =
    if not (authenticate c.sessions (trim_space password))
    then (c, answer 401 message)
    else let (m, token) = create c.sessions env.token env.swept env.now in
      (
        record c { sessions = m },
        record {
          status = 200;
          cookie = some (record {
            value = token;
            is_secure = request_is_secure r;
            expires_at = env.now + cookie_age;
          });
          content = done;
        },
      )

-- `handleWebLogin`
unfoldable pub web_login : Console → WebRequest → WebEnv → Console × WebAnswer
unfolding login_with method_not_allowed
web_login c r env = if not (is_post r) then method_not_allowed c else login_with c r env r.password

destroyed : SessionManager → Option Text → SessionManager
destroyed m none = m
destroyed m (some token) = destroy m token

-- `handleWebLogout`
unfoldable pub web_logout : Console → WebRequest → Console × WebAnswer
unfolding destroyed method_not_allowed
web_logout c r = if not (is_post r) then method_not_allowed c else (
  record c { sessions = destroyed c.sessions r.cookie },
  record {
    status = 200;
    cookie = some (record { value = []; is_secure = request_is_secure r; expires_at = 0 });
    content = done;
  },
)

-- Whether the cookie's session is valid, which its lookup may renew or remove.
unfoldable pub cookie_valid : Console → WebRequest → WebEnv → Console × Bool
cookie_valid c r env = elim r.cookie [
  | none ↦ (c, false)
  | some token ↦
      let (m, b) = valid c.sessions token env.swept env.now in (record c { sessions = m }, b)
]

-- `handleWebSession`
unfoldable pub web_session : Console → WebRequest → WebEnv → Console × WebAnswer
unfolding method_not_allowed
web_session c r env =
    if not (is_get r)
    then method_not_allowed c
    else let (c', authenticated) = cookie_valid c r env in
      (c', answer 200 (session_state (enabled c'.sessions) authenticated c'.accounts.is_stored))

-- `requireSession` around a handler, where the console has sessions.
admitted : Console × Bool → (Console → Console × WebAnswer) → Console × WebAnswer
admitted (c, false) next = (c, answer 401 message)
admitted (c, true) next = next c

unfoldable pub require_session :
    Console → WebRequest → WebEnv → (Console → Console × WebAnswer) → Console × WebAnswer
unfolding admitted
require_session c r env next =
    if not (enabled c.sessions)
    then (c, answer 404 message)
    else admitted (cookie_valid c r env) next

-- `handleWebHealthz`, `handleWebModels`
unfoldable pub web_payload : Content → Console → WebRequest → Console × WebAnswer
unfolding method_not_allowed
web_payload content c r = if not (is_get r) then method_not_allowed c else (c, answer 200 content)

-- What the account manager returns, as an answer with the given status, 400 for an error.
replied : Console → ℕ → AccountManager × Outcome AccountView → Console × WebAnswer
replied c status (m, ok view) = (record c { accounts = m }, answer status (one_account view))
replied c status (m, fail e) = (record c { accounts = m }, answer 400 (failed e))

removed : Console → AccountManager × Outcome (Unit {0}) → Console × WebAnswer
removed c (m, ok _) = (record c { accounts = m }, answer 200 done)
removed c (m, fail e) = (record c { accounts = m }, answer 400 (failed e))

listed : Console → Outcome (List AccountView) → Console × WebAnswer
listed c (ok views) = (c, answer 200 (all_accounts views))
listed c (fail e) = (c, answer 500 (failed e))

-- `strings.Split(path, "/")`: the part before the first slash, and the parts after it.
unfoldable pub split_path : Text → Text × List Text
split_path [] = ([], [])
split_path (a ∷ s) =
    let (part, rest) = split_path s in if a == 47 then ([], part ∷ rest) else (a ∷ part, rest)

abbrev pub items_path : Text
items_path = codes "/web/api/accounts/"

-- The patterns that `Handler` registers: `to_api` for the three of the proxy's own interface, and those
-- of the console. A path that is none of them is answered by `handleIndex`. `ServeMux` redirects a path
-- that is not clean before; the path is the one that it hands on.
pub data Route : Type 0 where
  to_favicon to_login to_logout to_session : Route
  to_health to_models to_chat to_accounts to_account : Route
  to_page to_nowhere to_api : Route

unfoldable pub route_of : Text → Route
route_of path =
    if text_eq path (codes "/healthz")
      || text_eq path (codes "/v1/models")
      || text_eq path (codes "/v1/chat/completions")
    then to_api
    else if text_eq path (codes "/favicon.ico")
    then to_favicon
    else if text_eq path (codes "/web/login")
    then to_login
    else if text_eq path (codes "/web/logout")
    then to_logout
    else if text_eq path (codes "/web/session")
    then to_session
    else if text_eq path (codes "/web/api/healthz")
    then to_health
    else if text_eq path (codes "/web/api/models")
    then to_models
    else if text_eq path (codes "/web/api/chat/completions")
    then to_chat
    else if text_eq path (codes "/web/api/accounts")
    then to_accounts
    else if has_prefix path items_path
    then to_account
    else if text_eq path (codes "/")
        || text_eq path (codes "/app.css")
        || text_eq path (codes "/app.js")
    then to_page
    else to_nowhere

abbrev pub is_api : Route → Bool
is_api to_api = true
is_api _ = false

module _ (decrypt : Text → Outcome Text) (created_before : ℕ → ℕ → Bool)
    (error_text : Error → Text) where
  posted : Console → WebEnv → Option AccountInput → Console × WebAnswer
  unfolding replied
  posted c env none = (c, answer 400 message)
  posted c env (some input) = replied c 201 (
      create_view decrypt created_before error_text c.accounts input env.drawn env.validated
        env.checked_at env.written_at)

  -- `handleWebAccountsCollection`
  unfoldable pub web_accounts : Console → WebRequest → WebEnv → Console × WebAnswer
  unfolding listed posted method_not_allowed
  web_accounts c r env =
      if not c.accounts.is_stored
      then (c, answer 503 message)
      else if is_get r
      then listed c (list_views decrypt created_before error_text c.accounts)
      else if is_post r
      then posted c env r.new_account
      else method_not_allowed c

  patched : Console → Text → WebEnv → Option AccountUpdateInput → Console × WebAnswer
  unfolding replied
  patched c id env none = (c, answer 400 message)
  patched c id env (some input) = replied c 200 (
      update_view decrypt created_before error_text c.accounts id input env.drawn env.validated
        env.checked_at env.written_at)

  -- The account of a path by itself, and its validation.
  on_account : Console → WebRequest → WebEnv → Text → Console × WebAnswer
  unfolding patched removed method_not_allowed
  on_account c r env id =
      if text_eq r.method (codes "PATCH")
      then patched c id env r.account_update
      else if text_eq r.method (codes "DELETE")
      then removed c (delete_managed decrypt created_before error_text c.accounts id)
      else method_not_allowed c

  on_validation : Console → WebRequest → WebEnv → Text → Console × WebAnswer
  unfolding replied method_not_allowed
  on_validation c r env id =
      if not (is_post r)
      then method_not_allowed c
      else replied c 200 (
          validate_view decrypt created_before error_text c.accounts id env.validated env.checked_at
            env.written_at)

  on_parts : Console → WebRequest → WebEnv → Text → List Text → Console × WebAnswer
  unfolding on_account on_validation not_found
  on_parts c r env id [] = on_account c r env id
  on_parts c r env id (action ∷ []) =
      if text_eq action (codes "validate") then on_validation c r env id else not_found c
  on_parts c r env id (action ∷ more ∷ rest) = not_found c

  -- `handleWebAccountItem`
  unfoldable pub web_account_item : Console → WebRequest → WebEnv → Console × WebAnswer
  unfolding on_parts not_found
  web_account_item c r env =
      let path = trim_slashes (drop_slashes (trim_prefix r.path items_path)) in
      let (part, rest) = split_path path in
      if not c.accounts.is_stored
      then (c, answer 503 message)
      else if text_eq path []
      then not_found c
      else if text_eq (trim_space part) []
      then not_found c
      else on_parts c r env (trim_space part) rest

  on_route : Console → WebRequest → WebEnv → Route → Console × WebAnswer
  unfolding not_found
  on_route c r env to_favicon = (c, answer 204 nothing)
  on_route c r env to_login = web_login c r env
  on_route c r env to_logout = web_logout c r
  on_route c r env to_session = web_session c r env
  on_route c r env to_health = require_session c r env (λ d. web_payload health d r)
  on_route c r env to_models = require_session c r env (λ d. web_payload models d r)
  on_route c r env to_chat =
      require_session c r env (λ d. (d, answer env.chat_status (proxied env.chat)))
  on_route c r env to_accounts = require_session c r env (λ d. web_accounts d r env)
  on_route c r env to_account = require_session c r env (λ d. web_account_item d r env)
  on_route c r env to_page = (c, answer 200 nothing)
  on_route c r env to_nowhere = not_found c
  on_route c r env to_api = (c, answer env.chat_status (proxied env.chat))

  -- The handler that `Handler` builds; the paths of the console are there only if it has sessions. What
  -- the proxy's own interface does to accounts and pools is left to Server.
  unfoldable pub serve_web : Console → WebRequest → WebEnv → Console × WebAnswer
  unfolding on_route not_found
  serve_web c r env =
      let route = route_of r.path in
      if not (enabled c.sessions) && not (is_api route) then not_found c else on_route c r env route
