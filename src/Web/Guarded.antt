-- ===== src/Web/Guarded.antt =====
-- Who can use the console's interface.
use freebuff2api.Base.{ℕ, ◌≡◌, refl, Bool, true, false, Text, arith}
use freebuff2api.Errors.{Error, Outcome}
use freebuff2api.Sessions.{enabled}
use freebuff2api.Web.{
  WebRequest, WebAnswer, Console, WebEnv, message, answer, web_login, login_with, web_logout,
  cookie_valid, web_session, require_session, admitted, method_not_allowed, not_found, Route,
  to_favicon, to_login, to_logout, to_session, to_health, to_models, to_chat, to_accounts,
  to_account, to_page, to_nowhere, to_api, is_api, route_of, on_route, serve_web,
}

-- The routes that `Handler` gives to `requireSession`, which are those under /web/api.
abbrev pub is_protected : Route → Bool
is_protected to_health = true
is_protected to_models = true
is_protected to_chat = true
is_protected to_accounts = true
is_protected to_account = true
is_protected _ = false

pub cookie_valid-accounts :
    (c : Console) (r : WebRequest) (env : WebEnv) → (cookie_valid c r env).0.accounts ≡ c.accounts
unfolding cookie_valid
cookie_valid-accounts c r env = ground arith

pub web_login-accounts :
    (c : Console) (r : WebRequest) (env : WebEnv) → (web_login c r env).0.accounts ≡ c.accounts
unfolding web_login login_with method_not_allowed
web_login-accounts c r env = ground arith

pub web_logout-accounts : (c : Console) (r : WebRequest) → (web_logout c r).0.accounts ≡ c.accounts
unfolding web_logout method_not_allowed
web_logout-accounts c r = ground arith

pub web_session-accounts :
    (c : Console) (r : WebRequest) (env : WebEnv) → (web_session c r env).0.accounts ≡ c.accounts
unfolding web_session method_not_allowed
web_session-accounts c r env = ground (arith, cookie_valid-accounts c r env)

-- What a request without a valid session comes to.
abbrev pub Refused : Console → WebRequest → WebEnv → Console × WebAnswer → Type 0
Refused c r env (d, a) =
    (d ≡ (cookie_valid c r env).0) × (d.accounts ≡ c.accounts) × (a ≡ answer 401 message)

require_session-Refused :
    (c : Console) (r : WebRequest) (env : WebEnv) (next : Console → Console × WebAnswer)
    → enabled c.sessions ≡ true
    → (cookie_valid c r env).1 ≡ false
    → Refused c r env (require_session c r env next)
unfolding require_session admitted
require_session-Refused c r env next on h = ground (arith, cookie_valid-accounts c r env)

-- Under the protected routes the request is refused; under the others it leaves the accounts alone.
abbrev pub Guarded : Bool → Console → WebRequest → WebEnv → Console × WebAnswer → Type 0
Guarded true c r env out = Refused c r env out
Guarded false c r env out = out.0.accounts ≡ c.accounts

module _ (decrypt : Text → Outcome Text) (created_before : ℕ → ℕ → Bool)
    (error_text : Error → Text) where
  on_route-Guarded :
      (c : Console) (r : WebRequest) (env : WebEnv) (route : Route)
      → enabled c.sessions ≡ true
      → (cookie_valid c r env).1 ≡ false
      → Guarded
          (is_protected route)
          c
          r
          env
          (on_route decrypt created_before error_text c r env route)
  unfolding on_route not_found
  on_route-Guarded c r env to_favicon on h = refl
  on_route-Guarded c r env to_login on h = web_login-accounts c r env
  on_route-Guarded c r env to_logout on h = web_logout-accounts c r
  on_route-Guarded c r env to_session on h = web_session-accounts c r env
  on_route-Guarded c r env to_health on h = require_session-Refused c r env _ on h
  on_route-Guarded c r env to_models on h = require_session-Refused c r env _ on h
  on_route-Guarded c r env to_chat on h = require_session-Refused c r env _ on h
  on_route-Guarded c r env to_accounts on h = require_session-Refused c r env _ on h
  on_route-Guarded c r env to_account on h = require_session-Refused c r env _ on h
  on_route-Guarded c r env to_page on h = refl
  on_route-Guarded c r env to_nowhere on h = refl
  on_route-Guarded c r env to_api on h = refl

  -- If the console has sessions and the request's cookie, if any, is not that of a valid one, then a
  -- request for one of the five patterns under /web/api is answered by 401 and changes only what the
  -- lookup of the session does, and no other request of the console (one whose path is not /healthz,
  -- /v1/models or /v1/chat/completions) changes an account or a pool.
  pub serve_web-Guarded :
      (c : Console) (r : WebRequest) (env : WebEnv)
      → enabled c.sessions ≡ true
      → (cookie_valid c r env).1 ≡ false
      → is_api (route_of r.path) ≡ false
      → Guarded
          (is_protected (route_of r.path))
          c
          r
          env
          (serve_web decrypt created_before error_text c r env)
  unfolding serve_web
  serve_web-Guarded c r env on h console =
      rw (on, serve_web) (on_route-Guarded c r env (route_of r.path) on h)
