-- ===== src/Web/Login.antt =====
-- Who gets a session of the console.
use freebuff2api.Base.{
  ℕ, ◌+◌, ◌≤◌, ◌≢◌, lookup, ◌≡◌, Bool, false, ◌&&◌, not, Option, none, some, [], Text, codes,
  text_eq, trim_space, arith,
}
use freebuff2api.Sessions.{valid}
use freebuff2api.Sessions.Password.{
  authenticate-text_eq, enabled-text_eq, valid-create, valid-unknown,
}
use freebuff2api.Web.{
  WebRequest, Console, cookie_valid, WebEnv, web_login, login_with, method_not_allowed,
}

-- A password is given that is, up to spaces around it, that of the console, which has one.
abbrev pub knows : Text → Option Text → Bool
knows password none = false
knows password (some given) = not (text_eq password []) && text_eq password (trim_space given)

login_with-knows :
    (c : Console) (r : WebRequest) (env : WebEnv) (given : Option Text) (checked later : ℕ)
    → env.token ≢ []
    → lookup env.token c.sessions.sessions ≡ none
    → checked ≤ env.now + c.sessions.ttl
    → (valid (login_with c r env given).0.sessions env.token checked later).1
      ≡ knows c.sessions.password given
unfolding login_with
login_with-knows c r env none checked later named fresh h =
    valid-unknown c.sessions env.token checked later fresh
login_with-knows c r env (some p) checked later named fresh h = ground (
  arith,
  authenticate-text_eq c.sessions (trim_space p),
  enabled-text_eq c.sessions,
  valid-unknown c.sessions env.token checked later,
  valid-create c.sessions env.token env.swept env.now checked later,
)

-- A later request that carries the new session's token as its cookie, before the session's time has
-- passed, has a valid session exactly if the login was a POST with the console's password, which is
-- not empty, up to spaces around the given one. The token is not empty and is none in use.
pub web_login-knows :
    (c : Console) (r next : WebRequest) (env later : WebEnv)
    → env.token ≢ []
    → lookup env.token c.sessions.sessions ≡ none
    → later.swept ≤ env.now + c.sessions.ttl
    → next.cookie ≡ some env.token
    → (cookie_valid (web_login c r env).0 next later).1
      ≡ (text_eq r.method (codes "POST") && knows c.sessions.password r.password)
unfolding web_login cookie_valid method_not_allowed
web_login-knows c r next env later named fresh h carried = ground (
  arith,
  login_with-knows c r env r.password later.swept later.now,
  valid-unknown c.sessions env.token later.swept later.now,
)
