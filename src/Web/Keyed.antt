-- ===== src/Web/Keyed.antt =====
-- Whatever a request to the console does, the active pools stay filed under their accounts.
use freebuff2api.Base.{
  ◌&&◌, ℕ, ◌≡◌, sym, subst, Bool, true, false, not, Option, none, some, List, [], ◌∷◌,
  if◌then◌else◌, Text, codes, text_eq, trim_space,
}
use freebuff2api.Config.{drop_slashes, trim_slashes}
use freebuff2api.TextSearch.{trim_prefix}
use freebuff2api.Errors.{Error, Outcome, ok, fail}
use freebuff2api.Sessions.{enabled}
use freebuff2api.Store.{AccountInput, AccountUpdateInput}
use freebuff2api.Accounts.Manage.{AccountView, AccountManager, list_views}
use freebuff2api.Accounts.Manage.Keyed.{
  IsFiled, create_view-IsFiled, update_view-IsFiled, validate_view-IsFiled, delete_managed-IsFiled,
}
use freebuff2api.Web.{
  WebRequest, WebAnswer, Console, WebEnv, Content, cookie_valid, require_session, admitted,
  web_payload, method_not_allowed, not_found, Route, to_favicon, to_login, to_logout, to_session,
  to_health, to_models, to_chat, to_accounts, to_account, to_page, to_nowhere, to_api, is_api,
  route_of, on_route, serve_web, replied, removed, listed, posted, web_accounts, patched,
  on_account, on_validation, on_parts, split_path, items_path, web_account_item, web_login,
  web_logout, web_session,
}
use freebuff2api.Web.Guarded.{
  cookie_valid-accounts, web_login-accounts, web_logout-accounts, web_session-accounts,
}

-- The console's active pools are filed under their accounts.
abbrev pub Filed : Console → Type 0
Filed c = IsFiled c.accounts

Filed-same : (c d : Console) → d.accounts ≡ c.accounts → Filed c → Filed d
Filed-same c d e v = subst IsFiled (sym e) v

Filed-if :
    (b : Bool) (x y : Console × WebAnswer) → Filed x.0 → Filed y.0 → Filed (if b then x else y).0
Filed-if true x y vx vy = vx
Filed-if false x y vx vy = vy

admitted-Filed :
    (o : Console × Bool) (next : Console → Console × WebAnswer)
    → ((d : Console) → Filed d → Filed (next d).0)
    → Filed o.0
    → Filed (admitted o next).0
unfolding admitted
admitted-Filed (c, false) next keeps v = v
admitted-Filed (c, true) next keeps v = keeps c v

require_session-Filed :
    (c : Console) (r : WebRequest) (env : WebEnv) (next : Console → Console × WebAnswer)
    → ((d : Console) → Filed d → Filed (next d).0)
    → Filed c
    → Filed (require_session c r env next).0
unfolding require_session
require_session-Filed c r env next keeps v = Filed-if (not (enabled c.sessions)) _ _ v (
    admitted-Filed (cookie_valid c r env) next keeps
      (Filed-same c (cookie_valid c r env).0 (cookie_valid-accounts c r env) v))

web_payload-Filed :
    (content : Content) (c : Console) (r : WebRequest) → Filed c → Filed (web_payload content c r).0
unfolding web_payload method_not_allowed
web_payload-Filed content c r v = Filed-if (not (text_eq r.method (codes "GET"))) _ _ v v

replied-Filed :
    (c : Console) (status : ℕ) (m : AccountManager) (o : Outcome AccountView)
    → IsFiled m
    → Filed (replied c status (m, o)).0
unfolding replied
replied-Filed c status m (ok view) v = v
replied-Filed c status m (fail e) v = v

removed-Filed :
    (c : Console) (m : AccountManager) (o : Outcome (Unit {0}))
    → IsFiled m
    → Filed (removed c (m, o)).0
unfolding removed
removed-Filed c m (ok _) v = v
removed-Filed c m (fail e) v = v

listed-Filed : (c : Console) (o : Outcome (List AccountView)) → Filed c → Filed (listed c o).0
unfolding listed
listed-Filed c (ok views) v = v
listed-Filed c (fail e) v = v

module _ (decrypt : Text → Outcome Text) (created_before : ℕ → ℕ → Bool)
    (error_text : Error → Text) where
  posted-Filed :
      (c : Console) (env : WebEnv) (input : Option AccountInput)
      → Filed c
      → Filed (posted decrypt created_before error_text c env input).0
  unfolding posted
  posted-Filed c env none v = v
  posted-Filed c env (some input) v = replied-Filed c 201 _ _ (
      create_view-IsFiled decrypt created_before error_text c.accounts input env.drawn env.validated
        env.checked_at env.written_at v)

  web_accounts-Filed :
      (c : Console) (r : WebRequest) (env : WebEnv)
      → Filed c
      → Filed (web_accounts decrypt created_before error_text c r env).0
  unfolding web_accounts method_not_allowed
  web_accounts-Filed c r env v = Filed-if (not c.accounts.is_stored) _ _ v (
      Filed-if (text_eq r.method (codes "GET")) _ _
        (listed-Filed c (list_views decrypt created_before error_text c.accounts) v)
        (Filed-if (text_eq r.method (codes "POST")) _ _ (posted-Filed c env r.new_account v) v))

  patched-Filed :
      (c : Console) (id : Text) (env : WebEnv) (input : Option AccountUpdateInput)
      → Filed c
      → Filed (patched decrypt created_before error_text c id env input).0
  unfolding patched
  patched-Filed c id env none v = v
  patched-Filed c id env (some input) v = replied-Filed c 200 _ _ (
      update_view-IsFiled decrypt created_before error_text c.accounts id input env.drawn
        env.validated env.checked_at env.written_at v)

  on_account-Filed :
      (c : Console) (r : WebRequest) (env : WebEnv) (id : Text)
      → Filed c
      → Filed (on_account decrypt created_before error_text c r env id).0
  unfolding on_account method_not_allowed
  on_account-Filed c r env id v =
      Filed-if (text_eq r.method (codes "PATCH")) _ _ (patched-Filed c id env r.account_update v) (
        Filed-if (text_eq r.method (codes "DELETE")) _ _
          (removed-Filed c _ _
            (delete_managed-IsFiled decrypt created_before error_text c.accounts id v))
          v)

  on_validation-Filed :
      (c : Console) (r : WebRequest) (env : WebEnv) (id : Text)
      → Filed c
      → Filed (on_validation decrypt created_before error_text c r env id).0
  unfolding on_validation method_not_allowed
  on_validation-Filed c r env id v = Filed-if (not (text_eq r.method (codes "POST"))) _ _ v (
      replied-Filed c 200 _ _ (
        validate_view-IsFiled decrypt created_before error_text c.accounts id env.validated
          env.checked_at env.written_at v))

  on_parts-Filed :
      (c : Console) (r : WebRequest) (env : WebEnv) (id : Text) (rest : List Text)
      → Filed c
      → Filed (on_parts decrypt created_before error_text c r env id rest).0
  unfolding on_parts not_found
  on_parts-Filed c r env id [] v = on_account-Filed c r env id v
  on_parts-Filed c r env id (action ∷ []) v =
      Filed-if (text_eq action (codes "validate")) _ _ (on_validation-Filed c r env id v) v
  on_parts-Filed c r env id (action ∷ more ∷ rest) v = v

  web_account_item-Filed :
      (c : Console) (r : WebRequest) (env : WebEnv)
      → Filed c
      → Filed (web_account_item decrypt created_before error_text c r env).0
  unfolding web_account_item not_found
  web_account_item-Filed c r env v =
      let path = trim_slashes (drop_slashes (trim_prefix r.path items_path)) in
      Filed-if (not c.accounts.is_stored) _ _ v (
        Filed-if (text_eq path []) _ _ v (
          Filed-if (text_eq (trim_space (split_path path).0) []) _ _ v
            (on_parts-Filed c r env (trim_space (split_path path).0) (split_path path).1 v)))

  on_route-Filed :
      (c : Console) (r : WebRequest) (env : WebEnv) (route : Route)
      → Filed c
      → Filed (on_route decrypt created_before error_text c r env route).0
  unfolding on_route not_found
  on_route-Filed c r env to_favicon v = v
  on_route-Filed c r env to_login v =
      Filed-same c (web_login c r env).0 (web_login-accounts c r env) v
  on_route-Filed c r env to_logout v = Filed-same c (web_logout c r).0 (web_logout-accounts c r) v
  on_route-Filed c r env to_session v =
      Filed-same c (web_session c r env).0 (web_session-accounts c r env) v
  on_route-Filed c r env to_health v =
      require_session-Filed c r env _ (λ d w. web_payload-Filed _ d r w) v
  on_route-Filed c r env to_models v =
      require_session-Filed c r env _ (λ d w. web_payload-Filed _ d r w) v
  on_route-Filed c r env to_chat v = require_session-Filed c r env _ (λ d w. w) v
  on_route-Filed c r env to_accounts v =
      require_session-Filed c r env _ (λ d w. web_accounts-Filed d r env w) v
  on_route-Filed c r env to_account v =
      require_session-Filed c r env _ (λ d w. web_account_item-Filed d r env w) v
  on_route-Filed c r env to_page v = v
  on_route-Filed c r env to_nowhere v = v
  on_route-Filed c r env to_api v = v

  -- If the active pools are filed under their accounts, they are so after any request to the console,
  -- whatever it does and whatever fails.
  pub serve_web-Filed :
      (c : Console) (r : WebRequest) (env : WebEnv)
      → Filed c
      → Filed (serve_web decrypt created_before error_text c r env).0
  unfolding serve_web not_found
  serve_web-Filed c r env v =
      Filed-if (not (enabled c.sessions) && not (is_api (route_of r.path))) _ _ v
        (on_route-Filed c r env (route_of r.path) v)
