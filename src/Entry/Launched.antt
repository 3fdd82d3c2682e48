-- ===== src/Entry/Launched.antt =====
-- From the start on, the active pools are filed under their accounts.
use freebuff2api.Base.{ℕ, ◌≡◌, subst, Bool, List, [], ◌∷◌, Text, arith}
use freebuff2api.Errors.{Error, Outcome, ok, fail}
use freebuff2api.Config.{Settings}
use freebuff2api.Store.{Row}
use freebuff2api.Registry.{Registry}
use freebuff2api.Manager.Lifecycle.{new_run_manager, start_manager}
use freebuff2api.Accounts.Manage.{AccountManager, mark_managed}
use freebuff2api.Accounts.Manage.Keyed.{IsFiled, bootstrap-IsFiled, mark_managed-IsFiled}
use freebuff2api.Web.{WebRequest, Console, WebEnv, serve_web}
use freebuff2api.Web.Keyed.{Filed, serve_web-Filed}
use freebuff2api.Entry.{App, LaunchEnv, first_manager, started, launched, launch}

-- What happens to the console's accounts later: a request to the console, and a token that a chat
-- request finds rejected.
pub data Happening : Type 0 where
  visited : WebRequest → WebEnv → Happening
  rejected : Text → Text → ℕ → ℕ → Happening

module _ (decrypt : Text → Outcome Text) (created_before : ℕ → ℕ → Bool)
    (error_text : Error → Text) where
  abbrev after_one : Console → Happening → Console
  after_one c (visited r env) = (serve_web decrypt created_before error_text c r env).0
  after_one c (rejected id why checked_at now) = record c {
    accounts = mark_managed decrypt created_before error_text c.accounts id why checked_at now;
  }

  abbrev pub after_all : Console → List Happening → Console
  after_all c [] = c
  after_all c (h ∷ rest) = after_all (after_one c h) rest

  after_one-Filed : (c : Console) (h : Happening) → Filed c → Filed (after_one c h)
  after_one-Filed c (visited r env) v = serve_web-Filed decrypt created_before error_text c r env v
  after_one-Filed c (rejected id why checked_at now) v =
      mark_managed-IsFiled decrypt created_before error_text c.accounts id why checked_at now v

  after_all-Filed : (hs : List Happening) (c : Console) → Filed c → Filed (after_all c hs)
  after_all-Filed [] c v = v
  after_all-Filed (h ∷ rest) c v = after_all-Filed rest (after_one c h) (after_one-Filed c h v)

started-Filed :
    (cfg : Settings) (registry : Registry) (m : AccountManager)
    → IsFiled m
    → Filed (started cfg registry m).console
unfolding started start_manager
started-Filed cfg registry m v = v

launched-Filed :
    (cfg : Settings) (registry : Registry) (m : AccountManager) (o : Outcome (Unit {0})) (app : App)
    → IsFiled m
    → launched cfg registry (m, o) ≡ ok app
    → Filed app.console
unfolding launched
launched-Filed cfg registry m (fail e) app v h = absurd (ground arith)
launched-Filed cfg registry m (ok _) app v h =
    subst (λ a. Filed a.console) {x = started cfg registry m} {y = app} (ground arith)
      (started-Filed cfg registry m v)

-- If the program starts, then after any requests to the console and any tokens found rejected, its
-- active pools are filed under their accounts.
pub launch-Filed :
    (block_matches : Text → List (Text × Text)) (model_matches : Text → List Text)
    (decrypt : Text → Outcome Text) (created_before : ℕ → ℕ → Bool) (error_text : Error → Text)
    (cfg : Settings) (table : List Row) (env : LaunchEnv) (app : App) (hs : List Happening)
    → launch block_matches model_matches decrypt created_before error_text cfg table env ≡ ok app
    → Filed (after_all decrypt created_before error_text app.console hs)
unfolding launch new_run_manager
launch-Filed block_matches model_matches decrypt created_before error_text cfg table env app hs h =
    after_all-Filed decrypt created_before error_text hs app.console (
      launched-Filed cfg _ _ _ app
        (bootstrap-IsFiled decrypt created_before error_text (first_manager cfg table env) env.drawn
          env.now tt)
        h)
