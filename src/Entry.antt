-- ===== src/Entry.antt =====
-- main.go: how the parts are put together at the start. The settings have been loaded, and the store,
-- if there is one, has been opened; listening, signals and the timers are not modelled.
pub mod Launched
mod Tests
use freebuff2api.Base.{ℕ, Bool, not, Option, List, [], ◌∷◌, to_nat, pos, Text, text_eq}
use freebuff2api.Errors.{Error, Outcome, ok, fail}
use freebuff2api.Config.{Settings}
use freebuff2api.Store.{Row}
use freebuff2api.Pool.{Pool}
use freebuff2api.Upstream.{Returned, Reply}
use freebuff2api.Registry.{Registry, agent_ids_of}
use freebuff2api.Registry.Refresh.{new_model_registry, start_registry}
use freebuff2api.Manager.{Manager}
use freebuff2api.Manager.Lifecycle.{new_run_manager, start_manager}
use freebuff2api.Sessions.{new_session_manager, default_ttl}
use freebuff2api.Accounts.{Accounts}
use freebuff2api.Accounts.Manage.{AccountManager, Drawn, bootstrap}
use freebuff2api.Web.{Console}

-- The program once it serves requests, and the pools and agents that it begins to prewarm.
pub record App : Type 0 where
  pub registry : Registry
  pub console : Console
  pub prewarms : Option (List ℕ × List Text)

-- What the start meets: the remote source, the random choices, what is drawn for accounts that are
-- taken over, and the clock. `pools` is the memory for pools.
pub record LaunchEnv : Type 0 where
  pub source : Returned Reply
  pub pick : Text → ℕ → ℕ
  pub pick_fallback : Text → ℕ → ℕ
  pub drawn : ℕ → Drawn
  pub now : ℕ
  pub pools : ℕ → Pool

-- The account manager that `main` builds, with the rows of the opened store.
abbrev pub first_manager : Settings → List Row → LaunchEnv → AccountManager
first_manager cfg table env = record {
  is_stored = not (text_eq cfg.data_db_path []);
  auth_tokens = cfg.auth_tokens;
  accounts = record {
    table = table;
    runs = new_run_manager (to_nat cfg.rotation_interval) env.pools;
  };
  legacy_records = [];
}

-- The end of `main`, once `Bootstrap` has succeeded: `NewServer` and its `Start`.
started : Settings → Registry → AccountManager → App
started cfg registry m =
    let (runs, prewarms) = start_manager m.accounts.runs (agent_ids_of registry.agent_models) in
    record {
      registry = registry;
      console = record {
        sessions = new_session_manager cfg.web_password (pos default_ttl);
        accounts = record m { accounts = record (m.accounts) { runs = runs } };
      };
      prewarms = prewarms;
    }

launched : Settings → Registry → AccountManager × Outcome (Unit {0}) → Outcome App
unfolding started
launched cfg registry (m, ok _) = ok (started cfg registry m)
launched cfg registry (m, fail e) = fail e

module _ (block_matches : Text → List (Text × Text)) (model_matches : Text → List Text)
    (decrypt : Text → Outcome Text) (created_before : ℕ → ℕ → Bool)
    (error_text : Error → Text) where
  -- `main`; an error of `Bootstrap` ends the program.
  unfoldable pub launch : Settings → List Row → LaunchEnv → Outcome App
  unfolding launched
  launch cfg table env =
      launched cfg
        (start_registry block_matches model_matches env.pick env.pick_fallback new_model_registry
          env.source)
        (bootstrap decrypt created_before error_text (first_manager cfg table env) env.drawn
          env.now)
