-- ===== src/Registry/Refresh.antt =====
-- models.go: reading the agents out of the remote source, and the start of the registry.
-- `block_matches` and `model_matches` are `FindAllStringSubmatch` of the two patterns, less the whole
-- matches.
use freebuff2api.Base.{
  ℕ, not, List, [], ◌∷◌, ◌++◌, if◌then◌else◌, Text, codes, text_eq, trim_space, insert, decimal,
}
use freebuff2api.Errors.{upstream, Outcome, ok, fail}
use freebuff2api.Upstream.{Returned, returns, breaks, Reply, is_success}
use freebuff2api.Registry.{Registry, refresh_with, load_fallback}

-- The models of a block.
unfoldable pub named_models : List Text → List Text
named_models [] = []
named_models (m ∷ rest) =
    let later = named_models rest in
    if text_eq (trim_space m) [] then later else trim_space m ∷ later

abbrev with_block : List (Text × List Text) → Text → List Text → List (Text × List Text)
with_block found agent [] = found
with_block found agent models = insert agent models found

module _ (block_matches : Text → List (Text × Text)) (model_matches : Text → List Text) where
  unfoldable pub add_blocks : List (Text × List Text) → List (Text × Text) → List (Text × List Text)
  add_blocks found [] = found
  add_blocks found ((agent, models) ∷ rest) =
      add_blocks (with_block found agent (named_models (model_matches models))) rest

  -- `parseAllFreeModels`
  unfoldable pub parse_all_free_models : Text → List (Text × List Text)
  parse_all_free_models source = add_blocks [] (block_matches source)

  refreshed_with :
      (Text → ℕ → ℕ) → Registry → List (Text × List Text) → Registry × Outcome (Unit {0})
  refreshed_with pick r [] = (r, fail (upstream (codes "no free agents found in source")))
  refreshed_with pick r (a ∷ agents) = (refresh_with pick (a ∷ agents) r, ok tt)

  fetched : (Text → ℕ → ℕ) → Registry → ℕ → Returned Text → Registry × Outcome (Unit {0})
  unfolding refreshed_with
  fetched pick r status body =
      if not (is_success status)
      then (r, fail (upstream (codes "unexpected status " ++ decimal status)))
      else elim body [
        | breaks e ↦ (r, fail (upstream (codes "read response: " ++ e)))
        | returns source ↦ refreshed_with pick r (parse_all_free_models source)
      ]

  -- `refresh`, from what the HTTP client returns on.
  unfoldable pub refresh_registry :
      (Text → ℕ → ℕ) → Registry → Returned Reply → Registry × Outcome (Unit {0})
  unfolding fetched
  refresh_registry pick r (breaks e) =
      (r, fail (upstream (codes "fetch free-agents source: " ++ e)))
  refresh_registry pick r (returns reply) = fetched pick r reply.status reply.body

  or_fallback : (Text → ℕ → ℕ) → Registry × Outcome (Unit {0}) → Registry
  or_fallback pick (r, ok _) = r
  or_fallback pick (r, fail e) = load_fallback pick r

  -- `Start`, before the loop that refreshes.
  unfoldable pub start_registry :
      (Text → ℕ → ℕ) → (Text → ℕ → ℕ) → Registry → Returned Reply → Registry
  unfolding or_fallback
  start_registry pick pick_fallback r reply =
      or_fallback pick_fallback (refresh_registry pick r reply)

-- `NewModelRegistry`
pub new_model_registry : Registry
new_model_registry = record { agent_models = []; model_to_agent = []; all_models = [] }
