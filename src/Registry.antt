-- ===== src/Registry.antt =====
-- models.go, the registry of models: which agent serves which model. The map of agents is a list of
-- its entries, in the order in which Go happens to go through it; `pick` is `rand.Intn`. The
-- regular expressions that read the agents out of the remote source are a library's.
pub mod Serving
pub mod Refresh
mod Tests
use freebuff2api.Base.{
  ℕ, Bool, true, false, ◌||◌, ◌&&◌, Option, none, some, List, [], ◌∷◌, ◌++◌, if◌then◌else◌, Text,
  codes, text_eq, text_lt, lookup, length, get_elem?,
}

-- `ModelRegistry`, less its client and its clock.
pub record Registry : Type 0 where
  pub agent_models : List (Text × List Text)
  pub model_to_agent : List (Text × Text)
  pub all_models : List Text

-- `modelAgents[model] = append(modelAgents[model], agentID)`
unfoldable pub add_serving : Text → Text → List (Text × List Text) → List (Text × List Text)
add_serving model agent [] = (model, agent ∷ []) ∷ []
add_serving model agent ((m, agents) ∷ rest) =
    let later = add_serving model agent rest in
    if text_eq m model then (m, agents ++ agent ∷ []) ∷ rest else (m, agents) ∷ later

unfoldable pub add_models : Text → List Text → List (Text × List Text) → List (Text × List Text)
add_models agent [] table = table
add_models agent (m ∷ models) table = add_models agent models (add_serving m agent table)

unfoldable pub add_agents :
    List (Text × List Text) → List (Text × List Text) → List (Text × List Text)
add_agents [] table = table
add_agents ((agent, models) ∷ rest) table = add_agents rest (add_models agent models table)

-- An entry of the mapping; `none` is an index out of range.
abbrev pub chosen : Text → Option Text → Option (List (Text × Text)) → Option (List (Text × Text))
chosen model none later = none
chosen model (some agent) none = none
chosen model (some agent) (some later) = some ((model, agent) ∷ later)

unfoldable pub choose_agents :
    (Text → ℕ → ℕ) → List (Text × List Text) → Option (List (Text × Text))
choose_agents pick [] = some []
choose_agents pick ((m, agents) ∷ rest) =
    chosen m (get_elem? agents (pick m (length agents))) (choose_agents pick rest)

-- `sort.Strings`
unfoldable pub insert_text : Text → List Text → List Text
insert_text t [] = t ∷ []
insert_text t (s ∷ rest) =
    let later = insert_text t rest in if text_lt s t then s ∷ later else t ∷ s ∷ rest

unfoldable pub sorted_models : List (Text × List Text) → List Text
sorted_models [] = []
sorted_models ((m, agents) ∷ rest) = insert_text m (sorted_models rest)

-- `buildModelMapping`
abbrev pub with_models :
    List Text → Option (List (Text × Text)) → Option (List (Text × Text) × List Text)
with_models models none = none
with_models models (some mapping) = some (mapping, models)

unfoldable pub build_model_mapping :
    (Text → ℕ → ℕ) → List (Text × List Text) → Option (List (Text × Text) × List Text)
build_model_mapping pick agents =
    let table = add_agents agents [] in with_models (sorted_models table) (choose_agents pick table)

-- `hardcodedFallback`
abbrev minimax_glm : List Text
minimax_glm = codes "minimax/minimax-m2.7" ∷ codes "z-ai/glm-5.1" ∷ []

abbrev gemini_preview : List Text
gemini_preview = codes "google/gemini-3.1-flash-lite-preview" ∷ []

abbrev pub hardcoded_fallback : List (Text × List Text)
hardcoded_fallback =
    (codes "base2-free", minimax_glm)
    ∷ (codes "file-picker", codes "google/gemini-2.5-flash-lite" ∷ [])
    ∷ (codes "file-picker-max", gemini_preview)
    ∷ (codes "file-lister", gemini_preview)
    ∷ (codes "researcher-web", gemini_preview)
    ∷ (codes "researcher-docs", gemini_preview)
    ∷ (codes "basher", gemini_preview)
    ∷ (codes "editor-lite", minimax_glm)
    ∷ (codes "code-reviewer-lite", minimax_glm)
    ∷ []

-- What `refresh`, once it has read some agents, and `loadFallback` write.
abbrev pub built :
    List (Text × List Text) → Registry → Option (List (Text × Text) × List Text) → Registry
built agents r none = r
built agents r (some (mapping, models)) = record {
  agent_models = agents;
  model_to_agent = mapping;
  all_models = models;
}

unfoldable pub with_agents : (Text → ℕ → ℕ) → List (Text × List Text) → Registry → Registry
with_agents pick agents r = built agents r (build_model_mapping pick agents)

unfoldable pub load_fallback : (Text → ℕ → ℕ) → Registry → Registry
load_fallback pick r = with_agents pick hardcoded_fallback r

-- The end of `refresh`; no agents are an error, and change nothing.
unfoldable pub refresh_with : (Text → ℕ → ℕ) → List (Text × List Text) → Registry → Registry
refresh_with pick [] r = r
refresh_with pick (a ∷ agents) r = with_agents pick (a ∷ agents) r

-- `HasModel`, `AgentForModel`, `AgentIDs`
unfoldable pub has_model : Registry → Text → Bool
has_model r model = elim (lookup model r.model_to_agent) [ none ↦ false | some _ ↦ true ]

unfoldable pub agent_for_model : Registry → Text → Option Text
agent_for_model r model = lookup model r.model_to_agent

unfoldable pub agent_ids_of : List (Text × List Text) → List Text
agent_ids_of [] = []
agent_ids_of ((agent, models) ∷ rest) = agent ∷ agent_ids_of rest
