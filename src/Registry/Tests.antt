-- ===== src/Registry/Tests.antt =====
-- The registry at its fallback.
use freebuff2api.Base.{
  ℕ, ◌-◌, ◌<◌, ◌≡◌, refl, some, List, [], Text, codes, text_eq, text_lt, lookup, arith,
}
use freebuff2api.Registry.{
  Registry, hardcoded_fallback, load_fallback, with_agents, build_model_mapping, add_agents,
  add_models, add_serving, choose_agents, sorted_models, insert_text, agent_for_model,
}
use freebuff2api.Registry.Serving.{Answers, build_model_mapping-Answers}

-- The last agent of a model.
pick : Text → ℕ → ℕ
pick m n = n - 1

pick-in_range : (m : Text) (n : ℕ) → 0 < n → pick m n < n
unfolding pick
pick-in_range m n h = omega arith

abbrev empty : Registry
empty = record { agent_models = []; model_to_agent = []; all_models = [] }

agent_for_model_test :
    agent_for_model (load_fallback pick empty) (codes "z-ai/glm-5.1")
    ≡ some (codes "code-reviewer-lite")
unfolding agent_for_model load_fallback with_agents build_model_mapping add_agents add_models
    add_serving choose_agents sorted_models insert_text lookup text_eq text_lt pick
agent_for_model_test = refl

build_model_mapping-Answers_example :
    (mapping : List (Text × Text)) × (models : List Text) × (build_model_mapping pick
        hardcoded_fallback
      ≡ some (mapping, models))
    × ((m : Text) → Answers hardcoded_fallback mapping models m)
build_model_mapping-Answers_example =
    build_model_mapping-Answers pick hardcoded_fallback pick-in_range
