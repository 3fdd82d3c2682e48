-- ===== src/Registry/Serving.antt =====
-- The registry answers with an agent that serves the model, for exactly the models that are served.
use freebuff2api.Base.{
  ℕ, suc, zero, ◌<◌, ◌≡◌, ◌⊎◌, inl, inr, refl, Bool, true, false, ◌||◌, ◌&&◌, none, some, List, [],
  ◌∷◌, ◌++◌, arith, All, Text, text_eq, text_eq_iff, text_eq_refl, lookup, length, length-append,
  get_elem?, Bool-cases,
}
use freebuff2api.Config.{has_seen}
use freebuff2api.Registry.{
  add_serving, add_models, add_agents, choose_agents, insert_text, sorted_models,
  build_model_mapping,
}

-- `agent` serves `model`.
abbrev pub serves : Text → Text → List (Text × List Text) → Bool
serves agent model [] = false
serves agent model ((a, models) ∷ rest) =
    (text_eq a agent && has_seen model models) || serves agent model rest

-- The agents that the table has for a model.
abbrev agents_of : Text → List (Text × List Text) → List Text
agents_of model table = elim (lookup model table) [ none ↦ [] | some agents ↦ agents ]

has_seen-append :
    (t : Text) (l k : List Text) → has_seen t (l ++ k) ≡ (has_seen t l || has_seen t k)
unfolding has_seen
has_seen-append t [] k = refl
has_seen-append t (s ∷ l) k = ground (arith, has_seen-append t l k)

has_seen-single : (t s : Text) → has_seen t (s ∷ []) ≡ text_eq s t
unfolding has_seen
has_seen-single t s = ground arith

has_seen-nil : (t : Text) → has_seen t [] ≡ false
unfolding has_seen
has_seen-nil t = refl

agents_of-add_serving :
    (model agent m a : Text) (table : List (Text × List Text))
    → has_seen a (agents_of m (add_serving model agent table))
      ≡ (has_seen a (agents_of m table) || (text_eq model m && text_eq agent a))
unfolding add_serving lookup
agents_of-add_serving model agent m a [] = ground (arith, has_seen-single a agent, has_seen-nil a)
agents_of-add_serving model agent m a ((j, agents) ∷ rest) = ground (
  arith,
  agents_of-add_serving model agent m a rest,
  has_seen-append a agents (agent ∷ []),
  has_seen-single a agent,
  text_eq_iff j model,
  text_eq_iff j m,
  text_eq_iff model m,
)

agents_of-add_models :
    (agent m a : Text) (models : List Text) (table : List (Text × List Text))
    → has_seen a (agents_of m (add_models agent models table))
      ≡ (has_seen a (agents_of m table) || (text_eq agent a && has_seen m models))
unfolding add_models has_seen
agents_of-add_models agent m a [] table = ground arith
agents_of-add_models agent m a (j ∷ models) table = ground (
  arith,
  agents_of-add_models agent m a models (add_serving j agent table),
  agents_of-add_serving j agent m a table,
)

agents_of-add_agents :
    (m a : Text) (agents table : List (Text × List Text))
    → has_seen a (agents_of m (add_agents agents table))
      ≡ (has_seen a (agents_of m table) || serves a m agents)
unfolding add_agents
agents_of-add_agents m a [] table = ground arith
agents_of-add_agents m a ((b, models) ∷ rest) table = ground (
  arith,
  agents_of-add_agents m a rest (add_models b models table),
  agents_of-add_models b m a models table,
)

-- No model of the table is without agents.
abbrev AllServed : List (Text × List Text) → Type 0
AllServed table = All (λ e. 0 < length (e.1)) table

add_serving-AllServed :
    (model agent : Text) (table : List (Text × List Text))
    → AllServed table
    → AllServed (add_serving model agent table)
unfolding add_serving
add_serving-AllServed model agent [] h = (omega arith, tt)
add_serving-AllServed model agent ((m, agents) ∷ rest) h = elim (Bool-cases (text_eq m model)) [
  | inl same ↦ rw same (omega (arith, length-append agents (agent ∷ [])), h.1)
  | inr other ↦ rw other (h.0, add_serving-AllServed model agent rest h.1)
]

add_models-AllServed :
    (agent : Text) (models : List Text) (table : List (Text × List Text))
    → AllServed table
    → AllServed (add_models agent models table)
unfolding add_models
add_models-AllServed agent [] table h = h
add_models-AllServed agent (m ∷ models) table h =
    add_models-AllServed agent models (add_serving m agent table)
      (add_serving-AllServed m agent table h)

add_agents-AllServed :
    (agents table : List (Text × List Text)) → AllServed table → AllServed (add_agents agents table)
unfolding add_agents
add_agents-AllServed [] table h = h
add_agents-AllServed ((a, models) ∷ rest) table h =
    add_agents-AllServed rest (add_models a models table) (add_models-AllServed a models table h)

get_elem?-seen :
    (l : List Text) (i : ℕ)
    → i < length l
    → (a : Text) × (get_elem? l i ≡ some a) × (has_seen a l ≡ true)
unfolding has_seen
get_elem?-seen [] i h = absurd (omega arith)
get_elem?-seen (a ∷ l) zero h = (a, refl, ground (arith, text_eq_refl a))
get_elem?-seen (a ∷ l) (suc i) h =
    let (b, e, s) = get_elem?-seen l i (omega arith) in (b, e, ground arith)

-- The mapping names, for the models of the table and no others, one of their agents.
abbrev Chooses : List (Text × List Text) → List (Text × Text) → Text → Type 0
Chooses table mapping m =
    ((a : Text) × (lookup m mapping ≡ some a) × (has_seen a (agents_of m table) ≡ true))
    ⊎ ((lookup m mapping ≡ none) × (lookup m table ≡ none))

Chooses-later :
    (j a : Text) (agents : List Text) (rest : List (Text × List Text)) (later : List (Text × Text))
    (m : Text)
    → text_eq j m ≡ false
    → Chooses rest later m
    → Chooses ((j, agents) ∷ rest) ((j, a) ∷ later) m
unfolding lookup
Chooses-later j a agents rest later m other (inl (b, e, s)) = inl (b, ground arith, ground arith)
Chooses-later j a agents rest later m other (inr (e, f)) = inr (ground arith, ground arith)

module _ (pick : Text → ℕ → ℕ) (in_range : (m : Text) (n : ℕ) → 0 < n → pick m n < n) where
  choose_agents-Chooses :
      (table : List (Text × List Text))
      → AllServed table
      → (mapping : List (Text × Text)) × (choose_agents pick table ≡ some mapping)
        × ((m : Text) → Chooses table mapping m)
  unfolding choose_agents lookup
  choose_agents-Chooses [] h = ([], refl, λ m. inr (refl, refl))
  choose_agents-Chooses ((j, agents) ∷ rest) h =
      let (a, e, s) =
        get_elem?-seen agents (pick j (length agents)) (in_range j (length agents) h.0) in
      let (later, f, t) = choose_agents-Chooses rest h.1 in
      (
        (j, a) ∷ later,
        rw (e, f) refl,
        λ m. elim (Bool-cases (text_eq j m)) [
          | inl same ↦ inl (a, rw same refl, ground (arith, s))
          | inr other ↦ Chooses-later j a agents rest later m other (t m)
        ],
      )

has_seen-insert_text :
    (k t : Text) (l : List Text) → has_seen k (insert_text t l) ≡ (text_eq t k || has_seen k l)
unfolding has_seen insert_text
has_seen-insert_text k t [] = ground arith
has_seen-insert_text k t (s ∷ l) = ground (arith, has_seen-insert_text k t l)

has_seen-sorted_models :
    (k : Text) (table : List (Text × List Text))
    → has_seen k (sorted_models table) ≡ elim (lookup k table) [ none ↦ false | some _ ↦ true ]
unfolding sorted_models lookup
has_seen-sorted_models k [] = has_seen-nil k
has_seen-sorted_models k ((j, agents) ∷ rest) =
    ground (arith, has_seen-insert_text k j (sorted_models rest), has_seen-sorted_models k rest)

-- What the registry says of a model: it is listed and has an agent that serves it, or it is not listed
-- and has none, and none serves it.
abbrev pub Answers : List (Text × List Text) → List (Text × Text) → List Text → Text → Type 0
Answers agents mapping models m =
    ((a : Text) × (lookup m mapping ≡ some a)
      × (serves a m agents ≡ true)
      × (has_seen m models ≡ true))
    ⊎ ((lookup m mapping ≡ none)
        × (has_seen m models ≡ false)
        × ((a : Text) → serves a m agents ≡ false))

-- With a random number below its bound, drawn for each model, `buildModelMapping` is never out of range, and gives, for each
-- model that some agent serves and for no other, an agent that serves it, and lists exactly these
-- models.
pub build_model_mapping-Answers :
    (pick : Text → ℕ → ℕ) (agents : List (Text × List Text))
    → ((m : Text) (n : ℕ) → 0 < n → pick m n < n)
    → (mapping : List (Text × Text)) × (models : List Text) × (build_model_mapping pick agents
        ≡ some (mapping, models))
      × ((m : Text) → Answers agents mapping models m)
unfolding build_model_mapping lookup
build_model_mapping-Answers pick agents in_range =
    let table = add_agents agents [] in
    let (mapping, e, c) =
      choose_agents-Chooses pick in_range table (add_agents-AllServed agents [] tt) in
    (mapping, sorted_models table, rw e refl, λ m. answers mapping m (c m))
  where
    answers :
        (mapping : List (Text × Text)) (m : Text)
        → Chooses (add_agents agents []) mapping m
        → Answers agents mapping (sorted_models (add_agents agents [])) m
    answers mapping m (inl (a, e, s)) = inl (
      a,
      e,
      ground (arith, agents_of-add_agents m a agents [], has_seen-nil a),
      ground (arith, has_seen-sorted_models m (add_agents agents []), has_seen-nil a),
    )
    answers mapping m (inr (e, f)) = inr (
      e,
      ground (arith, has_seen-sorted_models m (add_agents agents [])),
      λ a. ground (arith, agents_of-add_agents m a agents [], has_seen-nil a),
    )
