-- ===== src/Manager/Prewarmed.antt =====
-- What the prewarming of a pool leaves.
use freebuff2api.Base.{
  ℕ, ◌≡◌, inl, inr, refl, subst, Bool, true, false, ◌||◌, not, none, some, List, [], ◌∷◌, Text,
  text_eq, text_eq_refl, trim_space, lookup, lookup-insert, All, arith, Bool-cases,
}
use freebuff2api.Errors.{Outcome, ok, fail}
use freebuff2api.Pool.{Pool, rotate_agent, rotate_answered, rotate_commit, is_cooling}
use freebuff2api.Manager.Lifecycle.{prewarm_agents}

-- The agent has a current run.
abbrev pub has_run : Pool → Text → Bool
has_run p agent = elim (lookup agent p.runs) [ none ↦ false | some a ↦ true ]

abbrev is_ok : Outcome Text → Bool
is_ok (ok id) = true
is_ok (fail e) = false

rotate_agent-cooldown :
    (p : Pool) (agent : Text) (now : ℕ) (answer : Outcome Text)
    → (rotate_agent p agent now answer).0.cooldown_until ≡ p.cooldown_until
unfolding rotate_agent rotate_answered rotate_commit
rotate_agent-cooldown p agent now (ok id) = ground arith
rotate_agent-cooldown p agent now (fail e) = ground arith

rotate_agent-has_run :
    (p : Pool) (agent k : Text) (now : ℕ) (answer : Outcome Text)
    → has_run p k ≡ true
    → has_run (rotate_agent p agent now answer).0 k ≡ true
unfolding rotate_agent rotate_answered rotate_commit
rotate_agent-has_run p agent k now (ok id) h = ground (arith, lookup-insert agent k p.next p.runs)
rotate_agent-has_run p agent k now (fail e) h = ground arith

rotate_agent-new :
    (p : Pool) (agent : Text) (now : ℕ) (answer : Outcome Text)
    → is_cooling p now ≡ false
    → is_ok answer ≡ true
    → has_run (rotate_agent p agent now answer).0 agent ≡ true
unfolding rotate_agent rotate_answered rotate_commit
rotate_agent-new p agent now (ok id) h g =
    ground (arith, lookup-insert agent agent p.next p.runs, text_eq_refl agent)
rotate_agent-new p agent now (fail e) h g = ground arith

prewarm_agents-has_run :
    (p : Pool) (agents : List Text) (now : ℕ) (starts : Text → Outcome Text) (k : Text)
    → has_run p k ≡ true
    → has_run (prewarm_agents p agents now starts) k ≡ true
unfolding prewarm_agents
prewarm_agents-has_run p [] now starts k h = h
prewarm_agents-has_run p (agent ∷ rest) now starts k h =
    elim (Bool-cases (text_eq (trim_space agent) [])) [
      | inl blank ↦ rw (blank, prewarm_agents) (prewarm_agents-has_run p rest now starts k h)
      | inr named ↦
          rw (named, prewarm_agents)
            (prewarm_agents-has_run
              (rotate_agent p (trim_space agent) now (starts (trim_space agent))).0 rest now starts
              k (rotate_agent-has_run p (trim_space agent) k now (starts (trim_space agent)) h))
    ]

-- The agent is blank, or the upstream starts no run for it, or it has a current run.
abbrev pub Prewarmed : (Text → Outcome Text) → Pool → Text → Type 0
Prewarmed starts p agent =
    (text_eq (trim_space agent) []
      || not (is_ok (starts (trim_space agent)))
      || has_run p (trim_space agent))
    ≡ true

still_cooling :
    (p : Pool) (agent : Text) (now : ℕ) (answer : Outcome Text)
    → is_cooling p now ≡ false
    → is_cooling (rotate_agent p agent now answer).0 now ≡ false
still_cooling p agent now answer h = ground (arith, rotate_agent-cooldown p agent now answer)

prewarm_agents-blank :
    (p : Pool) (agent : Text) (rest : List Text) (now : ℕ) (starts : Text → Outcome Text)
    → text_eq (trim_space agent) [] ≡ true
    → prewarm_agents p rest now starts ≡ prewarm_agents p (agent ∷ rest) now starts
unfolding prewarm_agents
prewarm_agents-blank p agent rest now starts h = rw (h, prewarm_agents) refl

prewarm_agents-named :
    (p : Pool) (agent : Text) (rest : List Text) (now : ℕ) (starts : Text → Outcome Text)
    → text_eq (trim_space agent) [] ≡ false
    → prewarm_agents
        (rotate_agent p (trim_space agent) now (starts (trim_space agent))).0
        rest
        now
        starts
      ≡ prewarm_agents p (agent ∷ rest) now starts
unfolding prewarm_agents
prewarm_agents-named p agent rest now starts h = rw (h, prewarm_agents) refl

prewarm_agents-each :
    (agents : List Text) (p : Pool) (now : ℕ) (starts : Text → Outcome Text)
    → is_cooling p now ≡ false
    → All (Prewarmed starts (prewarm_agents p agents now starts)) agents
prewarm_agents-each [] p now starts h = tt
prewarm_agents-each (agent ∷ rest) p now starts h =
    elim (Bool-cases (text_eq (trim_space agent) [])) [
      | inl blank ↦
          subst (λ q. All (Prewarmed starts q) (agent ∷ rest))
            (prewarm_agents-blank p agent rest now starts blank)
            (ground arith, prewarm_agents-each rest p now starts h)
      | inr named ↦
          subst (λ q. All (Prewarmed starts q) (agent ∷ rest))
            (prewarm_agents-named p agent rest now starts named)
            (
              ground (
                arith,
                prewarm_agents-has_run
                    (rotate_agent p (trim_space agent) now (starts (trim_space agent))).0 rest now
                    starts (trim_space agent),
                rotate_agent-new p (trim_space agent) now (starts (trim_space agent)) h,
              ),
              prewarm_agents-each rest
                  (rotate_agent p (trim_space agent) now (starts (trim_space agent))).0 now starts
                  (still_cooling p (trim_space agent) now (starts (trim_space agent)) h),
            )
    ]

-- If a pool is not cooling down, then after its prewarming it has a current run for each agent that is
-- not blank and for which the upstream starts a run, and it has kept a current run for each agent that
-- had one.
pub prewarm_agents-Prewarmed :
    (p : Pool) (agents : List Text) (now : ℕ) (starts : Text → Outcome Text)
    → is_cooling p now ≡ false
    → All (Prewarmed starts (prewarm_agents p agents now starts)) agents
      × ((k : Text) → (not (has_run p k) || has_run (prewarm_agents p agents now starts) k) ≡ true)
prewarm_agents-Prewarmed p agents now starts h = (
  prewarm_agents-each agents p now starts h,
  λ k. ground (arith, prewarm_agents-has_run p agents now starts k),
)
