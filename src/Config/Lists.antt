-- ===== src/Config/Lists.antt =====
-- The lists of tokens, keys and agents.
use freebuff2api.Base.{
  ◌≡◌, inl, inr, refl, ◌∙◌, Bool, false, ◌&&◌, ◌||◌, not, List, [], ◌∷◌, arith, Text, text_eq,
  text_eq_iff, text_eq_refl, trim_space, Bool-cases,
}
use freebuff2api.Config.{
  compact_strings, has_seen, dedupe_from, dedupe_strings, compact_from, compact_agent_ids,
}

-- One of the given texts is `k` once trimmed.
abbrev pub is_given : Text → List Text → Bool
is_given k [] = false
is_given k (v ∷ rest) = text_eq (trim_space v) k || is_given k rest

-- No text stands twice.
abbrev pub AllDifferent : List Text → Type 0
AllDifferent [] = Unit
AllDifferent (v ∷ rest) = (has_seen v rest ≡ false) × AllDifferent rest

has_seen-compact_strings :
    (k : Text) (vs : List Text)
    → has_seen k (compact_strings vs) ≡ (not (text_eq k []) && is_given k vs)
unfolding has_seen compact_strings
has_seen-compact_strings k [] = ground arith
has_seen-compact_strings k (v ∷ vs) = ground (
  arith,
  has_seen-compact_strings k vs,
  text_eq_iff (trim_space v) [],
  text_eq_iff (trim_space v) k,
  text_eq_iff k [],
)

has_seen-dedupe_from :
    (k : Text) (seen vs : List Text)
    → has_seen k (dedupe_from seen vs) ≡ (has_seen k vs && not (has_seen k seen))
unfolding has_seen dedupe_from
has_seen-dedupe_from k seen [] = ground arith
has_seen-dedupe_from k seen (v ∷ vs) =
    ground
      (arith, has_seen-dedupe_from k seen vs, has_seen-dedupe_from k (v ∷ seen) vs, text_eq_iff v k)

dedupe_from-AllDifferent : (seen vs : List Text) → AllDifferent (dedupe_from seen vs)
unfolding dedupe_from
dedupe_from-AllDifferent seen [] = tt
dedupe_from-AllDifferent seen (v ∷ vs) = elim (Bool-cases (has_seen v seen)) [
  | inl known ↦ rw known (dedupe_from-AllDifferent seen vs)
  | inr other ↦ rw other (
    has_seen-dedupe_from v (v ∷ seen) vs ∙ unfold has_seen in ground (arith, text_eq_refl v),
    dedupe_from-AllDifferent (v ∷ seen) vs,
  )
]

-- `dedupeStrings` gives each text that one of the given is once trimmed, but for the empty one, and
-- none twice.
pub dedupe_strings-AllDifferent :
    (vs : List Text)
    → AllDifferent (dedupe_strings vs)
      × ((k : Text) → has_seen k (dedupe_strings vs) ≡ (not (text_eq k []) && is_given k vs))
unfolding dedupe_strings
dedupe_strings-AllDifferent vs = (
  dedupe_from-AllDifferent [] (compact_strings vs),
  λ k.
      has_seen-dedupe_from k [] (compact_strings vs)
      ∙ (unfold has_seen in ground (arith, has_seen-compact_strings k vs)),
)

compact_from-dedupe :
    (seen vs : List Text) → compact_from seen vs ≡ dedupe_from seen (compact_strings vs)
unfolding compact_from dedupe_from compact_strings
compact_from-dedupe seen [] = refl
compact_from-dedupe seen (v ∷ vs) =
    ground (arith, compact_from-dedupe seen vs, compact_from-dedupe (trim_space v ∷ seen) vs)

-- The loop of `compactAgentIDs` of the run manager does what `dedupeStrings` does in two.
pub compact_agent_ids-dedupe : (vs : List Text) → compact_agent_ids vs ≡ dedupe_strings vs
unfolding compact_agent_ids dedupe_strings
compact_agent_ids-dedupe vs = compact_from-dedupe [] vs
