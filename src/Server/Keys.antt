-- ===== src/Server/Keys.antt =====
-- Which requests `requireAPIKey` lets through.
use freebuff2api.Base.{
  ◌≡◌, ◌⊎◌, ◌↔◌, inl, inr, refl, true, false, List, [], ◌∷◌, ◌++◌, arith, Text, text_eq,
  text_eq_iff, trim_space, ==_iff,
}
use freebuff2api.Server.{bearer, authorized, admits}
use freebuff2api.TextSearch.{has_prefix, drop_prefix, trim_prefix, contains_string}

-- A key stands in the list.
abbrev pub Listed : Text → List Text → Type 0
Listed k [] = ⊥
Listed k (v ∷ rest) = (v ≡ k) ⊎ Listed k rest

contains_string_iff :
    (keys : List Text) (k : Text) → (contains_string keys k ≡ true) ↔ Listed k keys
unfolding contains_string
contains_string_iff [] k = (λ h. cc, λ h. absurd h)
contains_string_iff (v ∷ rest) k = (
  λ h. ground (arith, text_eq_iff v k, contains_string_iff rest k),
  λ h. ground (arith, text_eq_iff v k, contains_string_iff rest k),
)

has_prefix-append : (p r : Text) → has_prefix (p ++ r) p ≡ true
unfolding has_prefix
has_prefix-append [] [] = refl
has_prefix-append [] (a ∷ r) = refl
has_prefix-append (b ∷ p) r = ground (arith, has_prefix-append p r)

drop_prefix-append : (p r : Text) → drop_prefix (p ++ r) p ≡ r
unfolding drop_prefix
drop_prefix-append [] [] = refl
drop_prefix-append [] (a ∷ r) = refl
drop_prefix-append (b ∷ p) r = drop_prefix-append p r

append-drop_prefix : (s p : Text) → has_prefix s p ≡ true → s ≡ p ++ drop_prefix s p
unfolding has_prefix drop_prefix
append-drop_prefix [] [] h = refl
append-drop_prefix (a ∷ s) [] h = refl
append-drop_prefix [] (b ∷ p) h = ground arith
append-drop_prefix (a ∷ s) (b ∷ p) h = ground (arith, append-drop_prefix s p, ==_iff a b)

-- A header presents a key: trimmed, it is "Bearer ", and then a text that is the key once trimmed.
abbrev pub Presents : Text → Text → Type 0
Presents header key = (r : Text) × (trim_space header ≡ bearer ++ r) × (trim_space r ≡ key)

authorized-Presents :
    (keys : List Text) (header : Text)
    → authorized keys header ≡ true
    → (key : Text) × Listed key keys × Presents header key
unfolding authorized trim_prefix
authorized-Presents keys header h =
    let a = trim_space header in
    let r = drop_prefix a bearer in
    (
      trim_space r,
      (contains_string_iff keys (trim_space r)).0 (ground arith),
      (r, append-drop_prefix a bearer (ground arith), refl),
    )

Presents-authorized :
    (keys : List Text) (header key : Text)
    → Listed key keys
    → Presents header key
    → authorized keys header ≡ true
unfolding authorized trim_prefix
Presents-authorized keys header key l (r, e, t) =
    rw (e, some_text, has_prefix-append bearer r, drop_prefix-append bearer r, t)
      ((contains_string_iff keys key).1 l)
  where
    some_text : text_eq (bearer ++ r) [] ≡ false
    some_text = unfold text_eq in refl

-- With no keys configured every request is let through; otherwise those whose header is, up to
-- spaces around it and around the key, "Bearer " and one of the keys.
pub admits_iff :
    (keys : List Text) (header : Text)
    → (admits keys header ≡ true)
      ↔ ((keys ≡ []) ⊎ ((key : Text) × Listed key keys × Presents header key))
unfolding admits
admits_iff [] header = (λ h. inl refl, λ h. refl)
admits_iff (key ∷ keys) header = (
  λ h. inr (authorized-Presents (key ∷ keys) header h),
  λ h. elim h [
    | inl e ↦ absurd (ground arith)
    | inr (k, l, p) ↦ Presents-authorized (key ∷ keys) header k l p
  ],
)
