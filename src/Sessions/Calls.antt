-- ===== src/Sessions/Calls.antt =====
-- Calls of the session manager, and the specification of its deadlines.
use freebuff2api.Base.{
  ℕ, ◌+◌, ◌≤◌, ◌<◌, ◌≡◌, refl, inl, inr, Bool, false, not, Option, none, some, List, [], ◌∷◌, arith,
  ltb, if◌then◌else◌, Text, text_eq, lookup, insert, delete, Unique, lookup-insert, lookup-delete,
  keep_value, Bool-cases,
}
use freebuff2api.Sessions.{SessionRecord, SessionManager, create, valid, destroy, is_live}

-- A call of the manager, with its two clock readings.
pub data Call : Type 0 where
  creates valids : Text → ℕ → ℕ → Call
  destroys : Text → Call

unfoldable pub step : SessionManager → Call → SessionManager
step m (creates token swept now) = (create m token swept now).0
step m (valids token checked now) = (valid m token checked now).0
step m (destroys token) = destroy m token

unfoldable pub run : SessionManager → List Call → SessionManager
run m [] = m
run m (c ∷ cs) = run (step m c) cs

-- The deadline of each token: set by `Create`, moved by a `Valid` in time, ended by `Destroy`.
abbrev pub Deadlines : Type 0
Deadlines = Text → Option ℕ

-- A deadline that has passed is none.
abbrev pub in_time : ℕ → Option ℕ → Bool
in_time now none = false
in_time now (some e) = not (ltb e now)

unfoldable pub note : ℕ → Deadlines → Call → Deadlines
note ttl d (creates token swept now) k = if text_eq token k then some (now + ttl) else d k
note ttl d (valids token checked now) k =
    if text_eq token []
    then d k
    else if in_time checked (d token)
    then (if text_eq token k then some (now + ttl) else d k)
    else d k
note ttl d (destroys token) k =
    if text_eq token [] then d k else if text_eq token k then none else d k

unfoldable pub notes : ℕ → Deadlines → List Call → Deadlines
notes ttl d [] = d
notes ttl d (c ∷ cs) = notes ttl (note ttl d c) cs

-- The latest clock reading of a call.
abbrev pub clock_after : ℕ → Call → ℕ
clock_after t (creates token swept now) = now
clock_after t (valids token checked now) = now
clock_after t (destroys token) = t

-- The clock does not run backwards, within a call and from one to the next.
abbrev pub InOrder : ℕ → Call → Type 0
InOrder t (creates token swept now) = (t ≤ swept) × (swept ≤ now)
InOrder t (valids token checked now) = (t ≤ checked) × (checked ≤ now)
InOrder t (destroys token) = Unit

abbrev pub Monotone : ℕ → List Call → Type 0
Monotone t [] = Unit
Monotone t (c ∷ cs) = InOrder t c × Monotone (clock_after t c) cs

abbrev pub final_clock : ℕ → List Call → ℕ
final_clock t [] = t
final_clock t (c ∷ cs) = final_clock (clock_after t c) cs

-- A token's stored record agrees with its deadline, or is gone because the deadline has passed.
abbrev pub Agrees : ℕ → Option SessionRecord → Option ℕ → Type 0
Agrees now none none = Unit
Agrees now none (some e) = e < now
Agrees now (some r) none = ⊥
Agrees now (some r) (some e) = r.expires_at ≡ e

pub record Tracks (now : ℕ) (m : SessionManager) (d : Deadlines) : Type 0 where
  pub unique : Unique m.sessions
  pub agrees : (k : Text) → Agrees now (lookup k m.sessions) (d k)

pub Agrees-later :
    (t u : ℕ) (r : Option SessionRecord) (e : Option ℕ) → t ≤ u → Agrees t r e → Agrees u r e
Agrees-later t u none none h a = a
Agrees-later t u none (some e) h a = omega arith
Agrees-later t u (some r) none h a = a
Agrees-later t u (some r) (some e) h a = a

-- What a clean-up leaves of a token agrees too.
pub Agrees-keep :
    (t u : ℕ) (r : Option SessionRecord) (e : Option ℕ)
    → t ≤ u
    → Agrees t r e
    → Agrees u (keep_value (is_live u) r) e
unfolding is_live
Agrees-keep t u none none h a = a
Agrees-keep t u none (some e) h a = omega arith
Agrees-keep t u (some r) none h a = absurd a
Agrees-keep t u (some r) (some e) h a = ground arith

-- An entry written for a token agrees with a deadline noted for it.
pub insert-Agrees :
    (now : ℕ) (token k : Text) (r : SessionRecord) (s : List (Text × SessionRecord)) (e : Option ℕ)
    → Agrees now (lookup k s) e
    → Agrees now (lookup k (insert token r s)) (if text_eq token k then some r.expires_at else e)
insert-Agrees now token k r s e a =
    rw (lookup-insert token k r s)
      (elim (Bool-cases (text_eq token k)) [ inl same ↦ rw same refl | inr other ↦ rw other a ])

pub delete-Agrees :
    (now : ℕ) (token k : Text) (s : List (Text × SessionRecord)) (e : Option ℕ)
    → Agrees now (lookup k s) e
    → Agrees now (lookup k (delete token s)) (if text_eq token k then none else e)
delete-Agrees now token k s e a =
    rw (lookup-delete token k s)
      (elim (Bool-cases (text_eq token k)) [ inl same ↦ rw same tt | inr other ↦ rw other a ])

-- A token that was never stored has no deadline.
pub lookup_nil : (j : Text) (t : ℕ) → Agrees t (lookup j []) none
unfolding lookup
lookup_nil j t = tt
