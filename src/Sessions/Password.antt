-- ===== src/Sessions/Password.antt =====
-- sessions.go: the password, and a session that has just been created.
use freebuff2api.Base.{
  ℕ, ◌+◌, ◌≤◌, ◌≡◌, ◌≢◌, refl, true, false, ◌&&◌, not, none, [], ◌∷◌, ◌==◌, length, Text, text_eq,
  text_eq_iff, text_eq_refl, lookup, lookup-insert, retain, arith,
}
use freebuff2api.Sessions.{
  SessionManager, enabled, same_bytes, authenticate, is_live, cleanup_locked, create, valid_record,
  valid,
}

same_bytes-text_eq : (s t : Text) → same_bytes s t ≡ text_eq s t
unfolding same_bytes text_eq
same_bytes-text_eq [] [] = refl
same_bytes-text_eq [] (b ∷ t) = refl
same_bytes-text_eq (a ∷ s) [] = refl
same_bytes-text_eq (a ∷ s) (b ∷ t) = ground (arith, same_bytes-text_eq s t)

text_eq-length : (s t : Text) → text_eq s t ≡ true → (length s == length t) ≡ true
text_eq-length s t h = ground (arith, text_eq_iff s t)

pub authenticate-text_eq :
    (m : SessionManager) (password : Text)
    → authenticate m password ≡ (not (text_eq m.password []) && text_eq m.password password)
unfolding authenticate enabled
authenticate-text_eq m password =
    ground (arith, same_bytes-text_eq m.password password, text_eq-length m.password password)

pub enabled-text_eq : (m : SessionManager) → enabled m ≡ not (text_eq m.password [])
unfolding enabled
enabled-text_eq m = refl

-- A session that has been created is valid until its time has passed.
pub valid-create :
    (m : SessionManager) (token : Text) (swept now checked later : ℕ)
    → enabled m ≡ true
    → token ≢ []
    → checked ≤ now + m.ttl
    → (valid (create m token swept now).0 token checked later).1 ≡ true
unfolding create valid valid_record enabled cleanup_locked
valid-create m token swept now checked later on named h = ground (
  arith,
  text_eq_iff token [],
  text_eq_refl token,
  lookup-insert token token (record { id = token; expires_at = now + m.ttl })
      (retain (is_live swept) m.sessions),
)

pub valid-unknown :
    (m : SessionManager) (token : Text) (checked later : ℕ)
    → lookup token m.sessions ≡ none
    → (valid m token checked later).1 ≡ false
unfolding valid valid_record
valid-unknown m token checked later h = ground arith
