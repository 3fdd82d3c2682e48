-- ===== src/Sessions.antt =====
-- sessions.go: the web console's login sessions. A clock reading is an argument, one for each call
-- of `time.Now`, in nanoseconds; so are the random bytes.
pub mod Trace
pub mod Calls
pub mod Password
mod Tests
use freebuff2api.Base.{
  ℕ, ◌+◌, ◌*◌, ◌/◌, ◌%◌, ◌≡◌, Bool, true, false, ◌&&◌, ◌||◌, not, Option, none, some, List, [], ◌∷◌,
  ltb, ◌==◌, if◌then◌else◌, ℤ, is_positive, to_nat, Text, text_eq, lookup, insert, delete, retain,
  length,
}

-- `sessionRecord`
pub record SessionRecord : Type 0 where
  pub id : Text
  pub expires_at : ℕ

pub record SessionManager : Type 0 where
  pub password : Text
  pub ttl : ℕ
  pub sessions : List (Text × SessionRecord)

-- 24 * time.Hour
abbrev pub default_ttl : ℕ
default_ttl = 86400000000000

pub new_session_manager : Text → ℤ → SessionManager
new_session_manager password ttl = record {
  password = password;
  ttl = if is_positive ttl then to_nat ttl else default_ttl;
  sessions = [];
}

pub enabled : SessionManager → Bool
enabled m = not (text_eq m.password [])

-- `subtle.ConstantTimeCompare`: the bytes are compared, each of them, whatever the earlier gave.
same_bytes : Text → Text → Bool
same_bytes [] [] = true
same_bytes [] (b ∷ t) = false
same_bytes (a ∷ s) [] = false
same_bytes (a ∷ s) (b ∷ t) = let rest = same_bytes s t in (a == b) && rest

pub authenticate : SessionManager → Text → Bool
authenticate m password =
    if not (enabled m)
    then false
    else if not (length m.password == length password)
    then false
    else same_bytes m.password password

-- Two hexadecimal digits for each byte.
hex_digit : ℕ → ℕ
hex_digit n = if ltb n 10 then 48 + n else 87 + n

pub hex_encode : Text → Text
unfolding hex_digit
hex_encode [] = []
hex_encode (b ∷ r) = hex_digit (b / 16) ∷ hex_digit (b % 16) ∷ hex_encode r

-- `none` is a failure of the random source; the fallback is the formatted time.
pub random_session_id : Option Text → Text → Text
random_session_id (some bytes) stamp = hex_encode bytes
random_session_id none stamp = hex_encode stamp

-- `!now.After(record.ExpiresAt)`
pub is_live : ℕ → SessionRecord → Bool
is_live now r = not (ltb r.expires_at now)

pub cleanup_locked : SessionManager → ℕ → SessionManager
cleanup_locked m now = record m { sessions = retain (is_live now) m.sessions }

-- `token` is what `randomSessionID` returns, `swept` and `now` the two clock readings.
pub create : SessionManager → Text → ℕ → ℕ → SessionManager × Text
create m token swept now =
    if not (enabled m)
    then (m, [])
    else let m' = cleanup_locked m swept in
      (
        record m' {
          sessions = insert token (record { id = token; expires_at = now + m.ttl }) m'.sessions;
        },
        token,
      )

-- `checked` and `now` are the two clock readings.
valid_record : SessionManager → Text → ℕ → ℕ → Option SessionRecord → SessionManager × Bool
valid_record m token checked now none = (m, false)
valid_record m token checked now (some r) =
    if ltb r.expires_at checked then (record m { sessions = delete token m.sessions }, false) else (
      record m { sessions = insert token (record r { expires_at = now + m.ttl }) m.sessions },
      true,
    )

pub valid : SessionManager → Text → ℕ → ℕ → SessionManager × Bool
valid m token checked now =
    if not (enabled m) || text_eq token []
    then (m, false)
    else valid_record m token checked now (lookup token m.sessions)

pub destroy : SessionManager → Text → SessionManager
destroy m token =
    if not (enabled m) || text_eq token []
    then m
    else record m { sessions = delete token m.sessions }
