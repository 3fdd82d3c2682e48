-- ===== src/Config/ClientId.antt =====
-- config.go: `generateClientSessionId`. `read` is what the random source gives, or the formatted time
-- where it fails.
use freebuff2api.Base.{
  ℕ, zero, suc, ◌+◌, ◌%◌, Option, none, some, [], ◌∷◌, if◌then◌else◌, ltb, length, get_elem?, Text,
}

-- `alphabet[d]` for the 36 digits.
abbrev pub base36_digit : ℕ → ℕ
base36_digit d = if ltb d 10 then 48 + d else 87 + d

-- `alphabet[buf[i%len(buf)]%36]`; none is an index out of range.
client_char : Text → ℕ → Option ℕ
client_char buf i = elim (get_elem? buf (i % length buf)) [
  | none ↦ none
  | some b ↦ some (base36_digit (b % 36))
]

-- The characters from `i` on, `left` in number.
client_chars : Text → ℕ → ℕ → Option Text
unfolding client_char
client_chars buf zero i = some []
client_chars buf (suc left) i = elim (client_char buf i) [
  | none ↦ none
  | some c ↦ elim (client_chars buf left (suc i)) [ none ↦ none | some cs ↦ some (c ∷ cs) ]
]

unfoldable pub generate_client_session_id : Text → Option Text
unfolding client_chars
generate_client_session_id buf = client_chars buf 13 0
