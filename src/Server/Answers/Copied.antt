-- ===== src/Server/Answers/Copied.antt =====
-- `copyResponseBody` writes all that it reads, in order.
use freebuff2api.Base.{◌≡◌, refl, ap, ◌∙◌, Option, none, some, List, [], ◌∷◌, ◌++◌, Text}
use freebuff2api.Errors.{Outcome, ok, fail}
use freebuff2api.Server.Answers.{Read, goes_on, at_end, broken, write_then, copy_response_body}

-- All bytes of the chunks, and all that is read.
abbrev pub joined_chunks : List Text → Text
joined_chunks [] = []
joined_chunks (c ∷ rest) = c ++ joined_chunks rest

abbrev pub bytes_of : Read → Text
bytes_of (goes_on bytes) = bytes
bytes_of (at_end bytes) = bytes
bytes_of (broken bytes e) = bytes

-- The body as it would be written: each read of it is written, until the last.
abbrev pub body_of : List Read → Text
body_of [] = []
body_of (goes_on bytes ∷ rest) = bytes ++ body_of rest
body_of (r ∷ rest) = bytes_of r

abbrev pub end_of : List Read → Option (Outcome (Unit {0}))
end_of [] = none
end_of (goes_on bytes ∷ rest) = end_of rest
end_of (at_end bytes ∷ rest) = some (ok tt)
end_of (broken bytes e ∷ rest) = some (fail e)

-- Every write succeeds.
abbrev pub written_well : List Read → List (Read × Outcome (Unit {0}))
written_well [] = []
written_well (r ∷ rest) = (r, ok tt) ∷ written_well rest

append_nil : (s : Text) → s ++ [] ≡ s
append_nil [] = refl
append_nil (a ∷ s) = ap (λ r. a ∷ r) (append_nil s)

write_then-chunks :
    (bytes : Text) (later : List Text × Option (Outcome (Unit {0})))
    → (joined_chunks (write_then bytes (ok tt) later).0 ≡ bytes ++ joined_chunks later.0)
      × ((write_then bytes (ok tt) later).1 ≡ later.1)
unfolding write_then
write_then-chunks [] later = (refl, refl)
write_then-chunks (b ∷ bytes) later = (refl, refl)

-- If every write succeeds, then what copyResponseBody writes is the body, in order, and it returns as
-- the body ends: without an error at its end, with the error of a read that fails.
pub copy_response_body-whole :
    (reads : List Read)
    → (joined_chunks (copy_response_body (written_well reads)).0 ≡ body_of reads)
      × ((copy_response_body (written_well reads)).1 ≡ end_of reads)
unfolding copy_response_body
copy_response_body-whole [] = (refl, refl)
copy_response_body-whole (goes_on bytes ∷ rest) = (
  (write_then-chunks bytes (copy_response_body (written_well rest))).0
      ∙ ap (λ t. bytes ++ t) (copy_response_body-whole rest).0,
  (write_then-chunks bytes (copy_response_body (written_well rest))).1
      ∙ (copy_response_body-whole rest).1,
)
copy_response_body-whole (at_end bytes ∷ rest) = (
  (write_then-chunks bytes ([], some (ok tt))).0 ∙ append_nil bytes,
  (write_then-chunks bytes ([], some (ok tt))).1,
)
copy_response_body-whole (broken bytes e ∷ rest) = (
  (write_then-chunks bytes ([], some (fail e))).0 ∙ append_nil bytes,
  (write_then-chunks bytes ([], some (fail e))).1,
)
