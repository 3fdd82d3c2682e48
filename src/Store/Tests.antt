-- ===== src/Store/Tests.antt =====
-- The store at concrete inputs.
use freebuff2api.Base.{
  ℕ, zero, suc, ◌+◌, ◌==◌, ap, ◌≡◌, refl, true, false, none, some, List, [], ◌∷◌, if◌then◌else◌,
  pos, Text, codes, text_eq, trim_space, arith,
}
use freebuff2api.Errors.{Outcome, ok}
use freebuff2api.Store.{
  AccountRecord, Row, AccountInput, AccountUpdateInput, mask_token, normalize_status,
  validate_record, normalize_input, find_row, columns_of,
}
use freebuff2api.Store.Rows.{
  get, scan_account, create_account, create_normal, insert_record, update_account, update_got,
  update_checked, write_record, with_input, with_token,
}
use freebuff2api.Base.Texts.Graphic.{Graphic}
use freebuff2api.Store.Cipher.{encrypt_token, decrypt_token, decrypt-encrypt_token}
use freebuff2api.Store.Laws.{get-create_account, get-update_account}

mask_token_test : mask_token (codes " 123456789 ") ≡ codes "1234...6789"
unfolding mask_token trim_space text_eq
mask_token_test = refl

-- A cipher that puts a byte before the text.
unfoldable pub encrypt : Text → Outcome Text
encrypt t = ok (7 ∷ t)

unfoldable pub decrypt : Text → Outcome Text
decrypt [] = ok []
decrypt (b ∷ t) = ok t

opens : (t c : Text) → encrypt t ≡ ok c → decrypt c ≡ ok t
unfolding encrypt decrypt
opens t [] e = absurd (ground arith)
opens t (b ∷ c) e = ground arith

abbrev input : AccountInput
input = record {
  label = codes " main ";
  token = codes "token";
  enabled = true;
  priority = pos 0;
  weight = pos 2;
}

abbrev pub stored : AccountRecord
stored = record {
  id = codes "acc-1";
  label = codes "main";
  token = codes "token";
  token_preview = codes "*****";
  enabled = true;
  priority = pos 100;
  weight = pos 2;
  last_status = codes "unknown";
  last_error = [];
  last_checked_at = 0;
  total_requests = 0;
  success_requests = 0;
  failed_requests = 0;
  last_used_at = 0;
  last_success_at = 0;
  last_failure_at = 0;
  created_at = 5;
  updated_at = 5;
}

stored_new : (create_account [] input encrypt (codes "acc-1") 5).1 ≡ ok stored
unfolding create_account create_normal normalize_input validate_record insert_record find_row
    mask_token trim_space text_eq encrypt
stored_new = refl

get-create_account_example :
    (stored.id ≡ codes "acc-1")
    × (validate_record stored ≡ none)
    × (get decrypt (create_account [] input encrypt (codes "acc-1") 5).0 (codes " acc-1") ≡ (
        if text_eq (codes "acc-1") (trim_space (codes " acc-1"))
        then ok stored
        else get decrypt [] (codes " acc-1")))
get-create_account_example =
    get-create_account decrypt encrypt opens [] input (codes "acc-1") (codes " acc-1") 5 stored
      stored_new

abbrev pub table : List Row
table = record { sealed = 7 ∷ codes "token"; columns = columns_of stored } ∷ []

abbrev change : AccountUpdateInput
change = record {
  label = none;
  token = none;
  enabled = some false;
  priority = none;
  weight = some (pos 9);
}

abbrev changed : AccountRecord
changed = record stored { enabled = false; weight = pos 9; updated_at = 8 }

updated : (update_account decrypt table (codes "acc-1") change encrypt 8).1 ≡ ok changed
unfolding update_account update_got update_checked write_record with_input with_token get
    scan_account normalize_status validate_record find_row trim_space text_eq encrypt decrypt
updated = refl

get-update_account_example :
    (validate_record changed ≡ none)
    × ((old : AccountRecord) × (get decrypt table (codes "acc-1") ≡ ok old)
        × (changed ≡ record (with_input change old) { updated_at = 8 }))
    × (get decrypt (update_account decrypt table (codes "acc-1") change encrypt 8).0 (codes "acc-1")
        ≡ (if text_eq (trim_space (codes "acc-1")) (trim_space (codes "acc-1"))
            then ok changed
            else get decrypt table (codes "acc-1")))
get-update_account_example =
    get-update_account decrypt encrypt opens table (codes "acc-1") (codes "acc-1") change 8 changed
      updated

-- In place of base64, a code that writes a byte as so many of one letter, and ends it by another; in
-- place of AES-GCM, one that seals nothing.
mark : ℕ → Text → Text
mark zero later = 97 ∷ later
mark (suc a) later = 98 ∷ mark a later

unary : Text → Text
unary [] = []
unary (a ∷ t) = mark a (unary t)

read_marks : ℕ → Text → Text
read_marks n [] = []
read_marks n (a ∷ t) =
    let more = read_marks (suc n) t in
    let next = n ∷ read_marks 0 t in if a == 98 then more else next

read_marks-mark :
    (n a : ℕ) (later : Text) → read_marks n (mark a later) ≡ (n + a) ∷ read_marks 0 later
unfolding read_marks mark
read_marks-mark n zero later = ground arith
read_marks-mark n (suc a) later = ground (arith, read_marks-mark (suc n) a later)

read_marks-unary : (t : Text) → read_marks 0 (unary t) ≡ t
unfolding read_marks unary
read_marks-unary [] = refl
read_marks-unary (a ∷ t) = ground (arith, read_marks-mark 0 a (unary t), read_marks-unary t)

from_unary : Text → Outcome Text
from_unary t = ok (read_marks 0 t)

mark-Graphic : (a : ℕ) (later : Text) → Graphic later → Graphic (mark a later)
unfolding mark
mark-Graphic zero later g = ((omega arith, omega arith), g)
mark-Graphic (suc a) later g = ((omega arith, omega arith), mark-Graphic a later g)

unary-Graphic : (t : Text) → Graphic (unary t)
unfolding unary
unary-Graphic [] = tt
unary-Graphic (a ∷ t) = mark-Graphic a (unary t) (unary-Graphic t)

from_unary-unary : (t : Text) → from_unary (unary t) ≡ ok t
unfolding from_unary
from_unary-unary t = ap (λ s. ok s) (read_marks-unary t)

abbrev sealing : Text → Text → Text
sealing nonce t = t

abbrev unsealing : Text → Text → Outcome Text
unsealing nonce t = ok t

encrypted : encrypt_token unary sealing (ok (1 ∷ [])) (codes "t") ≡ ok (unary (1 ∷ codes "t"))
unfolding encrypt_token
encrypted = refl

decrypt-encrypt_token_example :
    decrypt_token 1 from_unary unsealing (unary (1 ∷ codes "t")) ≡ ok (codes "t")
decrypt-encrypt_token_example =
    decrypt-encrypt_token unary from_unary sealing unsealing (1 ∷ []) (codes "t")
      (unary (1 ∷ codes "t")) from_unary-unary unary-Graphic (λ n t. refl) encrypted
