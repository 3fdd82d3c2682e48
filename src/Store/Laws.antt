-- ===== src/Store/Laws.antt =====
-- What the store gives back of what was put into it.
use freebuff2api.Base.{
  ℕ, ◌≡◌, inl, inr, refl, sym, ap, ◌∙◌, none, some, List, arith, if◌then◌else◌, Text, text_eq,
  text_eq_iff, trim_space, Option-cases,
}
use freebuff2api.Errors.{Outcome, ok}
use freebuff2api.Store.{
  AccountRecord, Row, AccountInput, AccountUpdateInput, normalize_status, validate_record,
  normalize_input, columns_of, find_row, status_unknown, input_record,
}
use freebuff2api.Store.Rows.{
  scan_account, get, insert_record, create_normal, create_account, with_token, with_input, written,
  write_record, update_checked, update_got, update_account,
}
use freebuff2api.Store.Find.{
  Outcome-cases, find_row-update_rows, find_row-append, find_row-id, normalize_status_idem,
}

-- What `Create` stores of the input's record.
abbrev created : AccountRecord → Text → ℕ → AccountRecord
created n id now = record n {
  id = id;
  created_at = now;
  updated_at = now;
  last_status = status_unknown;
  last_checked_at = 0;
}

abbrev row_of : Text → AccountRecord → Row
row_of sealed r = record { sealed = sealed; columns = columns_of r }

normalize_status-unknown : normalize_status status_unknown ≡ status_unknown
unfolding normalize_status trim_space text_eq
normalize_status-unknown = refl

module _ (decrypt encrypt : Text → Outcome Text)
    (opens : (t c : Text) → encrypt t ≡ ok c → decrypt c ≡ ok t) where
  scan_account-row_of :
      (r : AccountRecord) (c : Text)
      → encrypt r.token ≡ ok c
      → normalize_status r.last_status ≡ r.last_status
      → scan_account decrypt (row_of c r) ≡ ok r
  unfolding scan_account
  scan_account-row_of r c e s = rw (opens r.token c e, s) refl

  get-insert_record :
      (table : List Row) (r : AccountRecord) (s : AccountRecord) (k : Text)
      → normalize_status r.last_status ≡ r.last_status
      → (insert_record table r (encrypt r.token)).1 ≡ ok s
      → (s ≡ r)
        × (get decrypt (insert_record table r (encrypt r.token)).0 k
            ≡ (if text_eq r.id (trim_space k) then ok r else get decrypt table k))
  unfolding insert_record get
  get-insert_record table r s k n h = elim (Outcome-cases (encrypt r.token)) [
    | inl (e, f) ↦ absurd (ground arith)
    | inr (c, f) ↦ elim (Option-cases (find_row r.id table)) [
      | inr (found, g) ↦ absurd (ground arith)
      | inl g ↦ (
        ground arith,
        ground (
          arith,
          find_row-append (trim_space k) table (row_of c r),
          scan_account-row_of r c f n,
          text_eq_iff r.id (trim_space k),
        ),
      )
    ]
  ]

  normalize_input-checked :
      (input : AccountInput) (n : AccountRecord)
      → normalize_input input ≡ ok n
      → validate_record n ≡ none
  unfolding normalize_input
  normalize_input-checked input n h = elim (Option-cases (validate_record (input_record input))) [
    | inl e ↦ ground arith
    | inr (e, f) ↦ absurd (ground arith)
  ]

  validate_record-created :
      (n : AccountRecord) (id : Text) (now : ℕ)
      → validate_record (created n id now) ≡ validate_record n
  unfolding validate_record
  validate_record-created n id now = refl

  create_account-normal :
      (table : List Row) (input : AccountInput) (id : Text) (now : ℕ) (n : AccountRecord)
      → normalize_input input ≡ ok n
      → create_account table input encrypt id now
        ≡ insert_record table (created n id now) (encrypt n.token)
  unfolding create_account create_normal
  create_account-normal table input id now n f = rw (f, create_account) refl

  -- If what the cipher encrypts it decrypts again, then after a `Create` that succeeds, `Get` finds the
  -- record that it returned under the record's identifier, which is the new one, and under all others
  -- what it found before. The record passes the validation.
  pub get-create_account :
      (table : List Row) (input : AccountInput) (id k : Text) (now : ℕ) (r : AccountRecord)
      → (create_account table input encrypt id now).1 ≡ ok r
      → (r.id ≡ id)
        × (validate_record r ≡ none)
        × (get decrypt (create_account table input encrypt id now).0 k
            ≡ (if text_eq id (trim_space k) then ok r else get decrypt table k))
  unfolding create_account create_normal
  get-create_account table input id k now r h = elim (Outcome-cases (normalize_input input)) [
    | inl (e, f) ↦ absurd (ground arith)
    | inr (n, f) ↦
        let e = create_account-normal table input id now n f in
        let g =
          get-insert_record table (created n id now) r k normalize_status-unknown
            (sym (ap (λ t. t.1) e) ∙ h) in
        (
          ap (λ s. s.id) g.0,
          ap validate_record g.0
              ∙ validate_record-created n id now
              ∙ normalize_input-checked input n f,
          ap (λ t. get decrypt t.0 k) e
              ∙ g.1
              ∙ ap (λ s. if text_eq id (trim_space k) then ok s else get decrypt table k) (sym g.0),
        )
  ]

  written-row_of :
      (sealed : Text) (r : AccountRecord) (now : ℕ) (row : Row)
      → row.columns.id ≡ r.id
      → r.created_at ≡ row.columns.created_at
      → written sealed r now row ≡ row_of sealed (record r { updated_at = now })
  written-row_of sealed r now row e c = rw (e, sym c) refl

  get-write_record :
      (table : List Row) (r s : AccountRecord) (row : Row) (k : Text) (now : ℕ)
      → find_row r.id table ≡ some row
      → normalize_status r.last_status ≡ r.last_status
      → r.created_at ≡ row.columns.created_at
      → (write_record table r now (encrypt r.token)).1 ≡ ok s
      → (s ≡ record r { updated_at = now })
        × (get decrypt (write_record table r now (encrypt r.token)).0 k
            ≡ (if text_eq r.id (trim_space k) then ok s else get decrypt table k))
  unfolding write_record get
  get-write_record table r s row k now f n c h = elim (Outcome-cases (encrypt r.token)) [
    | inl (e, g) ↦ absurd (ground arith)
    | inr (sealed, g) ↦ (
      ground arith,
      ground (
        arith,
        find_row-update_rows r.id (trim_space k) (written sealed r now) table (λ q. refl),
        written-row_of sealed r now row (find_row-id r.id table row f) c,
        scan_account-row_of (record r { updated_at = now }) sealed g n,
        text_eq_iff r.id (trim_space k),
      ),
    )
  ]

  -- What `Get` returns is a row's record, with a known status.
  record Found (table : List Row) (id : Text) (r : AccountRecord) : Type 0 where
    row : Row
    at : find_row (trim_space id) table ≡ some row
    same_id : r.id ≡ row.columns.id
    same_time : r.created_at ≡ row.columns.created_at
    known : normalize_status r.last_status ≡ r.last_status

  get-Found :
      (table : List Row) (id : Text) (r : AccountRecord)
      → get decrypt table id ≡ ok r
      → Found table id r
  unfolding get scan_account
  get-Found table id r h = elim (Option-cases (find_row (trim_space id) table)) [
    | inl e ↦ absurd (ground arith)
    | inr (row, e) ↦ elim (Outcome-cases (decrypt row.sealed)) [
      | inl (w, f) ↦ absurd (ground arith)
      | inr (t, f) ↦ record {
        row = row;
        at = e;
        same_id = ground arith;
        same_time = ground arith;
        known = ground (arith, normalize_status_idem row.columns.last_status);
      }
    ]
  ]

  with_input-Found :
      (table : List Row) (id : Text) (r : AccountRecord) (input : AccountUpdateInput)
      → Found table id r
      → Found table id (with_input input r)
  unfolding with_input with_token
  with_input-Found table id r input v = record {
    row = v.row;
    at = v.at;
    same_id = ground (arith, v.same_id);
    same_time = ground (arith, v.same_time);
    known = ground (arith, v.known, normalize_status-unknown);
  }

  update_account-checked :
      (table : List Row) (id : Text) (input : AccountUpdateInput) (now : ℕ) (old : AccountRecord)
      → get decrypt table id ≡ ok old
      → validate_record (with_input input old) ≡ none
      → update_account decrypt table id input encrypt now
        ≡ write_record table (with_input input old) now (encrypt (with_input input old).token)
  unfolding update_account update_got update_checked
  update_account-checked table id input now old f g = rw (f, update_account, g) refl

  validate_record-updated :
      (r : AccountRecord) (now : ℕ)
      → validate_record (record r { updated_at = now }) ≡ validate_record r
  unfolding validate_record
  validate_record-updated r now = refl

  -- Under the same condition on the cipher, after an `Update` that succeeds, `Get` finds the record that
  -- it returned under that account's identifier, and under all others what it found before. The record
  -- is that of the account, with the given fields and the time, and passes the validation.
  pub get-update_account :
      (table : List Row) (id k : Text) (input : AccountUpdateInput) (now : ℕ) (r : AccountRecord)
      → (update_account decrypt table id input encrypt now).1 ≡ ok r
      → (validate_record r ≡ none)
        × ((old : AccountRecord) × (get decrypt table id ≡ ok old)
            × (r ≡ record (with_input input old) { updated_at = now }))
        × (get decrypt (update_account decrypt table id input encrypt now).0 k
            ≡ (if text_eq (trim_space id) (trim_space k) then ok r else get decrypt table k))
  unfolding update_account update_got update_checked
  get-update_account table id k input now r h = elim (Outcome-cases (get decrypt table id)) [
    | inl (e, f) ↦ absurd (ground arith)
    | inr (old, f) ↦ elim (Option-cases (validate_record (with_input input old))) [
      | inr (e, g) ↦ absurd (ground arith)
      | inl g ↦
          let r' = with_input input old in
          let v = with_input-Found table id old input (get-Found table id old f) in
          let e = update_account-checked table id input now old f g in
          let same = v.same_id ∙ find_row-id (trim_space id) table v.row v.at in
          let w =
            get-write_record table r' r v.row k now (ap (λ i. find_row i table) same ∙ v.at) v.known
              v.same_time (sym (ap (λ t. t.1) e) ∙ h) in
          (
            ap validate_record w.0 ∙ validate_record-updated r' now ∙ g,
            (old, f, w.0),
            ap (λ t. get decrypt t.0 k) e
                ∙ w.1
                ∙ ap (λ i. if text_eq i (trim_space k) then ok r else get decrypt table k) same,
          )
    ]
  ]
