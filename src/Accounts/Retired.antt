-- ===== src/Accounts/Retired.antt =====
-- An account that is marked invalid, or deleted, has no pool afterwards.
use freebuff2api.Base.{
  ℕ, ◌≡◌, inl, inr, refl, ap, ◌∙◌, subst, Bool, true, ◌||◌, not, none, List, [], ◌∷◌, arith, All,
  Text, text_eq, trim_space, Bool-cases,
}
use freebuff2api.Errors.{Error, Outcome, ok, fail}
use freebuff2api.Store.{
  AccountRecord, Row, normalize_status, status_invalid, update_rows, delete_rows,
}
use freebuff2api.Store.Rows.{
  row_before, insert_row, sort_rows, scan_account, scan_all, list, delete_account,
  update_validation,
}
use freebuff2api.Store.Find.{Outcome-cases}
use freebuff2api.Manager.Steps.{active_pool, IsKeyed}
use freebuff2api.Manager.Sync.{pool_after}
use freebuff2api.Manager.Synced.{last_wanted, sync_accounts-Synced}
use freebuff2api.Accounts.{
  Accounts, runtime_accounts, refresh_runtime, refreshed, then_refresh, mark_invalid,
  delete_and_refresh,
}

-- The record asks for no pool under the key.
abbrev out_of_use : Text → AccountRecord → Bool
out_of_use k r = not (text_eq r.id k) || not r.enabled || text_eq r.last_status status_invalid

-- The same of a row, whose status is normalised when it is read.
abbrev pub RowUnused : Text → Row → Type 0
RowUnused k row =
    (not (text_eq row.columns.id k)
      || not row.columns.enabled
      || text_eq (normalize_status row.columns.last_status) status_invalid)
    ≡ true

abbrev Unused : Text → AccountRecord → Type 0
Unused k r = out_of_use k r ≡ true

last_wanted-none :
    (k : Text) (rs : List AccountRecord)
    → All (Unused k) rs
    → last_wanted k (runtime_accounts rs) none ≡ none
unfolding runtime_accounts last_wanted
last_wanted-none k [] h = refl
last_wanted-none k (r ∷ rs) h = elim (Bool-cases r.enabled) [
  | inr off ↦ rw (off, runtime_accounts) (last_wanted-none k rs h.1)
  | inl on ↦ elim (Bool-cases (text_eq r.last_status status_invalid)) [
    | inl bad ↦ rw (on, bad, runtime_accounts) (last_wanted-none k rs h.1)
    | inr good ↦ ground (arith, last_wanted-none k rs h.1, h.0)
  ]
]

module _ (created_before : ℕ → ℕ → Bool) where
  insert_row-All :
      (P : Row → Type 0) (row : Row) (rows : List Row)
      → P row
      → All P rows
      → All P (insert_row created_before row rows)
  unfolding insert_row
  insert_row-All P row [] h k = (h, tt)
  insert_row-All P row (q ∷ rest) h k =
      elim (Bool-cases (row_before created_before q.columns row.columns)) [
        | inl earlier ↦ rw earlier (k.0, insert_row-All P row rest h k.1)
        | inr later ↦ rw later (h, k)
      ]

  sort_rows-All :
      (P : Row → Type 0) (rows : List Row) → All P rows → All P (sort_rows created_before rows)
  unfolding sort_rows
  sort_rows-All P [] h = tt
  sort_rows-All P (row ∷ rest) h =
      insert_row-All P row (sort_rows created_before rest) h.0 (sort_rows-All P rest h.1)

module _ (decrypt : Text → Outcome Text) where
  scan_account-Unused :
      (k : Text) (row : Row) (r : AccountRecord)
      → RowUnused k row
      → scan_account decrypt row ≡ ok r
      → Unused k r
  unfolding scan_account
  scan_account-Unused k row r h e = elim (Outcome-cases (decrypt row.sealed)) [
    | inl (w, f) ↦ absurd (ground arith)
    | inr (t, f) ↦ ground arith
  ]

  scan_all-Unused :
      (k : Text) (rows : List Row) (rs : List AccountRecord)
      → All (RowUnused k) rows
      → scan_all decrypt rows ≡ ok rs
      → All (Unused k) rs
  unfolding scan_all
  scan_all-Unused k [] [] h e = tt
  scan_all-Unused k [] (r ∷ rs) h e = absurd (ground arith)
  scan_all-Unused k (row ∷ rest) rs h e = elim (Outcome-cases (scan_account decrypt row)) [
    | inl (w, f) ↦ absurd (ground arith)
    | inr (r, f) ↦ elim (Outcome-cases (scan_all decrypt rest)) [
      | inl (w, g) ↦ absurd (ground arith)
      | inr (later, g) ↦
          subst (All (Unused k)) {x = r ∷ later} (ground arith)
            (scan_account-Unused k row r h.0 f, scan_all-Unused k rest later h.1 g)
    ]
  ]

pub update_rows-Unused :
    (k : Text) (f : Row → Row) (table : List Row)
    → ((row : Row) → text_eq row.columns.id k ≡ true → RowUnused k (f row))
    → All (RowUnused k) (update_rows k f table)
unfolding update_rows
update_rows-Unused k f [] h = tt
update_rows-Unused k f (row ∷ rest) h = elim (Bool-cases (text_eq row.columns.id k)) [
  | inl same ↦ rw (same, update_rows) (h row same, update_rows-Unused k f rest h)
  | inr other ↦ rw (other, update_rows) (ground arith, update_rows-Unused k f rest h)
]

delete_rows-Unused : (k : Text) (table : List Row) → All (RowUnused k) (delete_rows k table)
unfolding delete_rows
delete_rows-Unused k [] = tt
delete_rows-Unused k (row ∷ rest) = elim (Bool-cases (text_eq row.columns.id k)) [
  | inl same ↦ rw (same, delete_rows) (delete_rows-Unused k rest)
  | inr other ↦ rw (other, delete_rows) (ground arith, delete_rows-Unused k rest)
]

pub status_invalid-known :
    text_eq (normalize_status (normalize_status status_invalid)) status_invalid ≡ true
unfolding normalize_status trim_space text_eq
status_invalid-known = refl

module _ (decrypt : Text → Outcome Text) (created_before : ℕ → ℕ → Bool)
    (error_text : Error → Text) where
  refresh_runtime-Unused :
      (s : Accounts) (k : Text)
      → IsKeyed s.runs
      → All (RowUnused k) s.table
      → (refresh_runtime decrypt created_before error_text s).1 ≡ ok tt
      → active_pool (refresh_runtime decrypt created_before error_text s).0.runs k ≡ none
  unfolding refresh_runtime refreshed list
  refresh_runtime-Unused s k v h e =
      elim (Outcome-cases (scan_all decrypt (sort_rows created_before s.table))) [
        | inl (w, f) ↦ absurd (ground arith)
        | inr (rs, f) ↦
            rw (f, refresh_runtime)
              ((sync_accounts-Synced s.runs (runtime_accounts rs) k v).1
                ∙ ap (λ w. pool_after w s.runs.interval (active_pool s.runs k) none)
                    (last_wanted-none k rs (
                      scan_all-Unused decrypt k (sort_rows created_before s.table) rs
                        (sort_rows-All created_before (RowUnused k) s.table h) f)))
      ]

  pub then_refresh-Unused :
      (s : Accounts) (k : Text) (table : List Row) (o : Outcome (Unit {0}))
      → IsKeyed s.runs
      → All (RowUnused k) table
      → (then_refresh decrypt created_before error_text s (table, o)).1 ≡ ok tt
      → active_pool (then_refresh decrypt created_before error_text s (table, o)).0.runs k ≡ none
  unfolding then_refresh
  then_refresh-Unused s k table (fail w) v h e = absurd (ground arith)
  then_refresh-Unused s k table (ok _) v h e =
      refresh_runtime-Unused (record s { table = table }) k v h e

  -- When `MarkInvalid` succeeds, in a manager whose active pools are filed under their accounts, the
  -- account has no active pool.
  pub mark_invalid-unused :
      (s : Accounts) (id why : Text) (checked_at now : ℕ)
      → IsKeyed s.runs
      → (mark_invalid decrypt created_before error_text s id why checked_at now).1 ≡ ok tt
      → active_pool
          (mark_invalid decrypt created_before error_text s id why checked_at now).0.runs
          (trim_space id)
        ≡ none
  unfolding mark_invalid update_validation
  mark_invalid-unused s id why checked_at now v e =
      then_refresh-Unused s (trim_space id) _ _ v
        (update_rows-Unused (trim_space id) _ s.table
          (λ row same. ground (arith, status_invalid-known)))
        e

  -- The same after a `Delete` that succeeds.
  pub delete_and_refresh-unused :
      (s : Accounts) (id : Text)
      → IsKeyed s.runs
      → (delete_and_refresh decrypt created_before error_text s id).1 ≡ ok tt
      → active_pool
          (delete_and_refresh decrypt created_before error_text s id).0.runs
          (trim_space id)
        ≡ none
  unfolding delete_and_refresh delete_account
  delete_and_refresh-unused s id v e =
      then_refresh-Unused s (trim_space id) _ _ v (delete_rows-Unused (trim_space id) s.table) e
