-- ===== src/Store/Stats.antt =====
-- account_store.go, the counters: of all requests in `request_stats`, and of each account in its row.
use freebuff2api.Base.{ℕ, ◌+◌, List, Text, trim_space}
use freebuff2api.Errors.{Outcome}
use freebuff2api.Store.{Row, update_rows}
use freebuff2api.Store.Rows.{affected}

-- `RequestStats`, less the success rate, which `Stats` computes of the others.
pub record RequestStats : Type 0 where
  pub total_requests : ℕ
  pub success_requests : ℕ
  pub failed_requests : ℕ
  pub updated_at : ℕ

-- `RecordGlobalRequestStart`, `RecordGlobalRequestSuccess`, `RecordGlobalRequestFailure`
unfoldable pub record_start : RequestStats → ℕ → RequestStats
record_start s now = record s { total_requests = s.total_requests + 1; updated_at = now }

unfoldable pub record_success : RequestStats → ℕ → RequestStats
record_success s now = record s { success_requests = s.success_requests + 1; updated_at = now }

unfoldable pub record_failure : RequestStats → ℕ → RequestStats
record_failure s now = record s { failed_requests = s.failed_requests + 1; updated_at = now }

-- `RecordAccountRequestStart`, `RecordAccountRequestSuccess`, `RecordAccountRequestFailure`; the first
-- reads the clock twice.
unfoldable pub record_account_start : List Row → Text → ℕ → ℕ → List Row × Outcome (Unit {0})
record_account_start table id used now = (
  update_rows (trim_space id)
      (λ row. record row {
        columns = record (row.columns) {
          total_requests = row.columns.total_requests + 1;
          last_used_at = used;
          updated_at = now;
        };
      })
      table,
  affected id table,
)

unfoldable pub record_account_success : List Row → Text → ℕ → List Row × Outcome (Unit {0})
record_account_success table id now = (
  update_rows (trim_space id)
      (λ row. record row {
        columns = record (row.columns) {
          success_requests = row.columns.success_requests + 1;
          last_success_at = now;
          updated_at = now;
        };
      })
      table,
  affected id table,
)

unfoldable pub record_account_failure : List Row → Text → ℕ → List Row × Outcome (Unit {0})
record_account_failure table id now = (
  update_rows (trim_space id)
      (λ row. record row {
        columns = record (row.columns) {
          failed_requests = row.columns.failed_requests + 1;
          last_failure_at = now;
          updated_at = now;
        };
      })
      table,
  affected id table,
)
