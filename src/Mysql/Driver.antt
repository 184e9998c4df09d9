-- ===== src/Mysql/Driver.antt =====
-- What internal/storage/mysql uses of `sqlx.DB` and `sqlx.Tx`: a parameter of the storages. A
-- statement is its text, on one line, and the values for its question marks.
use team_tasks.Base.{ℕ, ℤ, String, Bool, true, false, Option, none, some, List, if◌then◌else◌}
use team_tasks.Domain.{Time, Role}
use team_tasks.Domain.Errors.{Error, Result, no_rows, wrapped, sentinel, not_found}
use team_tasks.Action.{⊤, Action}
use team_tasks.Mysql.Rows.{TaskRow, HistoryRow, TeamRow, UserRow, CommentRow}
use team_tasks.Mysql.Analytics.{TeamSummaryRow, TopContributorRow, OrphanTaskRow}

pub data Value : Type 0 where
  bytes : List ℕ → Value
  text : String → Value
  time : Time → Value
  int : ℤ → Value
  null : Value

abbrev pub text_or_null : Option String → Value
text_or_null none = null
text_or_null (some s) = text s

abbrev pub time_or_null : Option Time → Value
time_or_null none = null
time_or_null (some t) = time t

-- What a row is scanned into.
pub data Scan : Type 0 where
  user_rows team_rows task_rows history_rows comment_rows roles counts : Scan
  summary_rows contributor_rows orphan_rows : Scan

abbrev pub Row : Scan → Type 0
Row Scan.user_rows = UserRow
Row Scan.team_rows = TeamRow
Row Scan.task_rows = TaskRow
Row Scan.history_rows = HistoryRow
Row Scan.comment_rows = CommentRow
Row Scan.roles = Role
Row Scan.counts = ℤ
Row Scan.summary_rows = TeamSummaryRow
Row Scan.contributor_rows = TopContributorRow
Row Scan.orphan_rows = OrphanTaskRow

pub record Db (W : Type 0) : Type 0 where
  -- `ExecContext`, with `LastInsertId` of its result
  pub exec : String → List Value → Action W (Result ℕ)
  -- `GetContext` and `SelectContext`
  pub get : (r : Scan) → String → List Value → Action W (Row r)
  pub select : (r : Scan) → String → List Value → Action W (List (Row r))
  -- `BeginTxx`, and the methods of the transaction
  pub begin : Action W ⊤
  pub tx_exec : String → List Value → Action W (Result ℕ)
  pub commit : Action W ⊤
  pub rollback : Action W ⊤

-- `errors.Is(err, sql.ErrNoRows)`
abbrev pub is_no_rows : Error → Bool
is_no_rows no_rows = true
is_no_rows (wrapped label e) = is_no_rows e
is_no_rows _ = false

-- The two returns behind a `GetContext`.
abbrev pub lookup_error : String → Error → Error
lookup_error label e = if is_no_rows e then sentinel not_found else wrapped label e

-- `defer func() { _ = tx.Rollback() }()` before the rest of a function.
unfoldable pub with_deferred : {W A : Type 0} → Action W ⊤ → Action W A → Action W A
with_deferred last m w = let (r, v) = m w in (r, (last v).1)
