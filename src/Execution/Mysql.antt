-- ===== src/Execution/Mysql.antt =====
-- The choice of one MySQL statement in src/execution.rs, for a selection or at the caret.
use dbotter.Prelude.{
  ℕ, zero, suc, ◌≤◌, Bool, true, false, ◌&&◌, ◌||◌, List, [], ◌∷◌, Option, none, some, length, find,
  is_empty, leb, ltb, ◌==◌, if◌then◌else◌, Result, ok, err, ok_or,
}
use dbotter.Text.{Text, str_len, get_range}
use dbotter.Execution.{
  ExecutionTargetError, no_current_statement, unterminated_sql_token, multiple_statements,
  ambiguous_sql_mode, invalid_caret_position,
}
use dbotter.Execution.Scanner.{MysqlStatement, MysqlLexIssue, MysqlScan, scan_mysql}
pub mod Choice
pub mod Examples

-- `match scan.statements.len()`.
unfoldable pub exactly_one : List MysqlStatement → Bool → Result ExecutionTargetError (Unit {0})
exactly_one [] stray = err no_current_statement
exactly_one (s ∷ []) stray = if stray then err multiple_statements else ok tt
exactly_one (s ∷ s' ∷ rest) stray = err multiple_statements

unfoldable pub validate_scan : MysqlScan → Result ExecutionTargetError (Unit {0})
unfolding exactly_one
validate_scan scan = elim scan.issue [
  | some issue ↦ err unterminated_sql_token
  | none ↦ exactly_one scan.statements scan.stray_terminator
]

unfoldable pub validate_mysql_selection : Text → Result ExecutionTargetError (Unit {0})
unfolding validate_scan
validate_mysql_selection selection =
    if is_empty selection then err no_current_statement else validate_scan (scan_mysql selection)

abbrev pub mysql_statement_contains : MysqlStatement → ℕ → ℕ → Bool
mysql_statement_contains statement caret text_len =
    (leb statement.start caret && ltb caret statement.stop)
    || (caret == text_len && statement.stop == text_len && leb statement.start caret)

-- The statement at the caret was found.
unfoldable pub statement_text : Text → MysqlStatement → Result ExecutionTargetError Text
statement_text text statement =
    if statement.is_ambiguous
    then err ambiguous_sql_mode
    else ok_or (get_range text statement.start statement.stop) invalid_caret_position

-- No statement holds the caret.
unfoldable pub no_statement_at : ℕ → Option MysqlLexIssue → Result ExecutionTargetError Text
no_statement_at caret none = err no_current_statement
no_statement_at caret (some issue) =
    if leb issue.statement_start caret
    then if issue.is_ambiguous then err ambiguous_sql_mode else err unterminated_sql_token
    else err no_current_statement

unfoldable pub infer_from_scan : Text → ℕ → MysqlScan → Result ExecutionTargetError Text
unfolding statement_text no_statement_at
infer_from_scan text caret scan =
    elim (find (λ s. mysql_statement_contains s caret (str_len text)) scan.statements) [
      | some statement ↦ statement_text text statement
      | none ↦ no_statement_at caret scan.issue
    ]

unfoldable pub infer_mysql_target : Text → ℕ → Result ExecutionTargetError Text
unfolding infer_from_scan
infer_mysql_target text caret = infer_from_scan text caret (scan_mysql text)
