-- ===== src/Execution.antt =====
-- src/execution.rs: what one press of Execute may send. This file has its types and limits; the
-- children are the MySQL scanner, the choice of one statement, the Redis policy, the read-only
-- classification and the entry point.
use dbotter.Prelude.{ℕ, ◌*◌, List}
use dbotter.Text.{Text}
pub use dbotter.Model.Operations.{OperationKind, execute_read, execute_mutation}
pub mod Scanner
pub mod Mysql
pub mod Redis
pub mod Classify
pub mod Target

abbrev pub max_execute_row_limit : ℕ
max_execute_row_limit = 10000

abbrev pub max_execute_timeout_seconds : ℕ
max_execute_timeout_seconds = 300

abbrev pub max_redis_target_bytes : ℕ
max_redis_target_bytes = 65536

abbrev pub max_redis_tokens : ℕ
max_redis_tokens = 1024

abbrev pub max_redis_token_bytes : ℕ
max_redis_token_bytes = 16 * 1024

pub data ExecutionLanguage : Type 0 where
  my_sql redis : ExecutionLanguage

pub data ExecutionTarget : Type 0 where
  my_sql_text : Text → ExecutionTarget
  redis_argv : List Text → ExecutionTarget

pub data ExecutionTargetError : Type 0 where
  invalid_caret_position invalid_selection_range invalid_row_limit invalid_timeout
        no_current_statement multiple_statements ambiguous_sql_mode unterminated_sql_token
        redis_shell_parse_failed redis_command_denied redis_target_too_large redis_too_many_tokens
        redis_token_too_large :
      ExecutionTargetError

pub record ValidatedExecutionTarget : Type 0 where
  pub target : ExecutionTarget
  pub retained_source : Text
  pub row_limit : ℕ
  pub timeout_seconds : ℕ

-- `source_text` and `into_source_text`: MySQL shares the text of its target.
target_source : ExecutionTarget → Text → Text
target_source (my_sql_text text) retained = text
target_source (redis_argv argv) retained = retained

pub source_text : ValidatedExecutionTarget → Text
unfolding target_source
source_text v = target_source v.target v.retained_source
