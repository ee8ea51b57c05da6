-- ===== src/Execution/Redis.antt =====
-- The Redis side of src/execution.rs: the commands that are never sent, and the checks on a typed
-- command. `split` stands for `shell_words::split`, which is not part of the program.
use Prim.Native.String.{String}
use dbotter.Prelude.{
  ℕ, zero, suc, ◌+◌, Bool, true, false, ◌||◌, List, [], ◌∷◌, Option, none, some, length, take, any,
  is_empty, ltb, ◌==◌, if◌then◌else◌, map, Result, ok, err, ensure, ok_or, ◌>>=◌, ◌>>◌,
}
use dbotter.Text.{Text, codes, str_len, text_eq, eq_ignore_ascii_case, trim_end_by, split_on}
use dbotter.Execution.{
  ExecutionTargetError, no_current_statement, multiple_statements, redis_shell_parse_failed,
  redis_command_denied, redis_target_too_large, redis_too_many_tokens, redis_token_too_large,
  max_redis_target_bytes, max_redis_tokens, max_redis_token_bytes,
}
pub mod Policy
pub mod Checks
pub mod Examples

abbrev pub exact_deny : List Text
exact_deny =
    codes "SUBSCRIBE"
    ∷ codes "PSUBSCRIBE"
    ∷ codes "SSUBSCRIBE"
    ∷ codes "UNSUBSCRIBE"
    ∷ codes "PUNSUBSCRIBE"
    ∷ codes "SUNSUBSCRIBE"
    ∷ codes "MONITOR"
    ∷ codes "SYNC"
    ∷ codes "PSYNC"
    ∷ codes "REPLCONF"
    ∷ codes "WAIT"
    ∷ codes "WAITAOF"
    ∷ codes "BRPOP"
    ∷ codes "BRPOPLPUSH"
    ∷ codes "BZPOPMIN"
    ∷ codes "BZPOPMAX"
    ∷ codes "BZMPOP"
    ∷ []

-- The arguments behind the command, up to the first STREAMS or BLOCK.
unfoldable pub block_in : List Text → Bool
block_in [] = false
block_in (argument ∷ rest) =
    let later = block_in rest in
    if eq_ignore_ascii_case argument (codes "STREAMS")
    then false
    else if eq_ignore_ascii_case argument (codes "BLOCK")
    then true
    else later

unfoldable pub block_precedes_streams : List Text → Bool
unfolding block_in
block_precedes_streams [] = false
block_precedes_streams (command ∷ arguments) = block_in arguments

-- `command.get(..2)` is missing for a shorter command.
abbrev pub has_bl_prefix : Text → Bool
has_bl_prefix (a ∷ b ∷ rest) = eq_ignore_ascii_case (a ∷ b ∷ []) (codes "BL")
has_bl_prefix _ = false

unfoldable pub is_stream_read : Text → Bool
is_stream_read command =
    eq_ignore_ascii_case command (codes "XREAD")
    || eq_ignore_ascii_case command (codes "XREADGROUP")

unfoldable pub is_exactly_denied : Text → Bool
is_exactly_denied command = any (λ denied. eq_ignore_ascii_case command denied) exact_deny

unfoldable pub redis_bytes_are_denied : List Text → Bool
unfolding block_precedes_streams
redis_bytes_are_denied [] = false
redis_bytes_are_denied (command ∷ arguments) =
    if has_bl_prefix command
    then true
    else if is_stream_read command
    then block_precedes_streams (command ∷ arguments)
    else is_exactly_denied command

-- `redis_command_is_denied` and `redis_argv_is_denied` pass their bytes on.
abbrev pub redis_command_is_denied : List Text → Bool
redis_command_is_denied argv = redis_bytes_are_denied argv

unfoldable pub validate_redis_argv : List Text → Result ExecutionTargetError (List Text)
unfolding redis_bytes_are_denied
validate_redis_argv [] = err no_current_statement
validate_redis_argv (command ∷ arguments) =
    let argv = command ∷ arguments in
    if is_empty command
    then err redis_shell_parse_failed
    else if ltb max_redis_tokens (length argv)
    then err redis_too_many_tokens
    else if any (λ token. ltb max_redis_token_bytes (str_len token)) argv
    then err redis_token_too_large
    else if redis_command_is_denied argv
    then err redis_command_denied
    else ok argv

module _ (split : Text → Option (List Text)) where
  -- The loop of `validate_single_redis_physical_command`, with its count of command lines.
  unfoldable pub count_command_lines : List Text → ℕ → Result ExecutionTargetError (Unit {0})
  count_command_lines [] commands = ok tt
  count_command_lines (line ∷ lines) commands = elim (split (trim_end_by (λ c. c == 13) line)) [
    | none ↦ err redis_shell_parse_failed
    | some argv ↦ elim (is_empty argv) [
      | true ↦ count_command_lines lines commands
      | false ↦ elim (ltb 1 (commands + 1)) [
        | true ↦ err multiple_statements
        | false ↦ count_command_lines lines (commands + 1)
      ]
    ]
  ]

  unfoldable pub validate_single_redis_physical_command :
      Text → Result ExecutionTargetError (Unit {0})
  unfolding count_command_lines
  validate_single_redis_physical_command selection =
      if is_empty selection
      then err no_current_statement
      else if ltb max_redis_target_bytes (str_len selection)
      then err redis_target_too_large
      else count_command_lines (split_on 10 selection) 0

  unfoldable pub validate_redis_target : Text → Result ExecutionTargetError (List Text)
  unfolding validate_redis_argv
  validate_redis_target target =
      if ltb max_redis_target_bytes (str_len target)
      then err redis_target_too_large
      else elim (split target) [
        | none ↦ err redis_shell_parse_failed
        | some argv ↦ validate_redis_argv argv
      ]
