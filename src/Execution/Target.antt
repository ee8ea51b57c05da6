-- ===== src/Execution/Target.antt =====
-- `extract_and_validate_target` of src/execution.rs: from the editor's text, caret and selection to
-- one checked statement or command. `split` stands for `shell_words::split`.
use dbotter.Prelude.{
  ℕ, zero, suc, ◌+◌, Bool, true, false, ◌&&◌, List, [], ◌∷◌, ◌++◌, Option, none, some, length, leb,
  ltb, ◌==◌, if◌then◌else◌, reverse, Result, ok, err, ok_or, ensure, ◌>>=◌, ◌>>◌,
}
use dbotter.Text.{Text, str_len, len_utf8, trim, get_range}
use dbotter.Execution.{
  ExecutionLanguage, my_sql, redis, ExecutionTarget, my_sql_text, redis_argv,
  ValidatedExecutionTarget, ExecutionTargetError, invalid_caret_position, invalid_selection_range,
  invalid_row_limit, invalid_timeout, max_execute_row_limit, max_execute_timeout_seconds,
}
use dbotter.Execution.Mysql.{validate_mysql_selection, infer_mysql_target}
use dbotter.Execution.Redis.{validate_single_redis_physical_command, validate_redis_target}
pub mod Guards
pub mod Examples

pub record CharacterRange : Type 0 where
  pub start : ℕ
  pub stop : ℕ

-- `char_indices().nth(index)`.
abbrev pub nth_offset : Text → ℕ → Option ℕ
nth_offset [] i = none
nth_offset (c ∷ cs) zero = some 0
nth_offset (c ∷ cs) (suc i) = elim (nth_offset cs i) [
  | none ↦ none
  | some b ↦ some (len_utf8 c + b)
]

unfoldable pub char_to_byte : Text → ℕ → Option ℕ
char_to_byte text i = if i == length text then some (str_len text) else nth_offset text i

unfoldable pub checked_character_slice : Text → CharacterRange → Result ExecutionTargetError Text
unfolding char_to_byte get_range
checked_character_slice text range = do
  ensure (leb range.start range.stop) invalid_selection_range
  start ← ok_or (char_to_byte text range.start) invalid_selection_range
  stop ← ok_or (char_to_byte text range.stop) invalid_selection_range
  ok_or (get_range text start stop) invalid_selection_range

-- The last line of what stands before the caret: behind its last `\n`.
abbrev pub after_last_newline : Text → Text → Text
after_last_newline line [] = line
after_last_newline line (c ∷ cs) = after_last_newline (if c == 10 then [] else line ++ c ∷ []) cs

abbrev pub until_newline : Text → Text
until_newline [] = []
until_newline (c ∷ cs) = let rest = until_newline cs in if c == 10 then [] else c ∷ rest

-- The slices `text[..caret]` and `text[caret..]` of the source exist, since the caret came from
-- `char_to_byte`.
abbrev pub or_empty : Option Text → Text
or_empty none = []
or_empty (some t) = t

unfoldable pub physical_line_at : Text → ℕ → Text
unfolding get_range
physical_line_at text caret =
    after_last_newline [] (or_empty (get_range text 0 caret))
    ++ until_newline (or_empty (get_range text caret (str_len text)))

-- `selection.map(checked slice).transpose()?.map(str::trim)`.
unfoldable pub selected_text :
    Text → Option CharacterRange → Result ExecutionTargetError (Option Text)
unfolding checked_character_slice
selected_text text none = ok none
selected_text text (some range) = do
  slice ← checked_character_slice text range
  ok (some (trim slice))

module _ (split : Text → Option (List Text)) where
  -- The target with the source that is kept beside it.
  unfoldable pub choose_target :
      ExecutionLanguage
      → Option Text
      → Text
      → ℕ
      → Result ExecutionTargetError (ExecutionTarget × Text)
  unfolding validate_mysql_selection infer_mysql_target validate_single_redis_physical_command
      validate_redis_target physical_line_at
  choose_target my_sql (some selection) text caret = do
    validate_mysql_selection selection
    ok (my_sql_text selection, [])
  choose_target my_sql none text caret = do
    target ← infer_mysql_target text caret
    ok (my_sql_text target, [])
  choose_target redis (some selection) text caret = do
    validate_single_redis_physical_command split selection
    argv ← validate_redis_target split selection
    ok (redis_argv argv, selection)
  choose_target redis none text caret = do
    let line = trim (physical_line_at text caret)
    argv ← validate_redis_target split line
    ok (redis_argv argv, line)

  unfoldable pub extract_and_validate_target :
      Text
      → ℕ
      → Option CharacterRange
      → ExecutionLanguage
      → ℕ
      → ℕ
      → Result ExecutionTargetError ValidatedExecutionTarget
  unfolding choose_target selected_text char_to_byte
  extract_and_validate_target text caret selection language row_limit timeout_seconds = do
    ensure (leb 1 row_limit && leb row_limit max_execute_row_limit) invalid_row_limit
    ensure (leb 1 timeout_seconds && leb timeout_seconds max_execute_timeout_seconds)
        invalid_timeout
    caret_byte ← ok_or (char_to_byte text caret) invalid_caret_position
    selected ← selected_text text selection
    chosen ← choose_target language selected text caret_byte
    ok (record {
      target = chosen.0;
      retained_source = chosen.1;
      row_limit = row_limit;
      timeout_seconds = timeout_seconds;
    })
