-- ===== src/Ui/Editor.antt =====
-- The pure part of src/ui/editor.rs: from a profile, its workspace and the cursor to the intent to
-- execute. `split` stands for `shell_words::split`.
use dbotter.Prelude.{
  ℕ, zero, suc, ◌+◌, ◌-◌, ◌*◌, ◌^◌, min, Bool, true, false, ◌&&◌, not, Option, none, some, List, [],
  ◌∷◌, length, leb, ltb, ◌==◌, if◌then◌else◌, Result, ok, err, ok_or, ◌>>=◌,
}
use dbotter.Text.{Text, trim}
use dbotter.Model.{DriverKind}
use dbotter.Execution.{
  OperationKind, execute_mutation, ExecutionLanguage, ExecutionTarget, my_sql_text, redis_argv,
  ValidatedExecutionTarget, ExecutionTargetError, max_execute_row_limit,
  max_execute_timeout_seconds, source_text,
}
use dbotter.Execution.Classify.{classify_execution_kind}
use dbotter.Execution.Target.{CharacterRange, extract_and_validate_target}
use dbotter.Ui.Model.{ProfileSnapshot, ProfileWorkspace}
pub mod Intents
pub mod Examples

pub data QueryLanguage : Type 0 where
  sql redis_command mongo_document : QueryLanguage

pub record EditorCursor : Type 0 where
  pub caret_character_index : ℕ
  pub selection_character_range : Option CharacterRange

pub data EditorValidationError : Type 0 where
  row_limit timeout unsupported_driver : EditorValidationError
  target : ExecutionTargetError → EditorValidationError

pub record EditorExecuteIntent : Type 0 where
  pub profile_id : Text
  pub profile_generation : ℕ
  pub language : QueryLanguage
  pub text : Text
  pub row_limit : ℕ
  pub timeout_ms : ℕ
  pub operation_kind : OperationKind

-- `str::parse::<u32>`: one `+` at most, then digits, which do not overflow.
abbrev digits_u32 : ℕ → Text → Option ℕ
digits_u32 value [] = some value
digits_u32 value (c ∷ cs) =
    let next = value * 10 + (c - 48) in
    let rest = digits_u32 next cs in
    if leb 48 c && leb c 57 && ltb next (2 ^ 32) then rest else none

abbrev unsigned_u32 : Text → Option ℕ
unsigned_u32 [] = none
unsigned_u32 (c ∷ cs) = digits_u32 0 (c ∷ cs)

unfoldable pub parse_u32 : Text → Option ℕ
parse_u32 [] = none
parse_u32 (c ∷ cs) = if c == 43 then unsigned_u32 cs else digits_u32 0 (c ∷ cs)

abbrev filter_range : ℕ → Option ℕ → Option ℕ
filter_range most none = none
filter_range most (some n) = if leb 1 n && leb n most then some n else none

unfoldable pub parse_row_limit : Text → Result EditorValidationError ℕ
unfolding parse_u32
parse_row_limit value =
    ok_or (filter_range max_execute_row_limit (parse_u32 (trim value))) row_limit

unfoldable pub parse_timeout : Text → Result EditorValidationError ℕ
unfolding parse_u32
parse_timeout value =
    ok_or (filter_range max_execute_timeout_seconds (parse_u32 (trim value))) timeout

abbrev pub languages_of :
    DriverKind → Result EditorValidationError (ExecutionLanguage × QueryLanguage)
languages_of DriverKind.my_sql = ok (ExecutionLanguage.my_sql, sql)
languages_of DriverKind.redis = ok (ExecutionLanguage.redis, redis_command)
languages_of DriverKind.mongo_db = err unsupported_driver

abbrev pub map_target_error {ℓ} :
    {A : Type ℓ} → Result ExecutionTargetError A → Result EditorValidationError A
map_target_error (ok a) = ok a
map_target_error (err e) = err (target e)

module _ (split : Text → Option (List Text)) where
  unfoldable pub build_execute_intent :
      ProfileSnapshot
      → ProfileWorkspace
      → EditorCursor
      → Result EditorValidationError EditorExecuteIntent
  unfolding parse_row_limit parse_timeout extract_and_validate_target classify_execution_kind
  build_execute_intent profile workspace cursor = do
    rows ← parse_row_limit workspace.row_limit
    seconds ← parse_timeout workspace.timeout_seconds
    languages ← languages_of profile.driver
    validated ← map_target_error (
        extract_and_validate_target split workspace.editor_text cursor.caret_character_index
          cursor.selection_character_range languages.0 rows seconds)
    ok (record {
      profile_id = profile.id;
      profile_generation = profile.generation;
      language = languages.1;
      text = source_text validated;
      row_limit = rows;
      timeout_ms = seconds * 1000;
      operation_kind = classify_execution_kind languages.0 validated.target;
    })

  abbrev classify_words : Option (List Text) → OperationKind
  classify_words none = execute_mutation
  classify_words (some arguments) =
      classify_execution_kind ExecutionLanguage.redis (redis_argv arguments)

  unfoldable pub classify_execute_operation : QueryLanguage → Text → OperationKind
  unfolding classify_execution_kind
  classify_execute_operation sql text =
      classify_execution_kind ExecutionLanguage.my_sql (my_sql_text text)
  classify_execute_operation redis_command text = classify_words (split text)
  classify_execute_operation mongo_document text = execute_mutation

abbrev clamped : ℕ → CharacterRange → CharacterRange
clamped count range = record { start = min range.start count; stop = min range.stop count }

abbrev clamped_selection : ℕ → Option CharacterRange → Option CharacterRange
clamped_selection count none = none
clamped_selection count (some range) =
    if ltb (clamped count range).start (clamped count range).stop
    then some (clamped count range)
    else none

abbrev to_range : Option (ℕ × ℕ) → Option CharacterRange
to_range none = none
to_range (some (a, b)) = some (record { start = a; stop = b })

-- The cursor that a workspace has kept, within its text.
unfoldable pub workspace_cursor : ProfileWorkspace → EditorCursor
workspace_cursor workspace = record {
  caret_character_index = min workspace.caret_character_index (length workspace.editor_text);
  selection_character_range =
      clamped_selection (length workspace.editor_text)
        (to_range workspace.selection_character_range);
}
