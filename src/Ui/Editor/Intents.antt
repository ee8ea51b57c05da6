-- ===== src/Ui/Editor/Intents.antt =====
-- What an intent of src/ui/editor.rs to execute is sure of.
use dbotter.Prelude.{
  ℕ, ◌*◌, ◌≡◌, ◌≤◌, refl, sym, ap, Option, List, arith, Result, ok, err, >>=-eq-ok, subst,
}
use dbotter.Text.{Text}
use dbotter.Model.{DriverKind}
use dbotter.Execution.{
  ExecutionLanguage, ValidatedExecutionTarget, ExecutionTargetError, source_text,
}
use dbotter.Execution.Classify.{classify_execution_kind}
use dbotter.Execution.Target.{CharacterRange, extract_and_validate_target}
use dbotter.Execution.Target.Guards.{extract-mysql_text, extract-redis, extract-limits}
use dbotter.Ui.Model.{ProfileSnapshot, ProfileWorkspace}
use dbotter.Ui.Editor.{
  QueryLanguage, sql, redis_command, mongo_document, EditorCursor, EditorExecuteIntent,
  languages_of, map_target_error, parse_row_limit, parse_timeout, build_execute_intent,
  classify_execute_operation,
}

map_target_error-ok {ℓ} :
    {A : Type ℓ} (r : Result ExecutionTargetError A) (a : A) → map_target_error r ≡ ok a → r ≡ ok a
map_target_error-ok (ok b) a h = ground arith
map_target_error-ok (err e) a h = cc

module _ (split : Text → Option (List Text)) (profile : ProfileSnapshot)
    (workspace : ProfileWorkspace) (cursor : EditorCursor) where
  -- What `build_execute_intent` has on its way to an intent.
  record Built (i : EditorExecuteIntent) : Type 0 where
    rows : ℕ
    seconds : ℕ
    execution : ExecutionLanguage
    query : QueryLanguage
    driver : languages_of profile.driver ≡ ok (execution, query)
    validated : ValidatedExecutionTarget
    extracted :
        extract_and_validate_target split workspace.editor_text cursor.caret_character_index
          cursor.selection_character_range execution rows seconds
        ≡ ok validated
    intent : i ≡ record {
      profile_id = profile.id;
      profile_generation = profile.generation;
      language = query;
      text = source_text validated;
      row_limit = rows;
      timeout_ms = seconds * 1000;
      operation_kind = classify_execution_kind execution validated.target;
    }

  build-Built :
      (i : EditorExecuteIntent)
      → build_execute_intent split profile workspace cursor ≡ ok i
      → Built i
  unfolding build_execute_intent
  build-Built i h =
      let (rows, a, h₁) = >>=-eq-ok (parse_row_limit workspace.row_limit) _ h in
      let (seconds, b, h₂) = >>=-eq-ok (parse_timeout workspace.timeout_seconds) _ h₁ in
      let (languages, c, h₃) = >>=-eq-ok (languages_of profile.driver) _ h₂ in
      let (validated, d, h₄) = >>=-eq-ok (map_target_error _) _ h₃ in
      record {
        rows = rows;
        seconds = seconds;
        execution = languages.0;
        query = languages.1;
        driver = c;
        validated = validated;
        extracted = map_target_error-ok _ validated d;
        intent = ap (λ r. elim r [ ok x ↦ x | err e ↦ i ]) (sym h₄);
      }

-- The languages of an intent go together.
abbrev Pairs : ExecutionLanguage → QueryLanguage → Type 0
Pairs ExecutionLanguage.my_sql sql = Unit
Pairs ExecutionLanguage.redis redis_command = Unit
Pairs _ _ = ⊥

languages_of-Pairs :
    (driver : DriverKind) (execution : ExecutionLanguage) (query : QueryLanguage)
    → languages_of driver ≡ ok (execution, query)
    → Pairs execution query
languages_of-Pairs driver execution query h = ground arith

module _ (split : Text → Option (List Text)) where
  classify-agrees :
      (text : Text) (caret : ℕ) (selection : Option CharacterRange) (rows seconds : ℕ)
      (execution : ExecutionLanguage) (query : QueryLanguage) (v : ValidatedExecutionTarget)
      → Pairs execution query
      → extract_and_validate_target split text caret selection execution rows seconds ≡ ok v
      → classify_execute_operation split query (source_text v)
        ≡ classify_execution_kind execution v.target
  unfolding classify_execute_operation
  classify-agrees text caret selection rows seconds ExecutionLanguage.my_sql sql v pairs h =
      ap (classify_execution_kind ExecutionLanguage.my_sql)
        (sym (extract-mysql_text split text caret selection rows seconds v h))
  classify-agrees text caret selection rows seconds ExecutionLanguage.redis redis_command v pairs
        h =
      let (argv, target, words, admissible) =
        extract-redis split text caret selection rows seconds v h in
      rw words (rw target refl)
  classify-agrees text caret selection rows seconds ExecutionLanguage.my_sql redis_command v pairs
        h =
      elim pairs [ ]
  classify-agrees text caret selection rows seconds ExecutionLanguage.my_sql mongo_document v pairs
        h =
      elim pairs [ ]
  classify-agrees text caret selection rows seconds ExecutionLanguage.redis sql v pairs h =
      elim pairs [ ]
  classify-agrees text caret selection rows seconds ExecutionLanguage.redis mongo_document v pairs
        h =
      elim pairs [ ]

-- The kind of operation of an intent is the one that the runtime finds again in the language and the
-- text of the intent.
pub classify_execute_operation-build_execute_intent :
    (split : Text → Option (List Text)) (profile : ProfileSnapshot) (workspace : ProfileWorkspace)
    (cursor : EditorCursor) (i : EditorExecuteIntent)
    → build_execute_intent split profile workspace cursor ≡ ok i
    → classify_execute_operation split i.language i.text ≡ i.operation_kind
classify_execute_operation-build_execute_intent split profile workspace cursor i h =
    let b = build-Built split profile workspace cursor i h in
    let agrees =
      classify-agrees split workspace.editor_text cursor.caret_character_index
        cursor.selection_character_range b.rows b.seconds b.execution b.query b.validated
        (languages_of-Pairs profile.driver b.execution b.query b.driver) b.extracted in
    subst
      (λ intent.
        classify_execute_operation split intent.language intent.text ≡ intent.operation_kind)
      (sym b.intent) agrees

-- An intent is for the profile that is shown, at its generation, and its limits are those that the
-- server is to keep: 1 to 10000 rows, and 1 to 300 seconds in milliseconds.
pub build_execute_intent-limits :
    (split : Text → Option (List Text)) (profile : ProfileSnapshot) (workspace : ProfileWorkspace)
    (cursor : EditorCursor) (i : EditorExecuteIntent)
    → build_execute_intent split profile workspace cursor ≡ ok i
    → (i.profile_id ≡ profile.id)
      × (i.profile_generation ≡ profile.generation)
      × (1 ≤ i.row_limit)
      × (i.row_limit ≤ 10000)
      × (1000 ≤ i.timeout_ms)
      × (i.timeout_ms ≤ 300000)
build_execute_intent-limits split profile workspace cursor i h =
    let b = build-Built split profile workspace cursor i h in
    let (row_low, row_high, low, high) =
      extract-limits split workspace.editor_text cursor.caret_character_index
        cursor.selection_character_range b.execution b.rows b.seconds b.validated b.extracted in
    rw b.intent (refl, refl, row_low, row_high, omega (arith, low), omega (arith, high))
