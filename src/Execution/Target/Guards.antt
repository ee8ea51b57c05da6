-- ===== src/Execution/Target/Guards.antt =====
-- What src/execution.rs has checked when it lets a target out, and which error it gives otherwise.
use dbotter.Prelude.{
  ℕ, ◌≤◌, ◌≡◌, refl, ◌∙◌, ◌&&◌, List, Option, none, some, arith, leb, Result, ok, ensure, ok_or,
  >>=-eq-ok, ensure-true, ok_or-some,
}
use dbotter.Text.{Text, trim}
use dbotter.Execution.{
  ExecutionLanguage, my_sql, redis, ExecutionTarget, my_sql_text, redis_argv,
  ValidatedExecutionTarget, source_text, target_source, ExecutionTargetError, invalid_row_limit,
  invalid_timeout, invalid_caret_position, max_execute_row_limit, max_execute_timeout_seconds,
}
use dbotter.Execution.Mysql.{validate_mysql_selection, infer_mysql_target}
use dbotter.Execution.Redis.{validate_single_redis_physical_command, validate_redis_target}
use dbotter.Execution.Redis.Checks.{IsAdmissible, validate_redis_target-IsAdmissible}
use dbotter.Execution.Target.{
  CharacterRange, char_to_byte, selected_text, physical_line_at, choose_target,
  extract_and_validate_target,
}

built :
    (chosen : ExecutionTarget × Text) (row_limit timeout : ℕ) (v : ValidatedExecutionTarget)
    → ◌≡◌ {A = Result ExecutionTargetError ValidatedExecutionTarget}
        (ok (record {
          target = chosen.0;
          retained_source = chosen.1;
          row_limit = row_limit;
          timeout_seconds = timeout;
        }))
        (ok v)
    → (◌≡◌ {A = Result ExecutionTargetError (ExecutionTarget × Text)}
        (ok chosen)
        (ok (v.target, v.retained_source)))
      × (v.row_limit ≡ row_limit)
      × (v.timeout_seconds ≡ timeout)
built chosen row_limit timeout v h = ground arith

module _ (split : Text → Option (List Text)) where
  -- The parts of a successful extraction.
  record Extracted (text : Text) (caret : ℕ) (selection : Option CharacterRange)
      (language : ExecutionLanguage) (row_limit timeout : ℕ) (v : ValidatedExecutionTarget)
      : Type 0 where
    caret_byte : ℕ
    caret_found : char_to_byte text caret ≡ some caret_byte
    selected : Option Text
    selected_found : selected_text text selection ≡ ok selected
    chosen :
        choose_target split language selected text caret_byte ≡ ok (v.target, v.retained_source)
    rows : (1 ≤ row_limit) × (row_limit ≤ max_execute_row_limit)
    seconds : (1 ≤ timeout) × (timeout ≤ max_execute_timeout_seconds)
    rows_kept : v.row_limit ≡ row_limit
    seconds_kept : v.timeout_seconds ≡ timeout

  extract-Extracted :
      (text : Text) (caret : ℕ) (selection : Option CharacterRange) (language : ExecutionLanguage)
      (row_limit timeout : ℕ) (v : ValidatedExecutionTarget)
      → extract_and_validate_target split text caret selection language row_limit timeout ≡ ok v
      → Extracted text caret selection language row_limit timeout v
  unfolding extract_and_validate_target
  extract-Extracted text caret selection language row_limit timeout v h =
      let (_, rows, h₁) =
        >>=-eq-ok
          (ensure (leb 1 row_limit && leb row_limit max_execute_row_limit) invalid_row_limit) _ h in
      let (_, seconds, h₂) =
        >>=-eq-ok
          (ensure (leb 1 timeout && leb timeout max_execute_timeout_seconds) invalid_timeout) _
          h₁ in
      let (caret_byte, caret_found, h₃) =
        >>=-eq-ok (ok_or (char_to_byte text caret) invalid_caret_position) _ h₂ in
      let (selected, selected_found, h₄) = >>=-eq-ok (selected_text text selection) _ h₃ in
      let (chosen, e, h₅) =
        >>=-eq-ok (choose_target split language selected text caret_byte) _ h₄ in
      let (same, rows_kept, seconds_kept) = built chosen row_limit timeout v h₅ in
      let in_rows = ensure-true _ invalid_row_limit rows in
      let in_seconds = ensure-true _ invalid_timeout seconds in
      record {
        caret_byte = caret_byte;
        caret_found = ok_or-some _ invalid_caret_position caret_found;
        selected = selected;
        selected_found = selected_found;
        chosen = e ∙ same;
        rows = ground (arith, in_rows);
        seconds = ground (arith, in_seconds);
        rows_kept = rows_kept;
        seconds_kept = seconds_kept;
      }

  choose-redis :
      (selected : Option Text) (text : Text) (caret : ℕ) (t : ExecutionTarget) (kept : Text)
      → choose_target split redis selected text caret ≡ ok (t, kept)
      → (argv : List Text) × (t ≡ redis_argv argv)
        × (split (target_source t kept) ≡ some argv)
        × IsAdmissible argv
  unfolding choose_target target_source
  choose-redis none text caret t kept h =
      let line = trim (physical_line_at text caret) in
      let (argv, e, h') = >>=-eq-ok (validate_redis_target split line) _ h in
      let (_, words, a) = validate_redis_target-IsAdmissible split line argv e in
      let same : redis_argv argv ≡ t = ground arith in
      let source : line ≡ kept = ground arith in rw (← same, ← source) (argv, refl, words, a)
  choose-redis (some selection) text caret t kept h =
      let (_, single, h₁) =
        >>=-eq-ok (validate_single_redis_physical_command split selection) _ h in
      let (argv, e, h') = >>=-eq-ok (validate_redis_target split selection) _ h₁ in
      let (_, words, a) = validate_redis_target-IsAdmissible split selection argv e in
      let same : redis_argv argv ≡ t = ground arith in
      let source : selection ≡ kept = ground arith in rw (← same, ← source) (argv, refl, words, a)

  -- An accepted Redis command, at the caret or selected: its words are what `split` finds in the
  -- source that is kept, and they are within the limits and not denied.
  pub extract-redis :
      (text : Text) (caret : ℕ) (selection : Option CharacterRange) (row_limit timeout : ℕ)
      (v : ValidatedExecutionTarget)
      → extract_and_validate_target split text caret selection redis row_limit timeout ≡ ok v
      → (argv : List Text) × (v.target ≡ redis_argv argv)
        × (split (source_text v) ≡ some argv)
        × IsAdmissible argv
  unfolding source_text
  extract-redis text caret selection row_limit timeout v h =
      let x = extract-Extracted text caret selection redis row_limit timeout v h in
      choose-redis x.selected text x.caret_byte v.target v.retained_source x.chosen

  choose-mysql_text :
      (selected : Option Text) (text : Text) (caret : ℕ) (t : ExecutionTarget) (kept : Text)
      → choose_target split my_sql selected text caret ≡ ok (t, kept)
      → t ≡ my_sql_text (target_source t kept)
  unfolding choose_target target_source
  choose-mysql_text none text caret t kept h =
      let (target, e, h') = >>=-eq-ok (infer_mysql_target text caret) _ h in
      let same : my_sql_text target ≡ t = ground arith in rw (← same) refl
  choose-mysql_text (some selection) text caret t kept h =
      let (_, one, h') = >>=-eq-ok (validate_mysql_selection selection) _ h in
      let same : my_sql_text selection ≡ t = ground arith in rw (← same) refl

  -- The target of an accepted MySQL text is its source.
  pub extract-mysql_text :
      (text : Text) (caret : ℕ) (selection : Option CharacterRange) (row_limit timeout : ℕ)
      (v : ValidatedExecutionTarget)
      → extract_and_validate_target split text caret selection my_sql row_limit timeout ≡ ok v
      → v.target ≡ my_sql_text (source_text v)
  unfolding source_text
  extract-mysql_text text caret selection row_limit timeout v h =
      let x = extract-Extracted text caret selection my_sql row_limit timeout v h in
      choose-mysql_text x.selected text x.caret_byte v.target v.retained_source x.chosen

  -- An accepted target keeps both limits.
  pub extract-limits :
      (text : Text) (caret : ℕ) (selection : Option CharacterRange) (language : ExecutionLanguage)
      (row_limit timeout : ℕ) (v : ValidatedExecutionTarget)
      → extract_and_validate_target split text caret selection language row_limit timeout ≡ ok v
      → (1 ≤ row_limit)
        × (row_limit ≤ max_execute_row_limit)
        × (1 ≤ timeout)
        × (timeout ≤ max_execute_timeout_seconds)
  extract-limits text caret selection language row_limit timeout v h =
      let x = extract-Extracted text caret selection language row_limit timeout v h in
      (x.rows.0, x.rows.1, x.seconds.0, x.seconds.1)
