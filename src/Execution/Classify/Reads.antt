-- ===== src/Execution/Classify/Reads.antt =====
-- What the read-only classification of src/execution.rs guarantees.
use mathlib.Core.Bool.{false≢true}
use dbotter.Prelude.{
  ◌≡◌, refl, sym, ◌∙◌, inl, inr, Bool, true, false, ◌||◌, ◌&&◌, not, List, [], ◌∷◌, arith,
  Bool-cases,
}
use dbotter.Text.{Text, str_upper, text_eq}
use dbotter.Execution.{my_sql, redis, my_sql_text, redis_argv, execute_mutation}
use dbotter.Execution.Redis.{
  has_bl_prefix, is_stream_read, is_exactly_denied, redis_bytes_are_denied,
}
use dbotter.Text.Equality.{text_eq→≡}
use dbotter.Execution.Redis.Policy.{
  has_bl_prefix-upper, is_stream_read-upper, is_exactly_denied-upper, str_upper_idem,
}
use dbotter.Execution.Classify.{
  is_listed, redis_reads, redis_is_clearly_read_only, classify_execution_kind,
}

-- Whether the policy looks at the command at all.
is_suspect : Text → Bool
is_suspect command = has_bl_prefix command || is_stream_read command || is_exactly_denied command

denied-is_suspect :
    (command : Text) (arguments : List Text)
    → redis_bytes_are_denied (command ∷ arguments) ≡ true
    → is_suspect command ≡ true
unfolding is_suspect redis_bytes_are_denied
denied-is_suspect command arguments h = ground arith

is_suspect-upper : (c : Text) → is_suspect (str_upper c) ≡ is_suspect c
unfolding is_suspect
is_suspect-upper c = rw (has_bl_prefix-upper c, is_stream_read-upper c, is_exactly_denied-upper c)

all_clear : List Text → Bool
all_clear [] = true
all_clear (w ∷ ws) = not (is_suspect w) && all_clear ws

reads_clear : all_clear redis_reads ≡ true
unfolding all_clear is_suspect is_stream_read is_exactly_denied
reads_clear = refl

listed_clear :
    (word : Text) (words : List Text)
    → all_clear words ≡ true
    → is_listed word words ≡ true
    → is_suspect word ≡ false
unfolding all_clear
listed_clear word [] h l = cc
listed_clear word (w ∷ ws) h l = elim (Bool-cases (text_eq word w)) [
  | inl e ↦ rw (text_eq→≡ word w e) (ground arith)
  | inr n ↦ listed_clear word ws (ground arith) (rw n at l)
]

suspect_read :
    (command : Text)
    → is_suspect command ≡ true
    → is_listed (str_upper command) redis_reads ≡ true
    → ⊥
suspect_read command h l =
    let clear = listed_clear (str_upper command) redis_reads reads_clear l in
    false≢true (sym clear ∙ is_suspect-upper command ∙ h)

-- No command that the local policy denies counts as a read, whatever its arguments.
pub denied-not-read :
    (argv : List Text)
    → redis_bytes_are_denied argv ≡ true
    → classify_execution_kind redis (redis_argv argv) ≡ execute_mutation
unfolding classify_execution_kind
denied-not-read [] h = refl
denied-not-read (command ∷ arguments) h =
    elim (Bool-cases (redis_is_clearly_read_only (command ∷ arguments))) [
      | inl read ↦ absurd (suspect_read command (denied-is_suspect command arguments h) read)
      | inr other ↦ rw other
    ]

-- The case of its letters changes nothing in how a MySQL text counts.
pub classify-upper :
    (text : Text)
    → classify_execution_kind my_sql (my_sql_text (str_upper text))
      ≡ classify_execution_kind my_sql (my_sql_text text)
unfolding classify_execution_kind
classify-upper text = rw (str_upper_idem text)
