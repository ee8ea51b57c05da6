-- ===== src/Execution/Redis/Checks.antt =====
-- What a Redis command has passed when src/execution.rs accepts it.
use dbotter.Prelude.{
  ℕ, suc, ◌↔◌, ◌==◌, ◌+◌, ◌≤◌, ◌≡◌, refl, inl, inr, false, List, [], ◌∷◌, Option, none, some, arith,
  All, any, length, is_empty, ltb, ok, Bool-cases, Option-cases,
}
use dbotter.Text.{Text, str_len, trim_end_by, split_on}
use dbotter.Execution.{max_redis_target_bytes, max_redis_tokens, max_redis_token_bytes}
use dbotter.Execution.Redis.{
  redis_bytes_are_denied, validate_redis_argv, validate_redis_target, count_command_lines,
  validate_single_redis_physical_command,
}

-- The bounds and the policy on the words of a command.
pub record IsAdmissible (argv : List Text) : Type 0 where
  pub command : Text
  pub arguments : List Text
  pub words : argv ≡ command ∷ arguments
  pub named : is_empty command ≡ false
  pub token_count : length argv ≤ max_redis_tokens
  pub token_bytes : All (λ token. str_len token ≤ max_redis_token_bytes) argv
  pub allowed : redis_bytes_are_denied argv ≡ false

any-false-All :
    (limit : ℕ) (xs : List Text)
    → any (λ t. ltb limit (str_len t)) xs ≡ false
    → All (λ t. str_len t ≤ limit) xs
any-false-All limit [] h = tt
any-false-All limit (x ∷ xs) h = elim (Bool-cases (ltb limit (str_len x))) [
  | inl long ↦ absurd (ground arith)
  | inr short ↦ (ground arith, any-false-All limit xs (rw short at h))
]

argv-IsAdmissible :
    (argv result : List Text)
    → validate_redis_argv argv ≡ ok result
    → (result ≡ argv) × IsAdmissible argv
unfolding validate_redis_argv
argv-IsAdmissible [] result h = absurd (ground arith)
argv-IsAdmissible (command ∷ arguments) result h =
    elim (Bool-cases
      (any (λ token. ltb max_redis_token_bytes (str_len token)) (command ∷ arguments))) [
        | inl long ↦ absurd (ground arith)
        | inr short ↦ (
          ground arith,
          record {
            command = command;
            arguments = arguments;
            words = refl;
            named = ground arith;
            token_count = ground arith;
            token_bytes = any-false-All max_redis_token_bytes (command ∷ arguments) short;
            allowed = ground arith;
          },
        )
      ]

All-any-false :
    (limit : ℕ) (xs : List Text)
    → All (λ t. str_len t ≤ limit) xs
    → any (λ t. ltb limit (str_len t)) xs ≡ false
All-any-false limit [] h = refl
All-any-false limit (x ∷ xs) h = ground (arith, All-any-false limit xs h.1)

-- A list of words is accepted as it stands exactly when it has a command, keeps the limits on the
-- number and the size of tokens, and is not denied.
pub validate_redis_argv_iff :
    (argv : List Text) → (validate_redis_argv argv ≡ ok argv) ↔ IsAdmissible argv
unfolding validate_redis_argv
validate_redis_argv_iff [] = (λ h. absurd (ground arith), λ a. absurd (ground arith))
validate_redis_argv_iff (command ∷ arguments) = (
  λ h. (argv-IsAdmissible (command ∷ arguments) _ h).1,
  λ a.
      let short = All-any-false max_redis_token_bytes (command ∷ arguments) a.token_bytes in
      ground (arith, short),
)

module _ (split : Text → Option (List Text)) where
  -- An accepted Redis text is within its size limit, and its words are those that `split` finds
  -- and are admissible.
  pub validate_redis_target-IsAdmissible :
      (target : Text) (argv : List Text)
      → validate_redis_target split target ≡ ok argv
      → (str_len target ≤ max_redis_target_bytes) × (split target ≡ some argv) × IsAdmissible argv
  unfolding validate_redis_target
  validate_redis_target-IsAdmissible target argv h =
      let fits : str_len target ≤ max_redis_target_bytes = ground arith in
      elim (Option-cases (split target)) [
        | inl failed ↦ absurd (ground arith)
        | inr (words, e) ↦
            let (same, a) = argv-IsAdmissible words argv (ground arith) in rw same (fits, e, a)
      ]

  -- The lines that hold a command.
  abbrev pub command_count : List Text → ℕ
  command_count [] = 0
  command_count (line ∷ lines) = elim (split (trim_end_by (λ c. c == 13) line)) [
    | none ↦ command_count lines
    | some [] ↦ command_count lines
    | some (word ∷ words) ↦ suc (command_count lines)
  ]

  abbrev pub Splits : Text → Type 0
  Splits line = (words : List Text) × (split (trim_end_by (λ c. c == 13) line) ≡ some words)

  abbrev Counts : List Text → ℕ → Type 0
  Counts lines n =
      count_command_lines split lines n ≡ ok tt → (n + command_count lines ≤ 1) × All Splits lines

  count-words :
      (line : Text) (lines : List Text) (n : ℕ)
      → n ≤ 1
      → (words : List Text) → split (trim_end_by (λ c. c == 13) line) ≡ some words
      → Counts lines n
      → (n + 1 ≤ 1 → Counts lines (n + 1))
      → Counts (line ∷ lines) n
  unfolding count_command_lines
  count-words line lines n b [] e blank next h =
      let (k, all) = blank (rw (e, count_command_lines) at h) in
      (rw (e, command_count) k, (([], e), all))
  count-words line lines n b (w ∷ ws) e blank next h = elim (Bool-cases (ltb 1 (n + 1))) [
    | inl many ↦ absurd (ground arith)
    | inr first ↦
        let (k, all) = next (ground arith) (rw (e, count_command_lines, first) at h) in
        (rw (e, command_count) (omega arith), ((w ∷ ws, e), all))
  ]

  count-ok :
      (lines : List Text) (n : ℕ)
      → n ≤ 1
      → count_command_lines split lines n ≡ ok tt
      → (n + command_count lines ≤ 1) × All Splits lines
  unfolding count_command_lines
  count-ok [] n b h = (omega arith, tt)
  count-ok (line ∷ lines) n b h = elim (Option-cases (split (trim_end_by (λ c. c == 13) line))) [
    | inl failed ↦ absurd (ground arith)
    | inr (words, e) ↦
        count-words line lines n b words e (count-ok lines n b) (count-ok lines (n + 1)) h
  ]

  -- A selection that passes has at most one line with a command on it, and every line of it can be
  -- split into words.
  pub single_command-count :
      (selection : Text)
      → validate_single_redis_physical_command split selection ≡ ok tt
      → (command_count (split_on 10 selection) ≤ 1) × All Splits (split_on 10 selection)
  unfolding validate_single_redis_physical_command
  single_command-count selection h =
      let (k, all) = count-ok (split_on 10 selection) 0 (omega arith) (ground arith) in
      (omega arith, all)
