-- ===== src/Model/Requests/Limits.antt =====
-- What a Redis request of src/model.rs has passed when its `validate` accepts it.
use dbotter.Prelude.{
  ℕ, ◌+◌, ◌≤◌, ◌≡◌, refl, sym, ap, ◌∙◌, inl, inr, false, List, [], ◌∷◌, Option, none, some, arith,
  All, any, length, ltb, Bool-cases, Option-cases, ok, >>=-eq-ok,
}
use dbotter.Execution.Redis.{redis_bytes_are_denied}
use dbotter.Model.Requests.{
  max_result_rows, max_redis_command_bytes, max_redis_command_tokens, max_redis_command_token_bytes,
  seconds, usize_limit, add_argument, command_bytes, validate_execute_limits, validate_argv,
  RedisExecuteRequest, validate_redis,
}

-- The bytes of the words, each with one more for a separator behind it.
pub total_bytes : List (List ℕ) → ℕ
total_bytes [] = 0
total_bytes (a ∷ as') = length a + 1 + total_bytes as'

command_bytes-none : (as' : List (List ℕ)) → command_bytes none as' ≡ none
unfolding command_bytes
command_bytes-none [] = refl
command_bytes-none (a ∷ as') = command_bytes-none as'

add_argument-some : (t n v : ℕ) → add_argument (some t) n ≡ some v → v ≡ t + n + 1
add_argument-some t n v h = elim (Bool-cases (ltb (t + n) usize_limit)) [
  | inl fits ↦ ground arith
  | inr wraps ↦ absurd (ground arith)
]

command_bytes-total :
    (as' : List (List ℕ)) (t v : ℕ) → command_bytes (some t) as' ≡ some v → v ≡ t + total_bytes as'
unfolding command_bytes total_bytes
command_bytes-total [] t v h = ground arith
command_bytes-total (a ∷ as') t v h = elim (Option-cases (add_argument (some t) (length a))) [
  | inl wraps ↦
      let bad : ◌≡◌ {A = Option ℕ} none (some v) =
        sym (command_bytes-none as') ∙ (sym (ap (λ o. command_bytes o as') wraps) ∙ h) in
      cc
  | inr (u, e) ↦
      let one = add_argument-some t (length a) u e in
      let rest = command_bytes-total as' u v (sym (ap (λ o. command_bytes o as') e) ∙ h) in
      omega (arith, one, rest)
]

any-false-All :
    (limit : ℕ) (as' : List (List ℕ))
    → any (λ a. ltb limit (length a)) as' ≡ false
    → All (λ a. length a ≤ limit) as'
any-false-All limit [] h = tt
any-false-All limit (a ∷ as') h = elim (Bool-cases (ltb limit (length a))) [
  | inl long ↦ absurd (ground arith)
  | inr short ↦ (ground arith, any-false-All limit as' (rw short at h))
]

-- What the words of an accepted command keep to.
pub record KeepsLimits (argv : List (List ℕ)) : Type 0 where
  pub token_count : (1 ≤ length argv) × (length argv ≤ max_redis_command_tokens)
  pub token_bytes : All (λ a. length a ≤ max_redis_command_token_bytes) argv
  pub command_size : total_bytes argv ≤ max_redis_command_bytes + 1
  pub allowed : redis_bytes_are_denied argv ≡ false

argv-KeepsLimits : (argv : List (List ℕ)) → validate_argv argv ≡ ok tt → KeepsLimits argv
unfolding validate_argv
argv-KeepsLimits [] h = absurd (ground arith)
argv-KeepsLimits (command ∷ arguments) h =
    let argv = command ∷ arguments in
    elim (Bool-cases (any (λ a. ltb max_redis_command_token_bytes (length a)) argv)) [
      | inl long ↦ absurd (ground arith)
      | inr short ↦ elim (Option-cases (command_bytes (some 0) argv)) [
        | inl wraps ↦ absurd (ground arith)
        | inr (bytes, e) ↦
            let total = command_bytes-total argv 0 bytes e in
            let size : bytes ≤ max_redis_command_bytes + 1 = ground arith in
            record {
              token_count = ground arith;
              token_bytes = any-false-All max_redis_command_token_bytes argv short;
              command_size = omega (arith, total, size);
              allowed = ground arith;
            }
      ]
    ]

limits-in-range :
    (row_limit timeout : ℕ)
    → validate_execute_limits row_limit timeout ≡ ok tt
    → ((1 ≤ row_limit) × (row_limit ≤ max_result_rows))
      × ((seconds 1 ≤ timeout) × (timeout ≤ seconds 300))
unfolding validate_execute_limits
limits-in-range row_limit timeout h = ground arith

-- An accepted Redis request has a row limit and a time limit in range, and a command that is not
-- denied, with a number of words, a size of each and a size of all within the limits. The size of
-- all counts one separator between words, and is that of the true sum: the checked addition lets
-- no overflow through.
pub validate_redis-KeepsLimits :
    (r : RedisExecuteRequest)
    → validate_redis r ≡ ok tt
    → (1 ≤ r.row_limit)
      × (r.row_limit ≤ max_result_rows)
      × (seconds 1 ≤ r.timeout)
      × (r.timeout ≤ seconds 300)
      × KeepsLimits r.argv
unfolding validate_redis
validate_redis-KeepsLimits r h =
    let (_, limits, words) = >>=-eq-ok (validate_execute_limits r.row_limit r.timeout) _ h in
    let (rows, times) = limits-in-range r.row_limit r.timeout limits in
    (rows.0, rows.1, times.0, times.1, argv-KeepsLimits r.argv words)
