-- ===== src/Errors.antt =====
-- internal/types/errors.go, and what the program uses of the package `errors`: sentinels, wrapping
-- by %w, errors.Join, errors.Is and errors.As. A nil error is `none` of `Option Error`.
pub mod Distill
use arch_agent.Base.{
  ℕ, String, Bool, true, false, ◌||◌, Option, none, some, List, [], ◌∷◌, concat, nat_eq,
}
use arch_agent.Base.Dict.{Dict}

-- The package level `errors.New` values that some code compares by identity.
pub data Sentinel : Type 0 where
  is_not_exist already_exist validation : Sentinel
  context_overflow max_turns_exceeded too_many_mistakes : Sentinel
  canceled deadline_exceeded : Sentinel
  cron no_recipients : Sentinel
  diffirent_types cant_merge_tool_result : Sentinel
  is_not_file_tool call_stack_overflow : Sentinel

abbrev pub sentinel_code : Sentinel → ℕ
sentinel_code is_not_exist = 0
sentinel_code already_exist = 1
sentinel_code validation = 2
sentinel_code context_overflow = 3
sentinel_code max_turns_exceeded = 4
sentinel_code too_many_mistakes = 5
sentinel_code canceled = 6
sentinel_code deadline_exceeded = 7
sentinel_code cron = 8
sentinel_code no_recipients = 9
sentinel_code diffirent_types = 10
sentinel_code cant_merge_tool_result = 11
sentinel_code is_not_file_tool = 12
sentinel_code call_stack_overflow = 13

-- `agent_mistake` is *AgentMistakeError, `problems` is *ValidationError, `text` an error with no
-- Unwrap, `wrap` an fmt.Errorf with %w, and `joined` what errors.Join returns.
mutual
  pub data Error : Type 0 where
    sentinel : Sentinel → Error
    agent_mistake : String → Error
    problems : Dict String String → Error
    text : String → Error
    wrap : String → Error → Error
    joined : Errors → Error

  pub data Errors : Type 0 where
    nil : Errors
    cons : Error → Errors → Errors

-- The two results `(T, error)` of a Go function, one of which is meant.
pub data Result {ℓ} (A : Type ℓ) : Type ℓ where
  err : Error → Result A
  ok : A → Result A

infixl 5 ◌>>=◌ ◌>>◌
abbrev pub ◌>>=◌ {ℓ κ} : {A : Type ℓ} {B : Type κ} → Result A → (A → Result B) → Result B
err e >>= next = err e
ok x >>= next = next x

abbrev pub ◌>>◌ {ℓ} : {B : Type ℓ} → Result (Unit {0}) → Result B → Result B
first >> rest = first >>= λ _. rest

-- errors.Is with a sentinel for its target.
unfoldable mutual
  pub errors_is : Error → Sentinel → Bool
  errors_is (sentinel s) t = nat_eq (sentinel_code s) (sentinel_code t)
  errors_is (agent_mistake m) t = false
  errors_is (problems ps) t = false
  errors_is (text m) t = false
  errors_is (wrap m e) t = errors_is e t
  errors_is (joined es) t = any_is es t

  pub any_is : Errors → Sentinel → Bool
  any_is nil t = false
  any_is (cons e es) t = errors_is e t || any_is es t

abbrev pub or_else {ℓ} : {A : Type ℓ} → Option A → Option A → Option A
or_else none y = y
or_else (some x) y = some x

-- errors.As with an *AgentMistakeError for its target, and the Message() of what it finds.
unfoldable mutual
  pub as_mistake : Error → Option String
  as_mistake (sentinel s) = none
  as_mistake (agent_mistake m) = some m
  as_mistake (problems ps) = none
  as_mistake (text m) = none
  as_mistake (wrap m e) = as_mistake e
  as_mistake (joined es) = first_mistake es

  pub first_mistake : Errors → Option String
  first_mistake nil = none
  first_mistake (cons e es) = or_else (as_mistake e) (first_mistake es)

-- errors.Join over values that are not nil.
unfoldable pub errors_join : Errors → Option Error
errors_join nil = none
errors_join (cons e es) = some (joined (cons e es))

-- The not nil values of a list, which is all that errors.Join looks at.
unfoldable pub gather_errors : List (Option Error) → Errors
gather_errors [] = nil
gather_errors (none ∷ es) = gather_errors es
gather_errors (some e ∷ es) = cons e (gather_errors es)

-- (*ValidationError).Message
unfoldable pub validation_message : Dict String String → String
validation_message [] = ""
validation_message ((k, v) ∷ ps) =
    concat ("problem with " ∷ k ∷ " - " ∷ v ∷ "\n" ∷ validation_message ps ∷ [])

-- ResovleValidationProblems
unfoldable mutual
  pub resovle_validation_problems : Error → Option (Dict String String)
  resovle_validation_problems (sentinel s) = none
  resovle_validation_problems (agent_mistake m) = none
  resovle_validation_problems (problems ps) = some ps
  resovle_validation_problems (text m) = none
  resovle_validation_problems (wrap m e) = resovle_validation_problems e
  resovle_validation_problems (joined es) = first_problems es

  pub first_problems : Errors → Option (Dict String String)
  first_problems nil = none
  first_problems (cons e es) = or_else (resovle_validation_problems e) (first_problems es)
