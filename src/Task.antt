-- ===== src/Task.antt =====
-- internal/task/task.go: the configuration of a task, its patch and its validation.
pub mod Files
pub mod Service
use arch_agent.Base.{
  ℕ, String, Bool, true, false, ◌&&◌, Option, none, some, List, [], ◌∷◌, ◌++◌, if◌then◌else◌, not,
}
use arch_agent.Base.Fields.{patched, problem_if}
use arch_agent.Base.Keys.{◌==◌, string_eq, Eq}
use arch_agent.Base.Dict.{Dict}
use arch_agent.Errors.{Error, Result, ok, err, problems}

pub record TaskConfig : Type 0 where
  pub name : String
  pub description : String
  pub recipients : List String
  pub reglament : String
  pub request : String
  pub active : Bool
  pub oneshot : Bool

-- slices.Equal
unfoldable pub list_equal : List String → List String → Bool
list_equal [] [] = true
list_equal (x ∷ xs) (y ∷ ys) = x == y && list_equal xs ys
list_equal _ _ = false

abbrev pub bool_equal : Bool → Bool → Bool
bool_equal true b = b
bool_equal false b = not b

-- TaskConfig.Equals
unfoldable pub equals : TaskConfig → TaskConfig → Bool
unfolding list_equal
equals t other =
    list_equal t.recipients other.recipients
    && t.name == other.name
    && t.description == other.description
    && t.reglament == other.reglament
    && t.request == other.request
    && bool_equal t.active other.active
    && bool_equal t.oneshot other.oneshot

-- A nil pointer of the patch is `none`.
pub record TaskPatch : Type 0 where
  pub active : Option Bool
  pub name : Option String
  pub description : Option String
  pub recipients : Option (List String)
  pub reglament : Option String
  pub request : Option String
  pub oneshot : Option Bool

unfoldable pub apply_patch : TaskConfig → TaskPatch → TaskConfig
apply_patch cfg patch = record {
  name = patched cfg.name patch.name;
  description = patched cfg.description patch.description;
  recipients = patched cfg.recipients patch.recipients;
  reglament = patched cfg.reglament patch.reglament;
  request = patched cfg.request patch.request;
  active = patched cfg.active patch.active;
  oneshot = patched cfg.oneshot patch.oneshot;
}

abbrev pub is_empty : List String → Bool
is_empty [] = true
is_empty (x ∷ xs) = false

-- The problems of a configuration. `supports` says which cron expressions the cron library takes.
unfoldable pub config_problems : (String → Bool) → TaskConfig → Dict String String
config_problems supports cfg =
    problem_if (cfg.name == "") "name" "must be not empty"
    ++ (problem_if (cfg.description == "") "description" "must be not empty"
        ++ (problem_if (is_empty cfg.recipients) "recipients" "must contain at least one recipient"
            ++ (problem_if (not (supports cfg.reglament)) "schedule" "invalid cron"
                ++ problem_if (cfg.request == "") "request" "must be not empty")))

-- NewValidationError, if there is a problem.
abbrev pub validation_result : Dict String String → Result (Unit {0})
validation_result [] = ok tt
validation_result (p ∷ ps) = err (problems (p ∷ ps))

unfoldable pub validate_task_config : (String → Bool) → TaskConfig → Result (Unit {0})
unfolding config_problems
validate_task_config supports cfg = validation_result (config_problems supports cfg)
