-- ===== src/Task/Service.antt =====
-- internal/task/service.go: the running tasks and the edits of their configurations. Each method
-- holds the mutex, so a method is a function from the state to the state. A runtime's pointer is
-- its number. Waiting for `rt.stopped` ends, as a task whose context is cancelled ends.
pub mod Reload
pub mod Runtimes
pub mod Edits
use arch_agent.Base.{
  ℕ, suc, String, Bool, true, false, not, ◌&&◌, Option, none, some, List, [], ◌∷◌, ◌++◌,
  if◌then◌else◌, is_some,
}
use arch_agent.Base.Keys.{◌==◌, string_eq, Eq}
use arch_agent.Base.Dict.{Dict, lookup, insert, delete}
use arch_agent.Errors.{
  Error, Result, ok, err, sentinel, cron, is_not_exist, errors_is, problems, ◌>>=◌, ◌>>◌,
}
use arch_agent.Task.{
  TaskConfig, TaskPatch, equals, apply_patch, validate_task_config, validation_result,
}
use arch_agent.Task.Files.{Disk, load_tasks, get, save, remove}

pub record TaskRuntime : Type 0 where
  pub config : TaskConfig
  pub pointer : ℕ

-- `cancelled` are the runtimes that were stopped, the latest first.
pub record Service : Type 0 where
  pub runtimes : Dict String TaskRuntime
  pub next_pointer : ℕ
  pub cancelled : List ℕ

unfoldable pub stop_runtime : Service → String → Service
stop_runtime s name = elim (lookup name s.runtimes) [
  | none ↦ s
  | some rt ↦ record s { runtimes = delete name s.runtimes; cancelled = rt.pointer ∷ s.cancelled }
]

-- The first loop of Reload, over the runtimes that there are when it begins.
unfoldable pub stop_deleted : Dict String TaskConfig → Dict String TaskRuntime → Service → Service
unfolding stop_runtime
stop_deleted tasks [] s = s
stop_deleted tasks ((name, rt) ∷ rts) s =
    stop_deleted tasks rts
      (if is_some (lookup rt.config.name tasks) then s else stop_runtime s name)

-- The second loop: the state and the load candidates.
unfoldable pub gather_changed :
    Dict String TaskConfig → Service → Dict String TaskConfig → Service × Dict String TaskConfig
unfolding stop_runtime
gather_changed [] s candidates = (s, candidates)
gather_changed ((name, cfg) ∷ tasks) s candidates = elim (lookup name s.runtimes) [
  | none ↦ gather_changed tasks s (insert name cfg candidates)
  | some rt ↦ elim (equals cfg rt.config) [
    | true ↦ gather_changed tasks s candidates
    | false ↦ gather_changed tasks (stop_runtime s name) (insert name cfg candidates)
  ]
]

-- What the service is given: the cron expressions that the cron library supports, and the error
-- that the repository of agents has for an id, if it has one.
pub record Deps : Type 0 where
  pub supports : String → Bool
  pub agent_error : String → Option Error

module _ (deps : Deps) where
  -- The goroutine that start leaves behind is not run here.
  unfoldable pub start : Service → TaskConfig → Option Error × Service
  start s cfg =
      if deps.supports cfg.reglament
      then (
        none,
        record s {
          runtimes = insert cfg.name (record { config = cfg; pointer = s.next_pointer }) s.runtimes;
          next_pointer = suc s.next_pointer;
        },
      )
      else (some (sentinel cron), s)

  unfoldable pub run_tasks : Service → Dict String TaskConfig → Service
  unfolding start
  run_tasks s [] = s
  run_tasks s ((k, t) ∷ cfgs) = run_tasks (if t.active then (start s t).1 else s) cfgs

  unfoldable pub reload_tasks : Service → Dict String TaskConfig → Service
  unfolding stop_deleted gather_changed run_tasks
  reload_tasks s tasks =
      let (s', candidates) = gather_changed tasks (stop_deleted tasks s.runtimes s) [] in
      run_tasks s' candidates

  unfoldable pub reload : Service → Disk → Option Error × Service
  unfolding reload_tasks
  reload s d = elim (load_tasks d) [ err e ↦ (some e, s) | ok tasks ↦ (none, reload_tasks s tasks) ]

  -- NewService: all tasks of the repository are run.
  unfoldable pub new_service : Disk → Result Service
  unfolding run_tasks
  new_service d = do
    tasks ← load_tasks d
    ok (run_tasks (record { runtimes = []; next_pointer = 0; cancelled = [] }) tasks)
