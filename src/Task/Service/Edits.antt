-- ===== src/Task/Service/Edits.antt =====
-- internal/task/service.go: List, Add, Patch and Delete. They change the configurations on the disk
-- and leave the runtimes to the next reload.
pub mod Stored
pub mod Recipients
use arch_agent.Base.{Bool, List, Option, String, [], false, if◌then◌else◌, none, not, some, ◌∷◌}
use arch_agent.Base.Dict.{Dict, insert}
use arch_agent.Base.Keys.{Eq, string_eq, ◌==◌}
use arch_agent.Errors.{Error, Result, err, errors_is, is_not_exist, ok, problems, ◌>>=◌, ◌>>◌}
use arch_agent.Task.{
  TaskConfig, TaskPatch, apply_patch, equals, validate_task_config, validation_result,
}
use arch_agent.Task.Files.{Disk, get, load_tasks, remove, save}
use arch_agent.Task.Service.{Deps}
use arch_agent.Subagent.{call}

-- `maps.Values`, collected.
unfoldable pub values : Dict String TaskConfig → List TaskConfig
values [] = []
values ((k, v) ∷ m) = v ∷ values m

unfoldable pub list_tasks : Disk → Result (List TaskConfig)
unfolding values load_tasks
list_tasks d = do tasks ← load_tasks d; ok (values tasks)

module _ (deps : Deps) where
  -- The loop of validateRecipients, with the problems that were found.
  unfoldable pub recipient_problems : List String → Dict String String → Result (Dict String String)
  recipient_problems [] found = ok found
  recipient_problems (r ∷ rs) found = elim (deps.agent_error r) [
    | none ↦ recipient_problems rs found
    | some e ↦
        if errors_is e is_not_exist
        then recipient_problems rs (insert r "is not exist" found)
        else err e
  ]

  unfoldable pub validate_recipients : List String → Result (Unit {0})
  unfolding recipient_problems
  validate_recipients recipients = do
    found ← recipient_problems recipients []
    validation_result found

-- What validateIdentity makes of the result of Get.
unfoldable pub identity_result : String → Result TaskConfig → Result (Unit {0})
identity_result id (ok t) = err (problems ((id, "already exist") ∷ []))
identity_result id (err e) = if errors_is e is_not_exist then ok tt else err e

unfoldable pub validate_identity : Disk → String → Result (Unit {0})
unfolding identity_result get
validate_identity d id = identity_result id (get d id)

-- A method that ends in a call of the repository: the checks before it, then the call.
abbrev pub checked : Disk → Result (Unit {0}) → Option Error × Disk → Option Error × Disk
checked d (err e) call = (some e, d)
checked d (ok u) call = call

module _ (deps : Deps) where
  unfoldable pub add : TaskConfig → Disk → Option Error × Disk
  unfolding validate_task_config validate_recipients validate_identity save
  add cfg d =
      checked d
        (validate_task_config deps.supports cfg
          >> validate_recipients deps cfg.recipients
          >> validate_identity d cfg.name)
        (save d cfg)

  -- The checks of the recipients that a patch has.
  abbrev pub patch_recipients : TaskPatch → Result (Unit {0})
  patch_recipients patch = elim patch.recipients [
    | none ↦ ok tt
    | some rs ↦ validate_recipients deps rs
  ]

-- The second save of a renaming, behind the removal of the old name.
unfoldable pub save_renamed : TaskConfig → Option Error × Disk → Option Error × Disk
unfolding save
save_renamed next (some e, d) = (some e, d)
save_renamed next (none, d) = save d next

-- `patch.Name != nil && *patch.Name != cfg.Name`
abbrev pub is_renaming : TaskConfig → TaskPatch → Bool
is_renaming cfg patch = elim patch.name [ none ↦ false | some name ↦ not (name == cfg.name) ]

unfoldable pub store_patched : TaskConfig → TaskPatch → TaskConfig → Disk → Option Error × Disk
unfolding save_renamed validate_identity remove save
store_patched cfg patch next d =
    if is_renaming cfg patch
    then checked d (validate_identity d next.name) (save_renamed next (remove d cfg.name))
    else save d next

module _ (deps : Deps) where
  unfoldable pub patch_found : TaskPatch → Disk → Result TaskConfig → Option Error × Disk
  unfolding apply_patch equals validate_task_config store_patched
  patch_found patch d (err e) = (some e, d)
  patch_found patch d (ok cfg) =
      let next = apply_patch cfg patch in
      if equals next cfg
      then (none, d)
      else checked d (validate_task_config deps.supports next) (store_patched cfg patch next d)

  unfoldable pub patch_task : String → TaskPatch → Disk → Option Error × Disk
  unfolding patch_found get
  patch_task name patch d =
      checked d (patch_recipients deps patch) (patch_found patch d (get d name))

-- Delete
unfoldable pub delete_task : String → Disk → Option Error × Disk
unfolding remove
delete_task name d = remove d name
