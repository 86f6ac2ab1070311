-- ===== src/Tests/Tasks.antt =====
-- Examples for internal/task and internal/files/tasks.go.
use arch_agent.Base.{String, [], false, none, refl, some, true, ◌∷◌, ◌≡◌}
use arch_agent.Base.Keys.{string_eq}
use arch_agent.Base.Dict.{Dict, IsDict, lookup}
use arch_agent.Errors.{errors_is, text}
use arch_agent.Task.{
  TaskConfig, TaskPatch, apply_patch, config_problems, equals, list_equal, validate_task_config,
}
use arch_agent.Task.Files.{
  Disk, flush_tasks, get, load_tasks, marshal_tasks, save, save_into, unmarshal_tasks,
}
use arch_agent.Task.Files.Table.{save-stored, stored}
use arch_agent.Task.Service.{Deps, Service}
use arch_agent.Task.Service.Edits.{
  add, identity_result, patch_task, recipient_problems, validate_identity, validate_recipients,
}
use arch_agent.Task.Service.Reload.{config_of}
use arch_agent.Task.Files.Table.{unmarshal_tasks-marshal_tasks}
use arch_agent.Task.Service.Edits.Stored.{add-stored, patch_task-lost}
use arch_agent.Base.{if◌then◌else◌}
use arch_agent.Base.Keys.{◌==◌}
use arch_agent.Errors.{is_not_exist, sentinel}
use arch_agent.Base.Dict.{insert}
use arch_agent.Task.Service.{new_service, reload, run_tasks, start}
use arch_agent.Task.Service.Runtimes.{IsServed, made, reload-lookup}
use arch_agent.Task.Files.{breaks_off, dto_of, succeeds}

abbrev daily : TaskConfig
daily = record {
  name = "daily";
  description = "report";
  recipients = "bob" ∷ [];
  reglament = "0 9 * * *";
  request = "report, please";
  active = true;
  oneshot = false;
}

abbrev hourly : TaskConfig
hourly = record daily { name = "hourly"; reglament = "0 * * * *" }

abbrev weekly : TaskConfig
weekly = record daily { name = "weekly" }

abbrev table : Dict String TaskConfig
table = ("daily", daily) ∷ ("hourly", hourly) ∷ []

abbrev disk : Disk
disk = record {
  table = ("daily", dto_of daily) ∷ ("hourly", dto_of hourly) ∷ [];
  read_error = none;
  writes = [];
}

-- The second write fails, and leaves an empty file.
abbrev full_disk : Disk
full_disk = record disk { writes = succeeds ∷ breaks_off (text "no space") [] none ∷ [] }

abbrev deps : Deps
deps = record { supports = λ r. true; agent_error = λ id. none }

abbrev running_service : Service
running_service = record {
  runtimes =
      ("daily", record { config = daily; pointer = 0 })
      ∷ ("weekly", record { config = weekly; pointer = 1 })
      ∷ [];
  next_pointer = 2;
  cancelled = [];
}

abbrev renaming : TaskPatch
renaming = record {
  active = none;
  name = some "nightly";
  description = none;
  recipients = none;
  reglament = none;
  request = none;
  oneshot = none;
}

table-IsDict : IsDict table
unfolding lookup
table-IsDict = (refl, (refl, tt))

save-stored_example : stored (save disk weekly).1 "weekly" ≡ some weekly
unfolding save save_into load_tasks flush_tasks lookup
save-stored_example = save-stored disk weekly "weekly" (refl, (refl, tt)) refl

unmarshal_tasks-marshal_tasks_example :
    lookup "daily" (unmarshal_tasks (marshal_tasks [] table)) ≡ lookup "daily" table
unmarshal_tasks-marshal_tasks_example =
    unmarshal_tasks-marshal_tasks "daily" table table-IsDict (refl, (refl, tt))

add-stored_example :
    (config_problems deps.supports weekly ≡ [])
    × (stored disk "weekly" ≡ none)
    × (stored (add deps weekly disk).1 "weekly" ≡ some weekly)
unfolding add validate_task_config config_problems validate_recipients recipient_problems
    validate_identity identity_result get load_tasks unmarshal_tasks lookup errors_is save save_into
    flush_tasks
add-stored_example = add-stored deps weekly disk "weekly" (refl, (refl, tt)) refl

patch_task-lost_example :
    ((patch_task deps "daily" renaming full_disk).0 ≡ some (text "no space"))
    × (stored (patch_task deps "daily" renaming full_disk).1 "daily" ≡ none)
    × (stored (patch_task deps "daily" renaming full_disk).1 "nightly" ≡ none)
unfolding unmarshal_tasks lookup config_problems apply_patch
patch_task-lost_example =
    patch_task-lost deps full_disk "daily" "nightly" daily renaming
      (breaks_off (text "no space") [] none) [] (text "no space") (refl, (refl, tt)) refl refl refl
      refl refl refl refl refl refl refl refl

-- No agent but bob.
abbrev only_bob : Deps
only_bob = record {
  supports = λ r. true;
  agent_error = λ id. if id == "bob" then none else some (sentinel is_not_exist);
}

abbrev served : Service
served = record {
  runtimes =
      ("daily", record { config = daily; pointer = 0 })
      ∷ ("hourly", record { config = hourly; pointer = 1 })
      ∷ [];
  next_pointer = 2;
  cancelled = [];
}

served-IsServed : IsServed deps served
unfolding new_service load_tasks unmarshal_tasks run_tasks start insert
served-IsServed = made disk served refl

-- The file with another schedule for one task, and without the other.
abbrev changed_disk : Disk
changed_disk = record disk {
  table = ("daily", record (dto_of daily) { reglament = "0 7 * * *" }) ∷ [];
}

reload-lookup_example :
    config_of (lookup "daily" (reload deps served changed_disk).1.runtimes)
    ≡ some (record daily { reglament = "0 7 * * *" })
unfolding lookup unmarshal_tasks equals list_equal
reload-lookup_example =
    reload-lookup deps served changed_disk "daily" served-IsServed (refl, tt) refl
