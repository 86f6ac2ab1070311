-- ===== src/Task/Files.antt =====
-- TaskFiles of internal/files/tasks.go: the repository of the tasks. The file holds a table from
-- names to the other fields; that the TOML library reads back the table which it wrote is taken for
-- granted. A missing or empty file is the empty table. `read_error` is any other error of reading
-- or parsing the file.
pub mod Table
use arch_agent.Base.{concat, String, Option, none, some, List, [], ◌∷◌}
use arch_agent.Base.Keys.{string_eq}
use arch_agent.Base.Dict.{Dict, lookup, insert, delete}
use arch_agent.Errors.{Error, Result, ok, err, wrap, sentinel, is_not_exist, ◌>>=◌}
use arch_agent.Task.{TaskConfig}
use arch_agent.Base.{Bool}
use arch_agent.Errors.{◌>>◌}
use arch_agent.Files.LockTable.Invariant.{writes}

-- TaskDTO
pub record TaskDto : Type 0 where
  pub description : String
  pub recipients : List String
  pub reglament : String
  pub active : Bool
  pub oneshot : Bool
  pub request : String

-- How a write ends: well, with an error before the file is opened, as one of toml.Marshal is, or with
-- an error behind that, which leaves some other table, or a file that cannot be read.
pub data Write : Type 0 where
  succeeds : Write
  refused : Error → Write
  breaks_off : Error → Dict String TaskDto → Option Error → Write

-- `writes` are the next writes; one that no entry speaks of succeeds.
pub record Disk : Type 0 where
  pub table : Dict String TaskDto
  pub read_error : Option Error
  pub writes : List Write

-- The bodies of the loops of UnmarshalTasks and MarshalTasks.
abbrev pub task_of : String → TaskDto → TaskConfig
task_of k v = record {
  name = k;
  description = v.description;
  recipients = v.recipients;
  reglament = v.reglament;
  active = v.active;
  oneshot = v.oneshot;
  request = v.request;
}

abbrev pub dto_of : TaskConfig → TaskDto
dto_of v = record {
  description = v.description;
  recipients = v.recipients;
  reglament = v.reglament;
  active = v.active;
  oneshot = v.oneshot;
  request = v.request;
}

-- UnmarshalTasks: the name of a task is its key in the table.
unfoldable pub unmarshal_tasks : Dict String TaskDto → Dict String TaskConfig
unmarshal_tasks [] = []
unmarshal_tasks ((k, v) ∷ m) = (k, task_of k v) ∷ unmarshal_tasks m

-- MarshalTasks: the key of a task is its name.
unfoldable pub marshal_tasks : Dict String TaskDto → Dict String TaskConfig → Dict String TaskDto
marshal_tasks dtos [] = dtos
marshal_tasks dtos ((k, v) ∷ m) = marshal_tasks (insert v.name (dto_of v) dtos) m

unfoldable pub load_tasks : Disk → Result (Dict String TaskConfig)
unfolding unmarshal_tasks
load_tasks d = elim d.read_error [ some e ↦ err e | none ↦ ok (unmarshal_tasks d.table) ]

abbrev pub write_table : Disk → Dict String TaskDto → List Write → Option Error × Disk
write_table d t [] = (none, record d { table = t })
write_table d t (succeeds ∷ later) = (none, record d { table = t; writes = later })
write_table d t (refused e ∷ later) = (some e, record d { writes = later })
write_table d t (breaks_off e left unreadable ∷ later) =
    (some e, record d { table = left; read_error = unreadable; writes = later })

unfoldable pub flush_tasks : Disk → Dict String TaskConfig → Option Error × Disk
unfolding marshal_tasks
flush_tasks d tasks = write_table d (marshal_tasks [] tasks) d.writes

unfoldable pub get : Disk → String → Result TaskConfig
unfolding load_tasks
get d id = do
  tasks ← load_tasks d
  elim (lookup id tasks) [
    | none ↦ err (wrap (concat ("task " ∷ id ∷ [])) (sentinel is_not_exist))
    | some t ↦ ok t
  ]

-- Save and Delete over what was loaded.
unfoldable pub save_into : Disk → TaskConfig → Result (Dict String TaskConfig) → Option Error × Disk
unfolding flush_tasks
save_into d t (err e) = (some e, d)
save_into d t (ok tasks) = flush_tasks d (insert t.name t tasks)

unfoldable pub save : Disk → TaskConfig → Option Error × Disk
unfolding save_into load_tasks
save d t = save_into d t (load_tasks d)

unfoldable pub delete_from : Disk → String → Result (Dict String TaskConfig) → Option Error × Disk
unfolding flush_tasks
delete_from d id (err e) = (some e, d)
delete_from d id (ok tasks) = elim (lookup id tasks) [
  | none ↦ (some (sentinel is_not_exist), d)
  | some t ↦ flush_tasks d (delete id tasks)
]

unfoldable pub remove : Disk → String → Option Error × Disk
unfolding delete_from load_tasks
remove d id = delete_from d id (load_tasks d)
