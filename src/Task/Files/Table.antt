-- ===== src/Task/Files/Table.antt =====
-- The repository of internal/files/tasks.go as a map from names to configurations: what is stored
-- behind a write is what was written.
use arch_agent.Base.{
  Option, Option-cases, String, [], ap, arith, if◌then◌else◌, inl, inr, is_some, none, refl, some,
  sym, ◌∙◌, ◌∷◌, ◌≡◌,
}
use arch_agent.Base.Dict.{Dict, IsDict, Keyed, insert, lookup, lookup-Keyed, lookup-insert}
use arch_agent.Base.Keys.{==_iff, string_eq, ◌==◌}
use arch_agent.Errors.{or_else}
use arch_agent.Task.{TaskConfig}
use arch_agent.Task.Files.{
  Disk, delete_from, flush_tasks, load_tasks, marshal_tasks, remove, save, save_into,
  unmarshal_tasks,
}
use arch_agent.Base.Dict.{
  delete, delete-IsDict, delete-Keyed, insert-IsDict, insert-Keyed, lookup-delete,
}
use arch_agent.Base.{Bool, List, false, true}
use arch_agent.Task.Files.{
  TaskDto, Write, breaks_off, dto_of, refused, succeeds, task_of, write_table,
}

-- The configuration that All() has for a name.
abbrev pub stored : Disk → String → Option TaskConfig
stored d n = lookup n (unmarshal_tasks d.table)

abbrev pub named : String → Option TaskDto → Option TaskConfig
named n none = none
named n (some v) = some (task_of n v)

pub lookup-unmarshal_tasks :
    (n : String) (m : Dict String TaskDto) → lookup n (unmarshal_tasks m) ≡ named n (lookup n m)
unfolding unmarshal_tasks lookup
lookup-unmarshal_tasks n [] = refl
lookup-unmarshal_tasks n ((k, v) ∷ m) = ground (arith, ==_iff k n, lookup-unmarshal_tasks n m)

pub unmarshal_tasks-IsDict : (m : Dict String TaskDto) → IsDict m → IsDict (unmarshal_tasks m)
unfolding unmarshal_tasks
unmarshal_tasks-IsDict [] d = tt
unmarshal_tasks-IsDict ((k, v) ∷ m) d =
    (lookup-unmarshal_tasks k m ∙ ap (named k) d.0, unmarshal_tasks-IsDict m d.1)

pub unmarshal_tasks-Keyed :
    (m : Dict String TaskDto) → Keyed (λ (t : TaskConfig). t.name) (unmarshal_tasks m)
unfolding unmarshal_tasks
unmarshal_tasks-Keyed [] = tt
unmarshal_tasks-Keyed ((k, v) ∷ m) = (refl, unmarshal_tasks-Keyed m)

abbrev dto_or_none : Option TaskConfig → Option TaskDto
dto_or_none none = none
dto_or_none (some t) = some (dto_of t)

lookup-marshal_tasks :
    (n : String) (m : Dict String TaskConfig) (dtos : Dict String TaskDto)
    → IsDict m
    → Keyed (λ (t : TaskConfig). t.name) m
    → lookup n (marshal_tasks dtos m) ≡ or_else (dto_or_none (lookup n m)) (lookup n dtos)
unfolding marshal_tasks lookup
lookup-marshal_tasks n [] dtos d k = refl
lookup-marshal_tasks n ((name, v) ∷ m) dtos d k = ground (
  arith,
  d.0,
  k.0,
  ==_iff name n,
  lookup-insert v.name n (dto_of v) dtos,
  lookup-marshal_tasks n m (insert v.name (dto_of v) dtos) d.1 k.1,
)

named-same :
    (n : String) (m : Dict String TaskConfig) (o : Option TaskConfig)
    → Keyed (λ (t : TaskConfig). t.name) m
    → lookup n m ≡ o
    → named n (dto_or_none o) ≡ o
named-same n m none k q = refl
named-same n m (some t) k q =
    ap (λ name. some (record t { name = name }))
      (sym (lookup-Keyed (λ (u : TaskConfig). u.name) n m t k q))

or_else-none {ℓ} : {A : Type ℓ} (o : Option A) → or_else o none ≡ o
or_else-none none = refl
or_else-none (some a) = refl

-- UnmarshalTasks reads back each task that MarshalTasks wrote, with all its fields, if each stands
-- under its own name, and no name twice.
pub unmarshal_tasks-marshal_tasks :
    (n : String) (m : Dict String TaskConfig)
    → IsDict m
    → Keyed (λ (t : TaskConfig). t.name) m
    → lookup n (unmarshal_tasks (marshal_tasks [] m)) ≡ lookup n m
unfolding lookup
unmarshal_tasks-marshal_tasks n m d k =
    lookup-unmarshal_tasks n (marshal_tasks [] m)
    ∙ ap (named n) (lookup-marshal_tasks n m [] d k ∙ or_else-none (dto_or_none (lookup n m)))
    ∙ named-same n m (lookup n m) k refl

-- The next write breaks off and leaves another file.
abbrev pub is_broken_off : List Write → Bool
is_broken_off (breaks_off e left unreadable ∷ later) = true
is_broken_off _ = false

write_table-stored :
    (d : Disk) (t : Dict String TaskDto) (ws : List Write) (n : String)
    → is_broken_off ws ≡ false
    → stored (write_table d t ws).1 n
      ≡ (if is_some (write_table d t ws).0 then stored d n else lookup n (unmarshal_tasks t))
write_table-stored d t [] n whole = refl
write_table-stored d t (succeeds ∷ later) n whole = refl
write_table-stored d t (refused e ∷ later) n whole = refl
write_table-stored d t (breaks_off e left unreadable ∷ later) n whole = absurd (ground arith)

flush_tasks-stored :
    (d : Disk) (tasks : Dict String TaskConfig) (n : String)
    → is_broken_off d.writes ≡ false
    → IsDict tasks
    → Keyed (λ (t : TaskConfig). t.name) tasks
    → stored (flush_tasks d tasks).1 n
      ≡ (if is_some (flush_tasks d tasks).0 then stored d n else lookup n tasks)
unfolding flush_tasks
flush_tasks-stored d tasks n whole h k =
    write_table-stored d (marshal_tasks [] tasks) d.writes n whole
    ∙ ap
        (λ (o : Option TaskConfig).
          if is_some (write_table d (marshal_tasks [] tasks) d.writes).0 then stored d n else o)
        (unmarshal_tasks-marshal_tasks n tasks h k)

-- Where each name has one entry in the file and no write breaks off half way: a save that succeeds
-- stores the configuration under its name and changes no other; one that fails changes nothing.
pub save-stored :
    (d : Disk) (t : TaskConfig) (n : String)
    → IsDict d.table
    → is_broken_off d.writes ≡ false
    → stored (save d t).1 n
      ≡ (if is_some (save d t).0 then stored d n else if t.name == n then some t else stored d n)
unfolding save save_into load_tasks
save-stored d t n h whole = elim (Option-cases d.read_error) [
  | inr (e, q) ↦ rw (q, save) refl
  | inl q ↦
      rw (q, save)
        (flush_tasks-stored (record d { read_error = none })
            (insert t.name t (unmarshal_tasks d.table)) n whole
            (insert-IsDict t.name t _ (unmarshal_tasks-IsDict d.table h))
            (insert-Keyed (λ (u : TaskConfig). u.name) t.name t _ refl
              (unmarshal_tasks-Keyed d.table))
          ∙ rw (lookup-insert t.name n t (unmarshal_tasks d.table)) refl)
]

-- Where each name has one entry in the file and no write breaks off half way: a removal that
-- succeeds takes the task away and leaves all others; one that fails changes nothing.
pub remove-stored :
    (d : Disk) (id n : String)
    → IsDict d.table
    → is_broken_off d.writes ≡ false
    → stored (remove d id).1 n
      ≡ (if is_some (remove d id).0 then stored d n else if id == n then none else stored d n)
unfolding remove delete_from load_tasks
remove-stored d id n h whole = elim (Option-cases d.read_error) [
  | inr (e, q) ↦ rw (q, remove) refl
  | inl q ↦ elim (Option-cases (lookup id (unmarshal_tasks d.table))) [
    | inl miss ↦ rw (q, remove) (rw (miss, delete_from, load_tasks) refl)
    | inr (t, hit) ↦
        rw (q, remove)
          (rw (hit, delete_from, load_tasks)
            (flush_tasks-stored (record d { read_error = none })
                (delete id (unmarshal_tasks d.table)) n whole
                (delete-IsDict id _ (unmarshal_tasks-IsDict d.table h))
                (delete-Keyed (λ (u : TaskConfig). u.name) id _ (unmarshal_tasks-Keyed d.table))
              ∙ rw (lookup-delete id n (unmarshal_tasks d.table)) refl))
  ]
]
