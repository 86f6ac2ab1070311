-- ===== src/Task/Service/Runtimes.antt =====
-- The runtimes of internal/task/service.go over the life of the service: each stands under the name
-- of its configuration, and a reload brings them to what the disk wants.
use arch_agent.Base.{Bool-cases, Option-cases, String, [], inl, inr, is_some, none, refl, ◌∷◌, ◌≡◌}
use arch_agent.Base.Keys.{string_eq}
use arch_agent.Base.Dict.{Dict, IsDict, Keyed, delete-Keyed, insert-Keyed, lookup}
use arch_agent.Errors.{ok}
use arch_agent.Task.{TaskConfig, equals}
use arch_agent.Task.Files.{Disk, load_tasks, unmarshal_tasks}
use arch_agent.Task.Files.Table.{stored, unmarshal_tasks-IsDict, unmarshal_tasks-Keyed}
use arch_agent.Task.Service.{
  Deps, Service, TaskRuntime, gather_changed, new_service, reload, reload_tasks, run_tasks, start,
  stop_deleted, stop_runtime,
}
use arch_agent.Task.Service.Reload.{config_of, desired, name_of, reload_tasks-lookup}
use arch_agent.Base.{Bool, arith, false, if◌then◌else◌, subst, true}

abbrev pub IsKeyed : Service → Type 0
IsKeyed s = Keyed name_of s.runtimes

either-IsKeyed : (b : Bool) (s t : Service) → IsKeyed s → IsKeyed t → IsKeyed (if b then s else t)
either-IsKeyed true s t h k = h
either-IsKeyed false s t h k = k

stop_runtime-IsKeyed : (s : Service) (name : String) → IsKeyed s → IsKeyed (stop_runtime s name)
unfolding stop_runtime
stop_runtime-IsKeyed s name h = elim (Option-cases (lookup name s.runtimes)) [
  | inl q ↦ rw (q, stop_runtime) h
  | inr (rt, q) ↦ rw (q, stop_runtime) (delete-Keyed name_of name s.runtimes h)
]

stop_deleted-IsKeyed :
    (tasks : Dict String TaskConfig) (rts : Dict String TaskRuntime) (s : Service)
    → IsKeyed s
    → IsKeyed (stop_deleted tasks rts s)
unfolding stop_deleted
stop_deleted-IsKeyed tasks [] s h = h
stop_deleted-IsKeyed tasks ((name, rt) ∷ rts) s h =
    let stays = is_some (lookup rt.config.name tasks) in
    stop_deleted-IsKeyed tasks rts (if stays then s else stop_runtime s name)
      (either-IsKeyed stays s _ h (stop_runtime-IsKeyed s name h))

gather_changed-IsKeyed :
    (tasks : Dict String TaskConfig) (s : Service) (cs : Dict String TaskConfig)
    → IsKeyed s
    → IsKeyed (gather_changed tasks s cs).0
unfolding gather_changed
gather_changed-IsKeyed [] s cs h = h
gather_changed-IsKeyed ((name, cfg) ∷ tasks) s cs h = elim (Option-cases (lookup name s.runtimes)) [
  | inl q ↦ rw (q, gather_changed) (gather_changed-IsKeyed tasks s _ h)
  | inr (rt, q) ↦ elim (Bool-cases (equals cfg rt.config)) [
    | inl e ↦ rw (q, gather_changed) (rw (e, gather_changed) (gather_changed-IsKeyed tasks s cs h))
    | inr e ↦
        rw (q, gather_changed)
          (rw (e, gather_changed)
            (gather_changed-IsKeyed tasks (stop_runtime s name) _ (stop_runtime-IsKeyed s name h)))
  ]
]

module _ (deps : Deps) where
  start-IsKeyed : (s : Service) (cfg : TaskConfig) → IsKeyed s → IsKeyed (start deps s cfg).1
  unfolding start
  start-IsKeyed s cfg h = elim (Bool-cases (deps.supports cfg.reglament)) [
    | inl y ↦ rw y (insert-Keyed name_of cfg.name _ s.runtimes refl h)
    | inr n ↦ rw n h
  ]

  run_tasks-IsKeyed :
      (s : Service) (cfgs : Dict String TaskConfig) → IsKeyed s → IsKeyed (run_tasks deps s cfgs)
  unfolding run_tasks
  run_tasks-IsKeyed s [] h = h
  run_tasks-IsKeyed s ((k, t) ∷ cfgs) h =
      let s' = if t.active then (start deps s t).1 else s in
      run_tasks-IsKeyed s' cfgs (either-IsKeyed t.active _ s (start-IsKeyed s t h) h)

  reload_tasks-IsKeyed :
      (s : Service) (tasks : Dict String TaskConfig)
      → IsKeyed s
      → IsKeyed (reload_tasks deps s tasks)
  unfolding reload_tasks
  reload_tasks-IsKeyed s tasks h =
      let stopped = stop_deleted tasks s.runtimes s in
      let (kept, candidates) = gather_changed tasks stopped [] in
      run_tasks-IsKeyed kept candidates
        (gather_changed-IsKeyed tasks stopped [] (stop_deleted-IsKeyed tasks s.runtimes s h))

  -- The states of a service: it is made over a disk, and reloaded over others.
  pub data IsServed : Service → Type 0 where
    made : (d : Disk) (s : Service) → new_service deps d ≡ ok s → IsServed s
    reloaded : (s : Service) (d : Disk) → IsServed s → IsServed (reload deps s d).1

  new_service-IsKeyed : (d : Disk) (s : Service) → new_service deps d ≡ ok s → IsKeyed s
  unfolding new_service load_tasks
  new_service-IsKeyed d s h =
      let none_yet : Service = record { runtimes = []; next_pointer = 0; cancelled = [] } in
      let same : run_tasks deps none_yet (unmarshal_tasks d.table) ≡ s = ground arith in
      subst IsKeyed same (run_tasks-IsKeyed none_yet (unmarshal_tasks d.table) tt)

  reload-IsKeyed : (s : Service) (d : Disk) → IsKeyed s → IsKeyed (reload deps s d).1
  unfolding reload load_tasks
  reload-IsKeyed s d h = elim (Option-cases d.read_error) [
    | inl q ↦ rw (q, reload) (reload_tasks-IsKeyed s (unmarshal_tasks d.table) h)
    | inr (e, q) ↦ rw (q, reload) h
  ]

  -- Each runtime of a service stands under the name of its configuration, however often the service
  -- is reloaded.
  pub served-IsKeyed : (s : Service) → IsServed s → IsKeyed s
  served-IsKeyed s (made d _ h) = new_service-IsKeyed d s h
  served-IsKeyed _ (reloaded s d r) = reload-IsKeyed s d (served-IsKeyed s r)

  -- Where the file can be read and has each name once: a reload leaves each name with the runtime
  -- that is wanted of it, by what is stored for it and by what ran before.
  pub reload-lookup :
      (s : Service) (d : Disk) (n : String)
      → IsServed s
      → IsDict d.table
      → d.read_error ≡ none
      → config_of (lookup n (reload deps s d).1.runtimes)
        ≡ desired deps (stored d n) (lookup n s.runtimes)
  unfolding reload load_tasks
  reload-lookup s d n r h q =
      rw (q, reload)
        (reload_tasks-lookup deps s (unmarshal_tasks d.table) n (unmarshal_tasks-IsDict d.table h)
          (unmarshal_tasks-Keyed d.table) (served-IsKeyed s r))
