-- ===== src/Task/Service/Reload.antt =====
-- Reload of internal/task/service.go: which runtimes there are behind it.
use arch_agent.Base.{
  String, Bool, true, false, ◌&&◌, Option, none, some, [], ◌∷◌, ◌≡◌, refl, arith, if◌then◌else◌,
  is_some, Bool-cases, Option-cases, inl, inr,
}
use arch_agent.Base.Keys.{◌==◌, string_eq, ==_iff}
use arch_agent.Base.Dict.{
  Dict, lookup, insert, lookup-insert, lookup-delete, IsDict, Keyed, insert-IsDict, insert-Keyed,
}
use arch_agent.Task.{TaskConfig, equals}
use arch_agent.Task.Service.{
  TaskRuntime, Service, Deps, stop_runtime, start, run_tasks, stop_deleted, gather_changed,
  reload_tasks,
}

abbrev pub config_of : Option TaskRuntime → Option TaskConfig
config_of none = none
config_of (some rt) = some rt.config

abbrev pub name_of : TaskRuntime → String
name_of rt = rt.config.name

lookup-stop_runtime :
    (s : Service) (name n : String)
    → lookup n (stop_runtime s name).runtimes ≡ (if name == n then none else lookup n s.runtimes)
unfolding stop_runtime
lookup-stop_runtime s name n = ground (arith, lookup-delete name n s.runtimes, ==_iff name n)

stop_deleted-lookup :
    (tasks : Dict String TaskConfig) (rts : Dict String TaskRuntime) (s : Service) (n : String)
    → Keyed name_of rts
    → lookup n (stop_deleted tasks rts s).runtimes ≡ (
        if is_some (lookup n tasks)
        then lookup n s.runtimes
        else if is_some (lookup n rts)
        then none
        else lookup n s.runtimes)
unfolding stop_deleted lookup
stop_deleted-lookup tasks [] s n k = ground arith
stop_deleted-lookup tasks ((name, rt) ∷ rts) s n k = ground (
  arith,
  k.0,
  ==_iff name n,
  lookup-stop_runtime s name n,
  stop_deleted-lookup tasks rts
      (if is_some (lookup rt.config.name tasks) then s else stop_runtime s name) n k.1,
)

-- What the second loop leaves of a runtime, and which candidate it makes.
abbrev keep : Option TaskConfig → Option TaskRuntime → Option TaskRuntime
keep none r = r
keep (some cfg) none = none
keep (some cfg) (some rt) = if equals cfg rt.config then some rt else none

abbrev candidate : Option TaskConfig → Option TaskRuntime → Option TaskConfig → Option TaskConfig
candidate none r c = c
candidate (some cfg) none c = some cfg
candidate (some cfg) (some rt) c = if equals cfg rt.config then c else some cfg

gather_changed-lookup :
    (tasks : Dict String TaskConfig) (s : Service) (cs : Dict String TaskConfig) (n : String)
    → IsDict tasks
    → (lookup n (gather_changed tasks s cs).0.runtimes
        ≡ keep (lookup n tasks) (lookup n s.runtimes))
      × (lookup n (gather_changed tasks s cs).1
          ≡ candidate (lookup n tasks) (lookup n s.runtimes) (lookup n cs))
unfolding gather_changed lookup
gather_changed-lookup [] s cs n d = (refl, refl)
gather_changed-lookup ((name, cfg) ∷ tasks) s cs n d = ground (
  arith,
  d.0,
  ==_iff name n,
  lookup-insert name n cfg cs,
  lookup-stop_runtime s name n,
  gather_changed-lookup tasks s (insert name cfg cs) n d.1,
  gather_changed-lookup tasks s cs n d.1,
  gather_changed-lookup tasks (stop_runtime s name) (insert name cfg cs) n d.1,
)

gather_changed-IsDict :
    (tasks : Dict String TaskConfig) (s : Service) (cs : Dict String TaskConfig)
    → Keyed (λ (t : TaskConfig). t.name) tasks
    → IsDict cs
    → Keyed (λ (t : TaskConfig). t.name) cs
    → IsDict (gather_changed tasks s cs).1
      × Keyed (λ (t : TaskConfig). t.name) (gather_changed tasks s cs).1
unfolding gather_changed
gather_changed-IsDict [] s cs k d kc = (d, kc)
gather_changed-IsDict ((name, cfg) ∷ tasks) s cs k d kc =
    let more = insert-IsDict name cfg cs d in
    let keyed = insert-Keyed (λ (t : TaskConfig). t.name) name cfg cs k.0 kc in
    elim (Option-cases (lookup name s.runtimes)) [
      | inl q ↦ rw (q, gather_changed) (gather_changed-IsDict tasks s _ k.1 more keyed)
      | inr (rt, q) ↦ elim (Bool-cases (equals cfg rt.config)) [
        | inl e ↦
            rw (q, gather_changed)
              (rw (e, gather_changed) (gather_changed-IsDict tasks s cs k.1 d kc))
        | inr e ↦
            rw (q, gather_changed)
              (rw (e, gather_changed)
                (gather_changed-IsDict tasks (stop_runtime s name) _ k.1 more keyed))
      ]
    ]

module _ (deps : Deps) where
  -- A configuration that start is called with and does not refuse.
  abbrev pub can_run : TaskConfig → Bool
  can_run cfg = cfg.active && deps.supports cfg.reglament

  abbrev pub running : Option TaskConfig → Option TaskConfig → Option TaskConfig
  running none r = r
  running (some cfg) r = if can_run cfg then some cfg else r

  start_if : Service → TaskConfig → Service
  start_if s t = if t.active then (start deps s t).1 else s

  lookup-start_if :
      (s : Service) (t : TaskConfig) (n : String)
      → (config_of (lookup n (start_if s t).runtimes) ≡ (
          if t.name == n
          then running (some t) (config_of (lookup n s.runtimes))
          else config_of (lookup n s.runtimes)))
        × ((t.name == n) ≡ false → lookup n (start_if s t).runtimes ≡ lookup n s.runtimes)
  unfolding start_if start
  lookup-start_if s t n =
      ground
        (arith, lookup-insert t.name n (record { config = t; pointer = s.next_pointer }) s.runtimes)

  run_tasks-lookup :
      (s : Service) (cfgs : Dict String TaskConfig) (n : String)
      → IsDict cfgs
      → Keyed (λ (t : TaskConfig). t.name) cfgs
      → (config_of (lookup n (run_tasks deps s cfgs).runtimes)
          ≡ running (lookup n cfgs) (config_of (lookup n s.runtimes)))
        × (lookup n cfgs ≡ none → lookup n (run_tasks deps s cfgs).runtimes ≡ lookup n s.runtimes)
  unfolding run_tasks lookup start_if
  run_tasks-lookup s [] n d k = (refl, λ _. refl)
  run_tasks-lookup s ((name, t) ∷ cfgs) n d k =
      let later = run_tasks-lookup (start_if s t) cfgs n d.1 k.1 in
      let here = lookup-start_if s t n in
      ground (arith, k.0, d.0, ==_iff name n, here.0, here.1, later.0, later.1)

  -- What the configurations on the disk want of a runtime.
  abbrev pub desired : Option TaskConfig → Option TaskRuntime → Option TaskConfig
  desired none r = none
  desired (some cfg) none = running (some cfg) none
  desired (some cfg) (some rt) =
      if equals cfg rt.config then some rt.config else running (some cfg) none

  -- With each configuration and each runtime under its own name, and no name twice on the disk:
  -- Reload brings the runtimes to the configurations of the disk. A task that is not there has no
  -- runtime, one whose configuration did not change keeps its own, and any other task has one of
  -- its new configuration, or none if that is inactive or its cron expression is refused.
  pub reload_tasks-lookup :
      (s : Service) (tasks : Dict String TaskConfig) (n : String)
      → IsDict tasks
      → Keyed (λ (t : TaskConfig). t.name) tasks
      → Keyed name_of s.runtimes
      → config_of (lookup n (reload_tasks deps s tasks).runtimes)
        ≡ desired (lookup n tasks) (lookup n s.runtimes)
  unfolding reload_tasks lookup
  reload_tasks-lookup s tasks n d k ks =
      let stopped = stop_deleted tasks s.runtimes s in
      let gathered = gather_changed-lookup tasks stopped [] n d in
      let own = gather_changed-IsDict tasks stopped [] k _ _ in
      let (kept, candidates) = gather_changed tasks stopped [] in
      let ran = run_tasks-lookup kept candidates n own.0 own.1 in
      ground (arith, gathered.0, gathered.1, ran.0, stop_deleted-lookup tasks s.runtimes s n ks)

  -- With one runtime and one configuration for a name, each under its own name: a runtime whose
  -- configuration stands unchanged on the disk is left as it is, not started again.
  pub reload_tasks-kept :
      (s : Service) (tasks : Dict String TaskConfig) (n : String) (cfg : TaskConfig)
      (rt : TaskRuntime)
      → IsDict tasks
      → Keyed (λ (t : TaskConfig). t.name) tasks
      → Keyed name_of s.runtimes
      → lookup n tasks ≡ some cfg
      → lookup n s.runtimes ≡ some rt
      → equals cfg rt.config ≡ true
      → lookup n (reload_tasks deps s tasks).runtimes ≡ some rt
  unfolding reload_tasks lookup
  reload_tasks-kept s tasks n cfg rt d k ks hc hr same =
      let stopped = stop_deleted tasks s.runtimes s in
      let gathered = gather_changed-lookup tasks stopped [] n d in
      let own = gather_changed-IsDict tasks stopped [] k _ _ in
      let (kept, candidates) = gather_changed tasks stopped [] in
      let ran = run_tasks-lookup kept candidates n own.0 own.1 in
      ground (arith, gathered.0, gathered.1, ran.1, stop_deleted-lookup tasks s.runtimes s n ks)
