-- ===== src/Task/Service/Edits/Stored.antt =====
-- What Add and Patch of internal/task/service.go leave on the disk.
use arch_agent.Base.{List, Option, String, [], false, if◌then◌else◌, none, some, ◌∷◌, ◌≡◌}
use arch_agent.Base.Dict.{IsDict}
use arch_agent.Base.Keys.{string_eq, ◌==◌}
use arch_agent.Errors.{Error, ok}
use arch_agent.Task.{TaskConfig, TaskPatch, apply_patch, config_problems}
use arch_agent.Task.Files.{Disk, get, load_tasks}
use arch_agent.Task.Files.Table.{stored}
use arch_agent.Task.Service.{Deps}
use arch_agent.Task.Service.Edits.{
  add, identity_result, patch_recipients, patch_task, validate_identity,
}
use arch_agent.Base.{ap, arith, refl, ◌∙◌}
use arch_agent.Base.Dict.{Dict}
use arch_agent.Errors.{Result, err, errors_is, ◌>>◌}
use arch_agent.Task.{validation_result}
use arch_agent.Task.Files.{delete_from, flush_tasks, remove, save, save_into}
use arch_agent.Task.Service.Edits.{checked}
use arch_agent.Base.{true}
use arch_agent.Base.Dict.{lookup-Keyed}
use arch_agent.Base.Keys.{==_iff}
use arch_agent.Task.{equals, validate_task_config}
use arch_agent.Task.Files.{unmarshal_tasks}
use arch_agent.Task.Files.Table.{save-stored, unmarshal_tasks-Keyed}
use arch_agent.Task.Service.Edits.{is_renaming, patch_found, save_renamed, store_patched}
use arch_agent.Base.Dict.{lookup}
use arch_agent.Base.Keys.{==_self}
use arch_agent.Task.Files.Table.{remove-stored}
use arch_agent.Base.{subst, sym}
use arch_agent.Base.Dict.{insert}
use arch_agent.Files.LockTable.{free}
use arch_agent.Subagent.{call}
use arch_agent.Task.Files.{
  TaskDto, Write, breaks_off, marshal_tasks, refused, succeeds, write_table,
}
use arch_agent.Task.Files.Table.{is_broken_off, lookup-unmarshal_tasks, named}

save-read_error : (d : Disk) (t : TaskConfig) → (save d t).0 ≡ none → d.read_error ≡ none
unfolding save save_into load_tasks
save-read_error d t h = ground arith

get-stored :
    (d : Disk) (id : String) (t : TaskConfig)
    → d.read_error ≡ none
    → stored d id ≡ some t
    → get d id ≡ ok t
unfolding get load_tasks
get-stored d id t r h = ground arith

-- A name that validateIdentity takes is not stored, if the file can be read; it takes each name
-- that is not.
validate_identity-free :
    (d : Disk) (id : String) (u : Unit {0})
    → d.read_error ≡ none
    → validate_identity d id ≡ ok u
    → stored d id ≡ none
unfolding validate_identity identity_result get load_tasks
validate_identity-free d id u r h = ground arith

validate_identity-ok :
    (d : Disk) (id : String)
    → d.read_error ≡ none
    → stored d id ≡ none
    → validate_identity d id ≡ ok tt
unfolding validate_identity identity_result get load_tasks errors_is
validate_identity-ok d id r h = ground arith

validation_result-ok :
    (ps : Dict String String) (u : Unit {0}) → validation_result ps ≡ ok u → ps ≡ []
validation_result-ok ps u h = ground arith

checked-ok :
    (d : Disk) (r : Result (Unit {0})) (call : Option Error × Disk)
    → (checked d r call).0 ≡ none
    → (r ≡ ok tt) × (call.0 ≡ none) × (checked d r call ≡ call)
checked-ok d (err e) call h = absurd (ground arith)
checked-ok d (ok u) call h = (refl, h, refl)

>>-ok : (m k : Result (Unit {0})) → (m >> k) ≡ ok tt → (m ≡ ok tt) × (k ≡ ok tt)
>>-ok (err e) k h = absurd (ground arith)
>>-ok (ok u) k h = (refl, h)

stored-name : (d : Disk) (n : String) (t : TaskConfig) → stored d n ≡ some t → t.name ≡ n
stored-name d n t h =
    lookup-Keyed (λ (u : TaskConfig). u.name) n (unmarshal_tasks d.table) t
      (unmarshal_tasks-Keyed d.table) h

renamed-differs :
    (cfg : TaskConfig) (patch : TaskPatch) (new : String)
    → patch.name ≡ some new
    → (cfg.name == new) ≡ false
    → (equals (apply_patch cfg patch) cfg ≡ false)
      × (is_renaming cfg patch ≡ true)
      × ((apply_patch cfg patch).name ≡ new)
unfolding equals apply_patch
renamed-differs cfg patch new h other = ground (arith, ==_iff new cfg.name, ==_iff cfg.name new)

-- The error of a write that fails, and what it leaves under a name if it breaks off.
abbrev pub failure_of : Write → Option Error
failure_of succeeds = none
failure_of (refused e) = some e
failure_of (breaks_off e left unreadable) = some e

abbrev pub left_by : Write → String → Option TaskDto
left_by (breaks_off e left unreadable) n = lookup n left
left_by _ n = none

-- A removal that succeeds uses up one write.
remove-now :
    (d : Disk) (id : String) (t : TaskConfig) (later : List Write)
    → d.read_error ≡ none
    → d.writes ≡ succeeds ∷ later
    → stored d id ≡ some t
    → ((remove d id).0 ≡ none)
      × ((remove d id).1.read_error ≡ none)
      × ((remove d id).1.writes ≡ later)
unfolding remove delete_from load_tasks flush_tasks
remove-now d id t later r w h = ground arith

write_table-failing :
    (d : Disk) (t : Dict String TaskDto) (w : Write) (later : List Write) (e : Error) (n : String)
    → failure_of w ≡ some e
    → left_by w n ≡ none
    → stored d n ≡ none
    → ((write_table d t (w ∷ later)).0 ≡ some e) × (stored (write_table d t (w ∷ later)).1 n ≡ none)
write_table-failing d t succeeds later e n f l h = absurd (ground arith)
write_table-failing d t (refused x) later e n f l h = (f, h)
write_table-failing d t (breaks_off x left unreadable) later e n f l h =
    (f, lookup-unmarshal_tasks n left ∙ ap (named n) l)

save-failing :
    (d : Disk) (t : TaskConfig) (w : Write) (later : List Write) (e : Error) (n : String)
    → d.read_error ≡ none
    → d.writes ≡ w ∷ later
    → failure_of w ≡ some e
    → left_by w n ≡ none
    → stored d n ≡ none
    → ((save d t).0 ≡ some e) × (stored (save d t).1 n ≡ none)
unfolding save save_into load_tasks flush_tasks
save-failing d t w later e n r ws f l h =
    let table = marshal_tasks [] (insert t.name t (unmarshal_tasks d.table)) in
    let now : save d t ≡ write_table d table d.writes = rw (r, save) refl in
    let same : save d t ≡ write_table d table (w ∷ later) = now ∙ ap (write_table d table) ws in
    subst (λ p. (p.0 ≡ some e) × (stored p.1 n ≡ none)) (sym same)
      (write_table-failing d table w later e n f l h)

save-whole : (d : Disk) (t : TaskConfig) → (save d t).0 ≡ none → is_broken_off d.writes ≡ false
unfolding save save_into load_tasks flush_tasks
save-whole d t h = ground arith

module _ (deps : Deps) where
  -- Where each name has one entry in the file: an Add that succeeds was of a configuration with no
  -- problem and a name that was not stored; it stores that configuration and changes no other.
  pub add-stored :
      (cfg : TaskConfig) (d : Disk) (n : String)
      → IsDict d.table
      → (add deps cfg d).0 ≡ none
      → (config_problems deps.supports cfg ≡ [])
        × (stored d cfg.name ≡ none)
        × (stored (add deps cfg d).1 n ≡ (if cfg.name == n then some cfg else stored d n))
  unfolding add
  add-stored cfg d n h q =
      let (checks, saved, same) = checked-ok d _ (save d cfg) q in
      let (early, free) = >>-ok _ _ checks in
      let (valid, known) = >>-ok _ _ early in
      (
        validation_result-ok (config_problems deps.supports cfg) tt valid,
        validate_identity-free d cfg.name tt (save-read_error d cfg saved) free,
        ap (λ (r : Option Error × Disk). stored r.1 n) same
            ∙ save-stored d cfg n h (save-whole d cfg saved)
            ∙ rw saved refl,
      )

  -- What a Patch that renames a task comes to once all its checks are passed.
  patch_task-renames :
      (d : Disk) (old new : String) (cfg : TaskConfig) (patch : TaskPatch)
      → d.read_error ≡ none
      → stored d old ≡ some cfg
      → stored d new ≡ none
      → patch.name ≡ some new
      → (cfg.name == new) ≡ false
      → (remove d cfg.name).0 ≡ none
      → patch_recipients deps patch ≡ ok tt
      → config_problems deps.supports (apply_patch cfg patch) ≡ []
      → patch_task deps old patch d ≡ save (remove d cfg.name).1 (apply_patch cfg patch)
  unfolding patch_task patch_found store_patched save_renamed validate_task_config
  patch_task-renames d old new cfg patch r so sn pn other gone pr pc =
      let (changed, renaming, name) = renamed-differs cfg patch new pn other in
      let free = validate_identity-ok d new r sn in
      let found = get-stored d old cfg r so in
      let identity : validate_identity d (apply_patch cfg patch).name ≡ ok tt =
        ap (validate_identity d) name ∙ free in
      ground (arith, pr, found, changed, pc, renaming, identity, gone)

  -- A Patch that renames a task removes the old name before it saves the new one. If its checks pass
  -- and the first write succeeds but the second fails, and leaves the file as it was or one without
  -- both names, Patch returns the error of that write, and the task is stored under neither name.
  pub patch_task-lost :
      (d : Disk) (old new : String) (cfg : TaskConfig) (patch : TaskPatch) (w : Write)
      (later : List Write) (e : Error)
      → IsDict d.table
      → d.read_error ≡ none
      → d.writes ≡ succeeds ∷ w ∷ later
      → failure_of w ≡ some e
      → left_by w old ≡ none
      → left_by w new ≡ none
      → stored d old ≡ some cfg
      → stored d new ≡ none
      → (old == new) ≡ false
      → patch.name ≡ some new
      → patch_recipients deps patch ≡ ok tt
      → config_problems deps.supports (apply_patch cfg patch) ≡ []
      → ((patch_task deps old patch d).0 ≡ some e)
        × (stored (patch_task deps old patch d).1 old ≡ none)
        × (stored (patch_task deps old patch d).1 new ≡ none)
  unfolding patch_task
  patch_task-lost d old new cfg patch w later e h r ws f lo ln so sn other pn pr pc =
      let own = stored-name d old cfg so in
      let next = apply_patch cfg patch in
      let d' = (remove d cfg.name).1 in
      let so' : stored d cfg.name ≡ some cfg = ap (stored d) own ∙ so in
      let other' : (cfg.name == new) ≡ false = rw own other in
      let (gone, readable, failing) = remove-now d cfg.name cfg _ r ws so' in
      let all = patch_task-renames d old new cfg patch r so sn pn other' gone pr pc in
      let removed : (n : String) → stored d' n ≡ (if cfg.name == n then none else stored d n) =
        λ n. remove-stored d cfg.name n h (ground (arith, ws)) ∙ rw gone refl in
      let old_gone = removed old ∙ rw (own, ==_self old) refl in
      let new_none = removed new ∙ rw (other', sn) refl in
      let (failed, no_old) = save-failing d' next w later e old readable failing f lo old_gone in
      let (again, no_new) = save-failing d' next w later e new readable failing f ln new_none in
      (
        ap (λ (p : Option Error × Disk). p.0) all ∙ failed,
        ap (λ (p : Option Error × Disk). stored p.1 old) all ∙ no_old,
        ap (λ (p : Option Error × Disk). stored p.1 new) all ∙ no_new,
      )
