-- ===== src/Memory/Consolidation.antt =====
-- ConsolidationService of internal/memory/consolidation.go. Times are seconds of a clock without
-- changes to daylight saving, a day is 86400 of them. The tools and hooks are those of the loop.
pub mod Schedule
use arch_agent.Agent.{Agent, new_content}
use arch_agent.Agent.Message.{Message, system_message, user_message}
use arch_agent.Base.{
  ◌/◌, Bool, List, Option, String, [], if◌then◌else◌, ltb, none, not, some, ℕ, ◌&&◌, ◌*◌, ◌++◌, ◌+◌,
  ◌∷◌,
}
use arch_agent.Base.Keys.{Eq, string_eq, ◌==◌}
use arch_agent.Errors.{Error, Result, err, errors_join, gather_errors, ok, text, ◌>>=◌}
use arch_agent.Runtime.{Context, Model, Prompts, Tool}
use arch_agent.Runtime.Hook.{Hook}
use arch_agent.Runtime.Loop.{Run, run_agent_loop}

pub record ConsolidatorConfig : Type 0 where
  pub enabled : Bool
  pub model_name : String
  pub instruction : String

abbrev is_zero : ConsolidatorConfig → Bool
is_zero c = not c.enabled && ((c.model_name == "") && (c.instruction == ""))

-- The variables of the service.
pub record Consolidator (W : Type 0) : Type 0 where
  pub model_name : String
  pub model : Option (Model W)
  pub enabled : Bool
  pub instruction : String

-- What the service was made with: the registry of models, the repository of the configuration and of
-- the agents, the tools, the hooks of an agent, and the prompts.
pub record Parts (W : Type 0) : Type 0 where
  pub get_model : String → Result (Model W)
  pub load : Result ConsolidatorConfig
  pub save : ConsolidatorConfig → Option Error
  pub get_agent : String → Result Agent
  pub all_agents : Result (List Agent)
  pub tools : List (Tool W)
  pub resolve_hooks : String → List (Hook W)
  pub prompts : Prompts
  pub context : Context W
  pub memorization : String → String
  pub memorization_request : String → ℕ → String → String

module _ {W : Type 0} (parts : Parts W) where
  unfoldable pub take_model :
      ConsolidatorConfig → Result (Model W) → Consolidator W → Option Error × Consolidator W
  take_model cfg (err e) s = (some e, s)
  take_model cfg (ok m) s = (
    none,
    record {
      model_name = cfg.model_name;
      model = some m;
      enabled = cfg.enabled;
      instruction = cfg.instruction;
    },
  )

  unfoldable pub load_loaded :
      Result ConsolidatorConfig → Consolidator W → Option Error × Consolidator W
  unfolding take_model
  load_loaded (err e) s = (some e, s)
  load_loaded (ok cfg) s =
      if is_zero cfg then (none, s) else take_model cfg (parts.get_model cfg.model_name) s

  unfoldable pub load_consolidator : Consolidator W → Option Error × Consolidator W
  unfolding load_loaded
  load_consolidator s = load_loaded parts.load s

  -- The two messages that the loop starts with.
  abbrev pub memory_messages : ℕ → String → String → List Message
  memory_messages now agent_id instruction =
      system_message (new_content (parts.memorization agent_id))
      ∷ user_message (new_content (parts.memorization_request agent_id now instruction))
      ∷ []

  unfoldable pub consolidate_with :
      Option (Model W) → ℕ → Consolidator W → Agent → W → Result (Run W)
  consolidate_with none now s agt w = err (text "consolidation model is not set")
  consolidate_with (some model) now s agt w = ok (
      run_agent_loop parts.prompts parts.context model parts.tools (parts.resolve_hooks agt.id)
        (memory_messages now agt.id s.instruction) w)

  unfoldable pub consolidate_memory_for : ℕ → Consolidator W → Agent → W → Result (Run W)
  unfolding consolidate_with
  consolidate_memory_for now s agt w =
      if agt.has_memory
      then consolidate_with s.model now s agt w
      else err (text "agent memory is disabled")

  unfoldable pub consolidate_immidate : ℕ → Consolidator W → String → W → Result (Run W)
  unfolding consolidate_memory_for
  consolidate_immidate now s agent_id w =
      parts.get_agent agent_id >>= λ agt. consolidate_memory_for now s agt w

  abbrev after_run : W → Result (Run W) → W × List (Option Error)
  after_run w (err e) = (w, some e ∷ [])
  after_run w (ok run) = (run.world, [])

  -- The loop over the agents: the world behind their runs, and the errors in their order.
  unfoldable pub consolidate_all : ℕ → Consolidator W → List Agent → W → W × List (Option Error)
  unfolding consolidate_memory_for
  consolidate_all now s [] w = (w, [])
  consolidate_all now s (agt ∷ agents) w =
      let (w', e) =
        if agt.has_memory then after_run w (consolidate_memory_for now s agt w) else (w, []) in
      let (w'', es) = consolidate_all now s agents w' in (w'', e ++ es)

  abbrev in_background : ℕ → Consolidator W → Result (List Agent) → W → Option Error × W
  in_background now s (err e) w = (some e, w)
  in_background now s (ok agents) w =
      let (w', es) = consolidate_all now s agents w in (errors_join (gather_errors es), w')

  unfoldable pub consolidate_in_background : ℕ → Consolidator W → W → Option Error × W
  unfolding consolidate_all
  consolidate_in_background now s w = in_background now s parts.all_agents w

  abbrev run_tick : Option (Model W) → ℕ → Consolidator W → W → W
  run_tick none now s w = w
  run_tick (some model) now s w = (consolidate_in_background now s w).1

  -- What Run does at a tick: it asks that the service is enabled and has a model.
  unfoldable pub automatic_consolidation : ℕ → Consolidator W → W → W
  unfolding consolidate_in_background
  automatic_consolidation now s w = if s.enabled then run_tick s.model now s w else w

  abbrev checked_config : ConsolidatorConfig → Result (Model W) → Option Error
  checked_config cfg (err e) = some e
  checked_config cfg (ok m) = parts.save cfg

  -- SaveConfig
  unfoldable pub save_consolidator_config : ConsolidatorConfig → Option Error
  save_consolidator_config cfg = checked_config cfg (parts.get_model cfg.model_name)

abbrev pub day : ℕ
day = 86_400

abbrev pub hour_23 : ℕ
hour_23 = 82_800

-- NextConsolidation, at `now` seconds behind a midnight.
unfoldable pub next_consolidation : ℕ → ℕ
next_consolidation now =
    let today = now / day * day + hour_23 in if ltb now today then today else today + day
