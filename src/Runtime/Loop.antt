-- ===== src/Runtime/Loop.antt =====
-- RunAgentLoop of internal/runtime/loop.go. The events that the source sends to its channel are
-- the list that a run returns, in their order.
pub mod Exits
pub mod Bounds
pub mod Panics
use arch_agent.Base.{
  ℕ, zero, suc, ◌+◌, String, Bool, true, false, Option, none, some, List, [], ◌∷◌, ◌++◌, ltb,
  if◌then◌else◌,
}
use arch_agent.Base.Int.{ℤ, pos, rounds}
use arch_agent.Errors.{
  Error, Result, ok, err, errors_is, as_mistake, sentinel, wrap, context_overflow,
  max_turns_exceeded, too_many_mistakes,
}
use arch_agent.Agent.{Completion, new_content}
use arch_agent.Agent.Message.{Message, user_message, agent_message}
use arch_agent.Runtime.{Tool, Model, Context, Prompts, Setting, an_int, of_type}
use arch_agent.Runtime.Event.{Event, complete, loop_exit, completion_mistake}
use arch_agent.Runtime.Hook.{Hook, Applied, applied, rejected, apply_hooks, as_completion_hook}
use arch_agent.Runtime.ToolCalls.{process_tool_calls}
use arch_agent.Runtime.Compaction.{
  Compacted, compacted, not_compacted, compaction_panics, should_compact, do_compact,
}

abbrev pub default_turns_limit : ℕ
default_turns_limit = 100

abbrev pub max_completion_mistakes : ℕ
max_completion_mistakes = 3

unfoldable pub resolve_max_turns : Option Setting → ℤ
resolve_max_turns none = pos default_turns_limit
resolve_max_turns (some (an_int n)) = n
resolve_max_turns (some (of_type t)) = pos default_turns_limit

-- The two results of processCompletion: a completion, or an error beside a pointer that is nil if
-- the model failed.
pub data Completing : Type 0 where
  completed : Completion → Completing
  completion_failed : Option Completion → Error → Completing

-- The variables of the loop.
pub record LoopState (W : Type 0) : Type 0 where
  pub messages : List Message
  pub mistakes : ℕ
  pub world : W

-- One round of the loop, with the events that it sends: `continue`, `return`, or a panic.
pub data Turn (W : Type 0) : Type 0 where
  continue : List Event → LoopState W → Turn W
  returns : List Event → W → Turn W
  panics : List Event → W → Turn W

-- A whole run.
pub record Run (W : Type 0) : Type 0 where
  pub events : List Event
  pub panicked : Bool
  pub world : W

abbrev pub exit_with : {W : Type 0} → W → Error → Turn W
exit_with w e = returns (loop_exit (some e) ∷ []) w

module _ {W : Type 0} where
  unfoldable pub overflow_turn : LoopState W → Compacted → W → Turn W
  overflow_turn s (compacted ms ev) w =
      continue (ev ∷ []) (record { messages = ms; mistakes = s.mistakes; world = w })
  overflow_turn s (not_compacted e) w = exit_with w (wrap "unhandled overflow" e)
  overflow_turn s compaction_panics w = panics [] w

  -- The mistake is told to the model, behind what it said. `completion.Content` panics where the
  -- completion is nil.
  unfoldable pub caution_turn : LoopState W → Option Completion → Error → String → W → Turn W
  caution_turn s none e msg w = panics (completion_mistake e ∷ []) w
  caution_turn s (some completion) e msg w =
      let said = agent_message (new_content completion.content) [] in
      let caution = user_message (new_content msg) in
      continue (completion_mistake e ∷ []) (record {
        messages = s.messages ++ said ∷ caution ∷ [];
        mistakes = s.mistakes + 1;
        world = w;
      })

  unfoldable pub mistake_turn : LoopState W → Option Completion → Error → String → W → Turn W
  unfolding caution_turn
  mistake_turn s c e msg w =
      if ltb max_completion_mistakes (s.mistakes + 1)
      then returns (completion_mistake e ∷ loop_exit (some (sentinel too_many_mistakes)) ∷ []) w
      else caution_turn s c e msg w

  -- `messages = append(messages, agentMsg)`
  abbrev pub remember : LoopState W → Completion → LoopState W
  remember s c = record s {
    messages = s.messages ++ agent_message (new_content c.content) c.tool_calls ∷ [];
  }

  -- The run behind a round, given the rounds that are left.
  unfoldable pub resume : (LoopState W → Run W) → Turn W → Run W
  resume rest (continue evs s) = let r = rest s in record r { events = evs ++ r.events }
  resume rest (returns evs w) = record { events = evs; panicked = false; world = w }
  resume rest (panics evs w) = record { events = evs; panicked = true; world = w }

-- What the loop is called with.
module _ {W : Type 0} (prompts : Prompts) (ctx : Context W) (model : Model W)
    (tools : List (Tool W)) (hooks : List (Hook W)) where
  -- The two results behind the hooks: their completion stands beside their error.
  unfoldable pub hooked_completion : Applied Completion → W → Completing × W
  hooked_completion (applied c) w = (completed c, w)
  hooked_completion (rejected c e) w = (completion_failed c e, w)

  unfoldable pub apply_to_answer : Result Completion → W → Completing × W
  unfolding hooked_completion
  apply_to_answer (err e) w = (completion_failed none e, w)
  apply_to_answer (ok completion) w =
      let (r, w') = apply_hooks as_completion_hook hooks completion w in hooked_completion r w'

  unfoldable pub process_completion : List Message → W → Completing × W
  unfolding apply_to_answer
  process_completion messages w =
      let (r, w') = model.complete tools messages w in apply_to_answer r w'

  unfoldable pub failed_turn : LoopState W → Option Completion → Error → W → Turn W
  unfolding overflow_turn mistake_turn
  failed_turn s c e w =
      if errors_is e context_overflow
      then (let (r, w') = do_compact prompts model s.messages w in overflow_turn s r w')
      else elim (as_mistake e) [
        | some msg ↦ mistake_turn s c e msg w
        | none ↦ exit_with w (wrap "completion" e)
      ]

  -- The tool calls of a completion, and the end of the round.
  unfoldable pub tools_turn : LoopState W → List Event → Completion → W → Turn W
  tools_turn s sent c w =
      let (msgs, evs, w') = process_tool_calls tools hooks c.tool_calls w in
      if c.done
      then returns (sent ++ evs ++ loop_exit none ∷ []) w'
      else continue (sent ++ evs)
          (record { messages = s.messages ++ msgs; mistakes = s.mistakes; world = w' })

  unfoldable pub compacted_turn : LoopState W → Completion → Compacted → W → Turn W
  unfolding tools_turn
  compacted_turn s c (compacted ms ev) w =
      tools_turn (record s { messages = ms }) (complete c ∷ ev ∷ []) c w
  compacted_turn s c (not_compacted e) w =
      returns (complete c ∷ loop_exit (some (wrap "thereshold compaction" e)) ∷ []) w
  compacted_turn s c compaction_panics w = panics (complete c ∷ []) w

  unfoldable pub completed_turn : LoopState W → Completion → W → Turn W
  unfolding compacted_turn
  completed_turn s c w =
      let s' = remember s c in
      if should_compact c.input_tokens c.completion_tokens model.context_limit
      then (let (r, w') = do_compact prompts model s'.messages w in compacted_turn s' c r w')
      else tools_turn s' (complete c ∷ []) c w

  unfoldable pub completing_turn : LoopState W → Completing → W → Turn W
  unfolding failed_turn completed_turn
  completing_turn s (completed c) w = completed_turn s c w
  completing_turn s (completion_failed c e) w = failed_turn s c e w

  unfoldable pub turn : LoopState W → Turn W
  unfolding process_completion completing_turn
  turn s = elim (ctx.err s.world) [
    | some e ↦ exit_with s.world e
    | none ↦ let (r, w) = process_completion s.messages s.world in completing_turn s r w
  ]

  -- The rounds that are left.
  unfoldable pub run_turns : ℕ → LoopState W → Run W
  unfolding turn resume
  run_turns zero s = record {
    events = loop_exit (some (sentinel max_turns_exceeded)) ∷ [];
    panicked = false;
    world = s.world;
  }
  run_turns (suc n) s = resume (run_turns n) (turn s)

  unfoldable pub run_agent_loop : List Message → W → Run W
  unfolding run_turns
  run_agent_loop messages w =
      run_turns (rounds (resolve_max_turns model.max_turns))
        (record { messages = messages; mistakes = 0; world = w })
