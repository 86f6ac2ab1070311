-- ===== src/Runtime/ToolCalls.antt =====
-- The tool calls of internal/runtime/loop.go: processToolCalls down to resolveCallSafely. A hook
-- that writes through its pointer to the call is a function that returns the new call here, so the
-- call that an event carries is the one that the completion asked for.
pub mod Answers
use arch_agent.Base.{
  ℕ, String, Bool, true, false, Option, none, some, List, [], ◌∷◌, ◌++◌, if◌then◌else◌, concat,
  join,
}
use arch_agent.Base.Keys.{string_eq}
use arch_agent.Base.Dict.{Dict, lookup, insert}
use arch_agent.Errors.{
  Error, Result, ok, err, errors_is, as_mistake, agent_mistake, text, deadline_exceeded,
}
use arch_agent.Agent.{ToolCall, ToolResult, new_content, new_tool_result}
use arch_agent.Agent.Message.{Message, new_tool_result_message}
use arch_agent.Runtime.{Tool, CallOutcome, returned, failed, panicked, AfterToolCall}
use arch_agent.Runtime.Event.{Event, tool_result, tool_call_err}
use arch_agent.Runtime.Hook.{
  Hook, Applied, applied, rejected, apply_hooks, as_tool_call_hook, as_tool_result_hook,
}

abbrev pub default_tool_call_timeout : ℕ
default_tool_call_timeout = 30_000_000_000

abbrev pub mistake_texts : Option String → List String
mistake_texts none = []
mistake_texts (some msg) = msg ∷ []

unfoldable pub handle_tool_call_err : String → Error → ToolResult
handle_tool_call_err call_id e =
    let timeout = if errors_is e deadline_exceeded then "timeout error" ∷ [] else [] in
    new_tool_result call_id
      (new_content (join ", " ("toolcall error" ∷ timeout ++ mistake_texts (as_mistake e))))

-- What a call that failed, or did not, is reported as, and the result that stands for it.
unfoldable pub report : ToolCall → Result ToolResult → List Event × ToolResult
unfolding handle_tool_call_err
report call (ok result) = (tool_result call result ∷ [], result)
report call (err e) =
    let result = handle_tool_call_err call.id e in
    (tool_call_err call.tool_name call.arguments e ∷ tool_result call result ∷ [], result)

module _ {W : Type 0} where
  -- toolsToMap: of two tools with one name the later one stays.
  unfoldable pub tools_to_map : Dict String (Tool W) → List (Tool W) → Dict String (Tool W)
  tools_to_map tool_map [] = tool_map
  tools_to_map tool_map (t ∷ ts) = tools_to_map (insert t.name t tool_map) ts

  -- contextWithToolAwareTimeout, as the time that it allows.
  unfoldable pub tool_aware_timeout : Tool W → ℕ
  tool_aware_timeout t = elim t.time_out [ none ↦ default_tool_call_timeout | some custom ↦ custom ]

  -- A panic of the tool is recovered into an error.
  unfoldable pub outcome_result : Tool W → ToolCall → CallOutcome → Result ToolResult
  outcome_result t call (returned content) = ok (new_tool_result call.id content)
  outcome_result t call (failed e) = err e
  outcome_result t call (panicked p) =
      err (text (concat ("tool " ∷ t.name ∷ " panicked: " ∷ p ∷ [])))

  unfoldable pub resolve_call_safely : Tool W → ToolCall → W → Result ToolResult × W
  unfolding outcome_result tool_aware_timeout
  resolve_call_safely t call w =
      let (outcome, w') = t.call (tool_aware_timeout t) call.arguments w in
      (outcome_result t call outcome, w')

  -- What is left of a result when the hooks behind the call have seen it.
  unfoldable pub finish_call : Applied AfterToolCall → W → Result ToolResult × W
  finish_call (applied after) w = (ok after.tool_result, w)
  finish_call (rejected after e) w = (err e, w)

  unfoldable pub post_call :
      List (Hook W) → ToolCall → Result ToolResult → W → Result ToolResult × W
  unfolding finish_call
  post_call hooks call (err e) w = (err e, w)
  post_call hooks call (ok result) w =
      let after : AfterToolCall = record { tool_call = call; tool_result = result } in
      let (r, w') = apply_hooks as_tool_result_hook hooks after w in finish_call r w'

  unfoldable pub make_call : Tool W → List (Hook W) → Applied ToolCall → W → Result ToolResult × W
  unfolding resolve_call_safely post_call
  make_call t hooks (rejected c e) w = (err e, w)
  make_call t hooks (applied c) w =
      let (r, w') = resolve_call_safely t c w in post_call hooks c r w'

  -- processToolCall behind the lookup of the tool. That hooks are applied only to a list that is
  -- not empty changes nothing: no hooks leave the call as it is.
  unfoldable pub call_tool : Tool W → List (Hook W) → ToolCall → W → Result ToolResult × W
  unfolding make_call
  call_tool t hooks call w =
      let (r, w') = apply_hooks as_tool_call_hook hooks call w in make_call t hooks r w'

  unfoldable pub process_tool_call :
      Dict String (Tool W) → List (Hook W) → ToolCall → W → Result ToolResult × W
  unfolding call_tool
  process_tool_call tool_map hooks call w = elim (lookup call.tool_name tool_map) [
    | none ↦ (err (agent_mistake (concat ("tool " ∷ call.tool_name ∷ " is not exist" ∷ []))), w)
    | some t ↦ call_tool t hooks call w
  ]

  -- The loop of processToolCalls: the messages, the events and the world behind it.
  unfoldable pub process_calls :
      Dict String (Tool W) → List (Hook W) → List ToolCall → W → List Message × List Event × W
  process_calls tool_map hooks [] w = ([], [], w)
  process_calls tool_map hooks (call ∷ calls) w =
      let (r, w') = process_tool_call tool_map hooks call w in
      let (events, result) = report call r in
      let (msgs, later, w'') = process_calls tool_map hooks calls w' in
      (new_tool_result_message result ∷ msgs, events ++ later, w'')

  unfoldable pub process_tool_calls :
      List (Tool W) → List (Hook W) → List ToolCall → W → List Message × List Event × W
  unfolding process_calls tools_to_map
  process_tool_calls tools hooks calls w = process_calls (tools_to_map [] tools) hooks calls w
