-- ===== src/Runtime/Event.antt =====
-- internal/runtime/events.go. The time stamp of an event is not modelled: nothing reads it.
use arch_agent.Base.{String, Bool, true, false, Option, List}
use arch_agent.Errors.{Error}
use arch_agent.Agent.{ToolCall, ToolResult, Completion}
use arch_agent.Agent.Message.{Message}

pub data Event : Type 0 where
  compaction : String → List Message → Event
  complete : Completion → Event
  tool_result : ToolCall → ToolResult → Event
  tool_call_err : String → String → Error → Event
  loop_exit : Option Error → Event
  completion_mistake : Error → Event

abbrev pub is_loop_exit : Event → Bool
is_loop_exit (loop_exit e) = true
is_loop_exit _ = false

abbrev pub is_complete : Event → Bool
is_complete (complete c) = true
is_complete _ = false

abbrev pub is_mistake : Event → Bool
is_mistake (completion_mistake e) = true
is_mistake _ = false
