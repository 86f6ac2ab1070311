-- ===== src/Runtime.antt =====
-- internal/runtime: the loop in which a model and its tools take turns. This file has what the
-- loop is given: the model, the tools and the hooks. Each acts on a world `W`, which stands for
-- all that is outside of the loop (the provider, the network, the disk, the clock).
pub mod Event
pub mod Hook
pub mod ToolCalls
pub mod Compaction
pub mod Loop
use arch_agent.Base.{ℕ, String, Option, List}
use arch_agent.Base.Int.{ℤ}
use arch_agent.Errors.{Error, Result}
use arch_agent.Agent.{ContentPart, ToolCall, ToolResult, Completion}
use arch_agent.Agent.Message.{Message}

-- What a call of Tool.Call ends with: the content, an error, or a panic.
pub data CallOutcome : Type 0 where
  returned : List ContentPart → CallOutcome
  failed : Error → CallOutcome
  panicked : String → CallOutcome

-- agent.Tool, with its TimeOut() if it has that method, in nanoseconds. The deadline of the
-- context is the first argument of a call, the JSON text of the arguments the second.
pub record Tool (W : Type 0) : Type 0 where
  pub name : String
  pub time_out : Option ℕ
  pub call : ℕ → String → W → CallOutcome × W

-- A value of the settings: an int, or a value of another type.
pub data Setting : Type 0 where
  an_int : ℤ → Setting
  of_type : String → Setting

-- agent.Model. `max_turns` is what its settings hold under that key. Complete returns a completion
-- or an error, as every implementation of the interface does.
pub record Model (W : Type 0) : Type 0 where
  pub max_turns : Option Setting
  pub context_limit : ℤ
  pub complete : List (Tool W) → List Message → W → Result Completion × W

-- The context of the run, read between two turns: ctx.Err() once it is done.
pub record Context (W : Type 0) : Type 0 where
  pub err : W → Option Error

-- The texts of the package prompt that this package puts into messages.
pub record Prompts : Type 0 where
  pub compaction : String
  pub summary_explanation : String → String

-- AfterToolCall of hook.go
pub record AfterToolCall : Type 0 where
  pub tool_call : ToolCall
  pub tool_result : ToolResult
