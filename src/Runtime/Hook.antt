-- ===== src/Runtime/Hook.antt =====
-- internal/runtime/hook.go
use arch_agent.Base.{Option, none, some, List, [], ◌∷◌}
use arch_agent.Errors.{Error}
use arch_agent.Agent.{ToolCall, Completion}
use arch_agent.Runtime.{AfterToolCall}

-- What Apply returns: the new event, or an error beside a pointer that may be nil. That a hook
-- returns nil with no error is excluded, as no hook of the program does.
pub data Applied (T : Type 0) : Type 0 where
  applied : T → Applied T
  rejected : Option T → Error → Applied T

-- A value of `[]any`. A type has one method Apply, so it is a hook of one of the three kinds, or
-- none.
pub data Hook (W : Type 0) : Type 0 where
  completion_hook : (Completion → W → Applied Completion × W) → Hook W
  tool_call_hook : (ToolCall → W → Applied ToolCall × W) → Hook W
  tool_result_hook : (AfterToolCall → W → Applied AfterToolCall × W) → Hook W
  not_a_hook : Hook W

module _ {W : Type 0} where
  -- The type assertions `h.(Hook[T])`.
  abbrev pub as_completion_hook : Hook W → Option (Completion → W → Applied Completion × W)
  as_completion_hook (completion_hook f) = some f
  as_completion_hook _ = none

  abbrev pub as_tool_call_hook : Hook W → Option (ToolCall → W → Applied ToolCall × W)
  as_tool_call_hook (tool_call_hook f) = some f
  as_tool_call_hook _ = none

  abbrev pub as_tool_result_hook : Hook W → Option (AfterToolCall → W → Applied AfterToolCall × W)
  as_tool_result_hook (tool_result_hook f) = some f
  as_tool_result_hook _ = none

module _ {W T : Type 0} where
  -- The rest of the loop behind one call of Apply: an error ends it.
  unfoldable pub after_hook : (T → W → Applied T × W) → Applied T → W → Applied T × W
  after_hook rest (applied new) w = rest new w
  after_hook rest (rejected new e) w = (rejected new e, w)

  unfoldable pub next_hook :
      (T → W → Applied T × W) → Option (T → W → Applied T × W) → T → W → Applied T × W
  unfolding after_hook
  next_hook rest none event w = rest event w
  next_hook rest (some f) event w = let (r, w') = f event w in after_hook rest r w'

  -- ApplyHooks at the type whose assertion is `typed`.
  unfoldable pub apply_hooks :
      (Hook W → Option (T → W → Applied T × W)) → List (Hook W) → T → W → Applied T × W
  unfolding next_hook
  apply_hooks typed [] event w = (applied event, w)
  apply_hooks typed (h ∷ hs) event w = next_hook (apply_hooks typed hs) (typed h) event w
