-- ===== src/Tests/Runs.antt =====
-- Examples for internal/runtime. The world counts the completions that the model was asked for.
use arch_agent.Agent.{Completion, ToolCall, new_content}
use arch_agent.Agent.Merge.Content.{answered, gather}
use arch_agent.Agent.Message.{Message, agent_message, system_message, user_message}
use arch_agent.Base.{
  All, List, [], arith, false, length, none, refl, some, suc, true, zero, ℕ, ◌∷◌, ◌≡◌, ◌≤◌,
}
use arch_agent.Base.Int.{pos}
use arch_agent.Errors.{Error, Result, agent_mistake, as_mistake, err, ok}
use arch_agent.Runtime.{Context, Model, Prompts, Tool, an_int, returned}
use arch_agent.Runtime.Compaction.{
  compact, compacted, compaction_context, compaction_panics, do_compact, finish_compaction,
  not_compacted,
}
use arch_agent.Runtime.Event.{Event, is_complete, is_mistake, loop_exit}
use arch_agent.Runtime.Hook.{Hook, applied, not_a_hook, tool_call_hook}
use arch_agent.Runtime.Loop.{resolve_max_turns, run_agent_loop}
use arch_agent.Runtime.Loop.Bounds.{count_events, run_agent_loop-bounds}
use arch_agent.Runtime.Loop.Exits.{RunExits, run_agent_loop-RunExits}
use arch_agent.Runtime.ToolCalls.{process_tool_calls}
use arch_agent.Runtime.ToolCalls.Answers.{KeepsIds, process_tool_calls-answers}
use arch_agent.Agent.Message.{role}
use arch_agent.Agent.Message.{tool_calls, tool_result_message}
use arch_agent.Runtime.Compaction.{assemble, role_safe_pushback}

abbrev pub prompts : Prompts
prompts = record { compaction = "sum up"; summary_explanation = λ s. s }

abbrev pub live : Context ℕ
live = record { err = λ w. none }

abbrev echo_call : ToolCall
echo_call = record { id = "c1"; tool_name = "echo"; arguments = "hi" }

abbrev lost_call : ToolCall
lost_call = record { id = "c2"; tool_name = "lost"; arguments = "hi" }

abbrev pub echo : Tool ℕ
echo = record {
  name = "echo";
  time_out = none;
  call = λ deadline args w. (returned (new_content args), w);
}

-- The model calls two tools, one of which there is not, and is done.
abbrev script : ℕ → Result Completion
script zero = ok (record {
  tool_calls = echo_call ∷ lost_call ∷ [];
  content = "let me see";
  done = false;
  input_tokens = 10;
  completion_tokens = 5;
})
script (suc n) = ok (record {
  tool_calls = [];
  content = "here it is";
  done = true;
  input_tokens = 20;
  completion_tokens = 5;
})

abbrev pub helper : Model ℕ
helper = record {
  max_turns = some (an_int (pos 5));
  context_limit = pos 1000;
  complete = λ tools msgs w. (script w, suc w);
}

-- A model that only fails.
abbrev mistaken : Model ℕ
mistaken = record {
  max_turns = none;
  context_limit = pos 1000;
  complete = λ tools msgs w. (err (agent_mistake "bad"), w);
}

abbrev pub hooks : List (Hook ℕ)
hooks = tool_call_hook (λ c w. (applied c, w)) ∷ not_a_hook ∷ []

abbrev pub greeting : List Message
greeting = system_message (new_content "be kind") ∷ user_message (new_content "hello") ∷ []

abbrev long_talk : List Message
long_talk =
    system_message (new_content "be kind")
    ∷ user_message (new_content "one")
    ∷ agent_message (new_content "two") []
    ∷ user_message (new_content "three")
    ∷ agent_message (new_content "four") []
    ∷ []

script-ok : (n : ℕ) (e : Error) → script n ≡ err e → as_mistake e ≡ none
script-ok zero e h = absurd (ground arith)
script-ok (suc n) e h = absurd (ground arith)

KeepsIds-hooks : All KeepsIds hooks
KeepsIds-hooks = ((λ c w c' h. ground arith, tt), ((tt, tt), tt))

run_agent_loop-RunExits_example :
    RunExits (run_agent_loop prompts live helper (echo ∷ []) hooks greeting 0)
run_agent_loop-RunExits_example =
    run_agent_loop-RunExits prompts live helper (echo ∷ []) hooks greeting 0

run_agent_loop-bounds_example :
    let evs = (run_agent_loop prompts live helper (echo ∷ []) hooks greeting 0).events in
    (count_events is_complete evs ≤ 5) × (count_events is_mistake evs ≤ 4)
unfolding resolve_max_turns
run_agent_loop-bounds_example =
    run_agent_loop-bounds prompts live helper (echo ∷ []) hooks greeting 0

pub helper-safe :
    (tools : List (Tool ℕ)) (msgs : List Message) (w : ℕ) (e : Error)
    → (helper.complete tools msgs w).0 ≡ err e
    → as_mistake e ≡ none
helper-safe tools msgs w e h = script-ok w e h

process_tool_calls-answers_example :
    let msgs = (process_tool_calls (echo ∷ []) hooks (echo_call ∷ lost_call ∷ []) 0).0 in
    (gather answered msgs ≡ "c1" ∷ "c2" ∷ []) × (length msgs ≡ 2)
process_tool_calls-answers_example =
    process_tool_calls-answers hooks KeepsIds-hooks (echo ∷ []) (echo_call ∷ lost_call ∷ []) 0

abbrev outcome : List Message → List Message × Event
outcome msgs = elim (do_compact prompts helper msgs 1).0 [
  | compacted ms ev ↦ (ms, ev)
  | not_compacted e ↦ ([], loop_exit none)
  | compaction_panics ↦ ([], loop_exit none)
]

abbrev called : List Message
called =
    user_message (new_content "say hi")
    ∷ agent_message (new_content "") (echo_call ∷ [])
    ∷ tool_result_message "c1" (new_content "hi")
    ∷ []

-- Compaction may part a tool call from its answer: the answer stays, the call is summarized.
test-do_compact :
    let ms = (outcome called).0 in
    (gather answered ms ≡ "c1" ∷ []) × (gather tool_calls ms ≡ []) × (length ms ≡ 2)
unfolding do_compact compact finish_compaction compaction_context assemble role_safe_pushback role
    tool_calls
test-do_compact = (refl, refl, refl)
