-- ===== src/Chat/Forward/Conversation.antt =====
-- What a chat leaves behind (internal/chat/service.go): the session that is saved, and the events
-- that the sink is sent.
use arch_agent.Agent.{ToolCall, new_content}
use arch_agent.Agent.Message.{Message, agent_message, new_tool_result_message}
use arch_agent.Base.{
  true, append_assoc, Bool, List, [], append-nil, arith, false, map, sym, ◌++◌, ◌∙◌, ◌∷◌, ◌≡◌,
}
use arch_agent.Chat.Forward.{Forwarded, forward, handle, out_event}
use arch_agent.Runtime.Event.{
  Event, compaction, complete, completion_mistake, loop_exit, tool_call_err, tool_result,
}
use arch_agent.Runtime.Hook.{Hook, applied, tool_call_hook}

-- The run shortens the context of the agent.
abbrev pub compacts : List Event → Bool
compacts [] = false
compacts (compaction summary ctx ∷ evs) = true
compacts (ev ∷ evs) = compacts evs

-- A hook for tool calls passes on the call that it is given, and writes nothing into it.
abbrev pub KeepsCalls : {W : Type 0} → Hook W → Type 0
KeepsCalls {W} (tool_call_hook f) = (c c' : ToolCall) (w : W) → (f c w).0 ≡ applied c' → c' ≡ c
KeepsCalls _ = Unit

-- What a run adds to a conversation: what the model said and what its tools returned, from the last
-- compaction on. Mistakes and errors add nothing.
abbrev pub conversation : List Message → List Event → List Message
conversation ms [] = ms
conversation ms (complete c ∷ evs) =
    conversation (ms ++ agent_message (new_content c.content) c.tool_calls ∷ []) evs
conversation ms (tool_result call r ∷ evs) = conversation (ms ++ new_tool_result_message r ∷ []) evs
conversation ms (compaction summary ctx ∷ evs) = conversation ctx evs
conversation ms (tool_call_err id name e ∷ evs) = conversation ms evs
conversation ms (loop_exit e ∷ evs) = conversation ms evs
conversation ms (completion_mistake e ∷ evs) = conversation ms evs

handle-sent : (observe : Bool) (f : Forwarded) (ev : Event) → (handle observe f ev).sent ≡ f.sent
unfolding handle
handle-sent observe f ev = ground arith

pub forward-sent :
    (observe : Bool) (evs : List Event) (f : Forwarded)
    → (forward observe f evs).sent ≡ f.sent ++ map out_event evs
unfolding forward
forward-sent observe [] f = sym (append-nil f.sent)
forward-sent observe (ev ∷ evs) f =
    forward-sent observe evs _
    ∙ rw handle-sent (append_assoc f.sent (out_event ev ∷ []) (map out_event evs))
