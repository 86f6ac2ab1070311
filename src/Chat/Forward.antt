-- ===== src/Chat/Forward.antt =====
-- runAgentLoopWithCallbacks and the end of Chat in internal/chat/service.go: the loop over the
-- events of a run. The run is a goroutine of its own; what it sends does not depend on the reader,
-- so the reader handles the list of all that it sent.
pub mod Conversation
use arch_agent.Agent.{Completion, new_content}
use arch_agent.Agent.Message.{
  Message, agent_message, content, new_tool_result_message, tool_calls, user,
}
use arch_agent.Base.{Bool, List, Option, [], false, if◌then◌else◌, none, some, true, ◌++◌, ◌∷◌}
use arch_agent.Chat.{Deps, Prepared, Request, prepare}
use arch_agent.Errors.{Error, Result, canceled, err, errors_is, ok, text}
use arch_agent.Runtime.{Context, Prompts, panicked}
use arch_agent.Runtime.Event.{Event, compaction, complete, loop_exit, tool_result}
use arch_agent.Runtime.Hook.{Hook}
use arch_agent.Runtime.Loop.{run_agent_loop}
use arch_agent.Session.{Session, add_messages, apply_completion, overwrite_messages}

-- The session and what left the service: the sessions that were saved, the events sent to the sink,
-- and the messages committed to the activity log, each the earliest first.
pub record Forwarded : Type 0 where
  pub session : Session
  pub saved : List Session
  pub sent : List Event
  pub committed : List Message

-- outEv
unfoldable pub out_event : Event → Event
out_event (loop_exit (some e)) = if errors_is e canceled then loop_exit none else loop_exit (some e)
out_event ev = ev

abbrev pub committed_by : Bool → Completion → List Message
committed_by true c = agent_message (new_content c.content) c.tool_calls ∷ []
committed_by false c = []

-- The switch over the type of an event, whose other cases only log. An error of Save is logged.
unfoldable pub handle : Bool → Forwarded → Event → Forwarded
handle observe f (loop_exit e) = record f { saved = f.saved ++ f.session ∷ [] }
handle observe f (compaction summary ctx) = record f {
  session = overwrite_messages f.session 0 ctx;
}
handle observe f (complete c) = record f {
  session = apply_completion f.session c;
  committed = f.committed ++ committed_by observe c;
}
handle observe f (tool_result call r) = record f {
  session = add_messages f.session (new_tool_result_message r ∷ []);
}
handle observe f ev = f

unfoldable pub forward : Bool → Forwarded → List Event → Forwarded
unfolding handle out_event
forward observe f [] = f
forward observe f (ev ∷ evs) =
    let f' = handle observe f ev in
    forward observe (record f' { sent = f'.sent ++ out_event ev ∷ [] }) evs

-- What Chat ends with. If the run panics, the program ends with it: `panicked`.
pub record Chatted (W : Type 0) : Type 0 where
  pub result : Option Error
  pub forwarded : Option Forwarded
  pub panicked : Bool
  pub world : W

module _ {W : Type 0} where
  -- The state of the forwarding when the loop starts.
  abbrev pub initial_forwarding : Bool → Prepared W → Forwarded
  initial_forwarding logging p = record {
    session = p.session;
    saved = [];
    sent = [];
    committed = if logging then p.user ∷ [] else [];
  }

  unfoldable pub run_agent_loop_with_callbacks :
      Prompts → Context W → List (Hook W) → Bool → Prepared W → W → Chatted W
  unfolding forward
  run_agent_loop_with_callbacks prompts ctx hooks observe p w =
      let run = run_agent_loop prompts ctx p.model p.tool_kit hooks p.agent_context w in
      record {
        result = none;
        forwarded = some (forward observe (initial_forwarding observe p) run.events);
        panicked = run.panicked;
        world = run.world;
      }

  unfoldable pub chat_prepared :
      Prompts → Context W → List (Hook W) → Bool → Result (Prepared W) → W → Chatted W
  unfolding run_agent_loop_with_callbacks
  chat_prepared prompts ctx hooks logging (err e) w = record {
    result = some e;
    forwarded = none;
    panicked = false;
    world = w;
  }
  chat_prepared prompts ctx hooks logging (ok p) w =
      run_agent_loop_with_callbacks prompts ctx hooks logging p w

  unfoldable pub chat : Prompts → Context W → List (Hook W) → Deps W → Request W → W → Chatted W
  unfolding chat_prepared prepare
  chat prompts ctx hooks deps r w = chat_prepared prompts ctx hooks r.logging (prepare deps r) w
