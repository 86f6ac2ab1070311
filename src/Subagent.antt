-- ===== src/Subagent.antt =====
-- internal/subagent/subagent.go: an agent that calls another, and the tool over it in
-- internal/tools/call_agent.go. The context of a call carries the stack of the calls around it.
pub mod Answer
use arch_agent.Agent.{new_content}
use arch_agent.Chat.{Deps, Request}
use arch_agent.Chat.Forward.{Chatted, chat}
use arch_agent.Files.Sessions.{SessionDisk, create_session_file}
use arch_agent.Runtime.Event.{Event, complete, loop_exit}
use arch_agent.Runtime.Hook.{Hook}
use arch_agent.Runtime.{Context, Prompts}
use arch_agent.Errors.{
  Error, Result, agent_mistake, call_stack_overflow, err, errors_is, is_not_exist, ok, sentinel,
}
use arch_agent.Agent.Message.{content, user_message}
use arch_agent.Base.{
  Bool, List, Option, String, [], concat, false, if◌then◌else◌, leb, length, none, some, true, ℕ,
  ◌∷◌,
}
use arch_agent.Runtime.{panicked}
use arch_agent.Agent.{ContentPart}

abbrev pub max_sub_agent_depth : ℕ
max_sub_agent_depth = 3

unfoldable pub sub_agent_call_stack : String → List String → List String × Bool
sub_agent_call_stack sub_agent_id call_stack =
    if leb max_sub_agent_depth (length call_stack)
    then (call_stack, true)
    else (sub_agent_id ∷ call_stack, false)

-- The loop over the events: the content that is returned, from the one so far.
unfoldable pub last_answer : String → String → List Event → String
last_answer sub_agent_id answer [] = answer
last_answer sub_agent_id answer (complete c ∷ events) = last_answer sub_agent_id c.content events
last_answer sub_agent_id answer (loop_exit (some e) ∷ events) =
    last_answer sub_agent_id
      (concat (answer ∷ "sub agent " ∷ sub_agent_id ∷ ", fall with error" ∷ [])) events
last_answer sub_agent_id answer (_ ∷ events) = last_answer sub_agent_id answer events

-- The chat service that runs a call, with the sessions of a disk, under the stack of the calls.
pub record Executor (W : Type 0) : Type 0 where
  pub prompts : Prompts
  pub context : List String → Context W
  pub hooks : List (Hook W)
  pub deps : SessionDisk → Deps W
  pub guidance : String

abbrev pub sent_events : {W : Type 0} → Chatted W → List Event
sent_events c = elim c.forwarded [ none ↦ [] | some f ↦ f.sent ]

-- What a call leaves: its answer, the session that was made, and whether its goroutine panicked.
pub record Called (W : Type 0) : Type 0 where
  pub answer : Result String
  pub disk : SessionDisk
  pub panicked : Bool
  pub world : W

module _ {W : Type 0} where
  unfoldable pub sub_request : String → String → String → Request W
  sub_request sub_agent_id session_id request = record {
    agent_id = sub_agent_id;
    session_id = session_id;
    user_message = some (new_content request);
    provided_tool_servers = [];
    logging = false;
    has_sink = true;
  }

  abbrev pub answered : String → SessionDisk → Chatted W → Option Error → Called W
  answered sub_agent_id d c (some e) = record {
    answer = err e;
    disk = d;
    panicked = c.panicked;
    world = c.world;
  }
  answered sub_agent_id d c none = record {
    answer = ok (last_answer sub_agent_id "" (sent_events c));
    disk = d;
    panicked = c.panicked;
    world = c.world;
  }

  -- Behind the creation of the session.
  unfoldable pub call_created :
      Executor W → List String → String → String → W → Result String × SessionDisk → Called W
  unfolding last_answer sub_request chat
  call_created x stack sub_agent_id request w (err e, d) = record {
    answer = err e;
    disk = d;
    panicked = false;
    world = w;
  }
  call_created x stack sub_agent_id request w (ok session_id, d) =
      let c =
        chat x.prompts (x.context stack) x.hooks (x.deps d)
          (sub_request sub_agent_id session_id request) w in
      answered sub_agent_id d c c.result

  abbrev pub call_under :
      Executor W → SessionDisk → ℕ → String → String → String → W → List String × Bool → Called W
  call_under x d now new_id sub_agent_id request w (stack, true) = record {
    answer = err (sentinel call_stack_overflow);
    disk = d;
    panicked = false;
    world = w;
  }
  call_under x d now new_id sub_agent_id request w (stack, false) =
      call_created x stack sub_agent_id request w
        (create_session_file d now new_id sub_agent_id x.guidance)

  -- Call. What the chat saves at its end is in the sessions that it forwarded.
  unfoldable pub call :
      Executor W → SessionDisk → List String → ℕ → String → String → String → W → Called W
  unfolding call_created sub_agent_call_stack create_session_file
  call x d call_stack now new_id sub_agent_id request w =
      call_under x d now new_id sub_agent_id request w
        (sub_agent_call_stack sub_agent_id call_stack)

-- What the tool call_agent makes of the answer; the last text is not formatted.
unfoldable pub call_agent_result :
    (Error → String) → String → Result String → Result (List ContentPart)
call_agent_result error_string agent_name (ok res) =
    ok (new_content (concat ("# Agent " ∷ agent_name ∷ " respones:\n" ∷ res ∷ [])))
call_agent_result error_string agent_name (err e) =
    if errors_is e call_stack_overflow
    then err (agent_mistake "You already called as sub agent, solove problem by youself")
    else if errors_is e is_not_exist
    then err (agent_mistake (error_string e))
    else err (agent_mistake "problem to call agent %s")
