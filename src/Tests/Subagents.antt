-- ===== src/Tests/Subagents.antt =====
-- Examples for internal/subagent and internal/agent/service.go.
use arch_agent.Agent.{Agent, new_content}
use arch_agent.Files.Agents.{AgentDisk, get_agent, save_agent}
use arch_agent.Files.Sessions.{SessionDisk, create_session_file, read_session}
use arch_agent.Subagent.{Executor, call, sub_request}
use arch_agent.Subagent.Answer.{call-answer, failed, said, answer_text, loop_run}
use arch_agent.Chat.{Prepared, prepare}
use arch_agent.Tools.{tool_servers}
use arch_agent.Tests.Chats.{bob}
use arch_agent.Tests.Runs.{prompts, live, helper, hooks, helper-safe}
use arch_agent.Tests.Cleaning.{empty_disk}
use arch_agent.Errors.{ok}
use arch_agent.Agent.Merge.{collapse_matched}
use arch_agent.Agent.Message.{system_message, user_message}
use arch_agent.Base.{String, [], false, none, refl, ℕ, ◌∷◌, ◌≡◌}
use arch_agent.Base.Dict.{Dict, lookup}
use arch_agent.Base.Keys.{string_eq}
use arch_agent.Errors.{Error}
use arch_agent.Runtime.Loop.Panics.{run_agent_loop-safe}
use arch_agent.Session.{Session, add_messages, new_session}
use arch_agent.Base.{Option, if◌then◌else◌, some}
use arch_agent.Base.Dict.{insert}
use arch_agent.Base.Keys.{◌==◌}
use arch_agent.Errors.{text}
use arch_agent.Files.Dto.{dto_to_messages, messages_to_dto}

abbrev agents : AgentDisk
agents = record {
  folders = [];
  list_error = none;
  read_error = λ k. none;
  mkdir_error = none;
  write_error = none;
  remove_error = λ k. none;
  unix_lines = λ s. s;
}

abbrev coder : Agent
coder = record {
  id = "coder";
  description = "writes programs";
  system_prompt = "be exact";
  model = "small";
  tool_servers = "fs" ∷ [];
  has_memory = false;
}

abbrev connected_servers : Dict String ℕ
connected_servers = ("fs", 1) ∷ []

abbrev small_only : String → Option Error
small_only name = if name == "small" then none else some (text "no such model")

abbrev saved_agents : AgentDisk
unfolding save_agent
saved_agents = (save_agent agents coder).1

abbrev executor : Executor ℕ
executor = record {
  prompts = prompts;
  context = λ stack. live;
  hooks = hooks;
  deps = λ d. record {
    get_agent = λ i. ok bob;
    get_model = λ m. ok helper;
    tool_servers = λ names. ([], none);
    get_session = λ a i. read_session d a i;
    build_system_message = λ agt servers s. ok "be kind";
  };
  guidance = "";
}

abbrev made_disk : SessionDisk
unfolding create_session_file
made_disk = (create_session_file empty_disk 10 "s9" "bob" "").1

abbrev fresh : Session
unfolding new_session add_messages collapse_matched
fresh = add_messages (new_session 10 "s9") (user_message (new_content "count") ∷ [])

abbrev ready_call : Prepared ℕ
ready_call = record {
  agent = bob;
  model = helper;
  session = fresh;
  agent_context = system_message (new_content "be kind") ∷ fresh.messages;
  tool_kit = [];
  user = user_message (new_content "count");
}

call-answer_example :
    let run = loop_run executor ("bob" ∷ "coder" ∷ []) ready_call 0 in
    (call executor empty_disk ("coder" ∷ []) 10 "s9" "bob" "count" 0).answer
    ≡ ok (answer_text "bob" (said "" run.events) (failed run.events))
unfolding create_session_file made_disk prepare sub_request fresh read_session lookup insert
    messages_to_dto dto_to_messages
call-answer_example =
    call-answer executor empty_disk made_disk ("coder" ∷ []) 10 "s9" "s9" "bob" "count" ready_call 0
      refl refl refl
      (run_agent_loop-safe prompts live helper [] hooks helper-safe (tt, (tt, tt))
        ready_call.agent_context 0)
