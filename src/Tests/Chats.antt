-- ===== src/Tests/Chats.antt =====
-- Examples for internal/chat.
use arch_agent.Agent.{Agent, new_content}
use arch_agent.Agent.Message.{user_message}
use arch_agent.Base.{List, String, [], false, refl, some, true, ℕ, ◌∷◌, ◌≡◌}
use arch_agent.Base.Dict.{insert, lookup}
use arch_agent.Chat.{Prepared, ToolServer}
use arch_agent.Chat.Dispatcher.{
  Dispatcher, Reachable, SessionKey, after, begin, begins, cancel, closed, closes, ends, leaving,
  may_start, new_dispatcher, set_phase, starting, starts, working,
}
use arch_agent.Chat.SystemMessage.{
  Sources, agent_part, alive, assemble_message, assemble_parts, build_system_message, cached,
  get_cached, memory_part, put, session_part, skill_part, tool_aware_part,
}
use arch_agent.Errors.{ok}
use arch_agent.Session.{Session, new_session}
use arch_agent.Tests.Runs.{echo, greeting, helper}
use arch_agent.Chat.Dispatcher.Exclusion.{exclusion}
use arch_agent.Chat.SystemMessage.Caching.{build_system_message-twice}
use arch_agent.Chat.Dispatcher.Progress.{Unblocks, progress}
use arch_agent.Base.{arith}
use arch_agent.Chat.Dispatcher.Superseding.{is_over, superseding}
use arch_agent.Base.{none, ◌<◌, ◌≤◌}
use arch_agent.Base.Keys.{string_eq}
use arch_agent.Chat.Dispatcher.{cancel_before, cancels}

abbrev pub bob : Agent
bob = record {
  id = "bob";
  description = "helps";
  system_prompt = "be kind";
  model = "m";
  tool_servers = [];
  has_memory = false;
}

-- Another agent of the same id, as after an edit.
abbrev new_bob : Agent
new_bob = record bob { system_prompt = "be brief" }

abbrev opened : Session
opened = record (new_session 5 "s") { messages = user_message (new_content "hello") ∷ [] }

abbrev prepared : Prepared ℕ
prepared = record {
  agent = bob;
  model = helper;
  session = opened;
  agent_context = greeting;
  tool_kit = echo ∷ [];
  user = user_message (new_content "hello");
}

abbrev key : SessionKey
key = ("bob", "s")

-- A second call for the key comes while the first is inside, and is let in once that is done.
abbrev served : Dispatcher
served = set_phase (cancel_before (begin new_dispatcher key) 0 none) 0 working

abbrev crowded : Dispatcher
crowded = cancel_before (begin served key) 1 (some 0)

abbrev emptied : Dispatcher
emptied = set_phase (cancel (set_phase crowded 0 leaving) 0) 0 closed

abbrev relieved : Dispatcher
relieved = set_phase emptied 1 working

served-Reachable : Reachable served
unfolding new_dispatcher begin cancel_before set_phase cancel lookup insert
served-Reachable =
    after _ _
      (after _ _ (after _ _ starting (begins new_dispatcher key))
        (cancels (begin new_dispatcher key) 0 none refl))
      (starts (cancel_before (begin new_dispatcher key) 0 none) 0 refl)

crowded-Reachable : Reachable crowded
unfolding new_dispatcher begin cancel_before set_phase cancel lookup insert
crowded-Reachable =
    after _ _ (after _ _ served-Reachable (begins served key))
      (cancels (begin served key) 1 (some 0) refl)

relieved-Reachable : Reachable relieved
unfolding new_dispatcher begin cancel_before set_phase cancel lookup insert
relieved-Reachable =
    after _ _
      (after _ _ (after _ _ crowded-Reachable (ends crowded 0 refl))
        (closes (set_phase crowded 0 leaving) 0 refl))
      (starts emptied 1 refl)

abbrev second : ℕ
second = 1

exclusion_example : second ≡ second
unfolding new_dispatcher begin cancel_before set_phase cancel lookup insert
exclusion_example = exclusion relieved second second relieved-Reachable refl refl refl

-- A call that waits is not let in.
test-begin : may_start crowded (crowded.calls 1).phase ≡ false
unfolding new_dispatcher begin cancel_before set_phase cancel lookup insert
test-begin = refl

abbrev sources : Sources
sources = record {
  default_agent = "an agent";
  persistent_memory = λ id index extra. index;
  skill_guidance = λ index. index;
  tool_usage_guide = "use tools";
  skills = λ id. [];
  memory_index = λ id. ok (("a", "b") ∷ []);
}

abbrev no_servers : List (ToolServer ℕ)
no_servers = []

abbrev first_text : String
first_text = "be kind\n\n- (a) b\n\n\n\n\n\n\n\n\n"

build_system_message-twice_example :
    (build_system_message sources 100 new_bob no_servers opened
      (build_system_message sources 0 bob no_servers opened []).1).0
    ≡ ok first_text
unfolding build_system_message get_cached cached alive put assemble_message assemble_parts
    agent_part memory_part skill_part tool_aware_part session_part lookup new_session
build_system_message-twice_example =
    build_system_message-twice sources sources 0 100 bob new_bob no_servers no_servers opened opened
      [] first_text refl refl refl

progress_example : Unblocks crowded 1
unfolding new_dispatcher begin cancel_before set_phase cancel lookup insert
progress_example = progress crowded 1 (some 0) crowded-Reachable refl

superseding_example :
    (0 ≤ 0)
    × (0 < 1)
    × ((crowded.calls 0).key ≡ (crowded.calls 1).key)
    × (is_over (crowded.calls 0) ≡ true)
unfolding new_dispatcher begin cancel_before set_phase cancel lookup insert
superseding_example = superseding crowded 1 0 0 crowded-Reachable refl (omega arith) refl
