-- ===== src/Tests/Messages.antt =====
-- Examples for internal/agent, internal/session and internal/types.
use arch_agent.Agent.{ToolCall, new_content}
use arch_agent.Agent.Exclude.{
  contains, elimination_calls_id, exclude_tool_calls_data, exclude_tool_calls_data-lem,
  is_eliminated, stays,
}
use arch_agent.Agent.Merge.{collapse_loop, collapse_matched, merge_matched_pair}
use arch_agent.Agent.Merge.Content.{answered, collapse_matched-content, gather, said}
use arch_agent.Agent.Merge.Reference.{collapse, collapse_matched-eq-collapse}
use arch_agent.Agent.Message.{Message, agent_message, tool_calls, tool_result_message, user_message}
use arch_agent.Base.{List, [], keep_if, length, refl, ◌++◌, ◌∷◌, ◌≡◌}
use arch_agent.Errors.{Errors, cons, is_not_exist, nil, sentinel, text}
use arch_agent.Session.{Session, add_messages, new_session}
use arch_agent.Session.Adding.{add_messages-collapse}

abbrev echo_call : ToolCall
echo_call = record { id = "c1"; tool_name = "echo"; arguments = "{}" }

abbrev talk : List Message
talk =
    user_message (new_content "a")
    ∷ user_message (new_content "b")
    ∷ agent_message (new_content "c") (echo_call ∷ [])
    ∷ tool_result_message "c1" (new_content "d")
    ∷ agent_message (new_content "e") []
    ∷ agent_message (new_content "f") []
    ∷ []

abbrev short_session : Session
short_session = record (new_session 5 "s") { messages = user_message (new_content "x") ∷ [] }

test-collapse_matched : collapse_matched talk ≡ (
    user_message (new_content "a" ++ new_content "b")
    ∷ agent_message (new_content "c") (echo_call ∷ [])
    ∷ tool_result_message "c1" (new_content "d")
    ∷ agent_message (new_content "e" ++ new_content "f") []
    ∷ [])
unfolding collapse_matched collapse_loop merge_matched_pair
test-collapse_matched = refl

test-exclude_tool_calls_data : length (exclude_tool_calls_data ("echo" ∷ []) talk) ≡ 5
unfolding exclude_tool_calls_data elimination_calls_id is_eliminated contains tool_calls
test-exclude_tool_calls_data = refl

collapse_matched-eq-collapse_example : collapse_matched talk ≡ collapse talk
collapse_matched-eq-collapse_example = collapse_matched-eq-collapse talk

collapse_matched-content_example :
    (gather said (collapse_matched talk) ≡ gather said talk)
    × (gather tool_calls (collapse_matched talk) ≡ gather tool_calls talk)
    × (gather answered (collapse_matched talk) ≡ gather answered talk)
collapse_matched-content_example = collapse_matched-content talk

add_messages-collapse_example :
    add_messages short_session talk
    ≡ record short_session { messages = collapse_matched (user_message (new_content "x") ∷ talk) }
unfolding new_session
add_messages-collapse_example = add_messages-collapse short_session talk tt

exclude_tool_calls_data-lem_example :
    exclude_tool_calls_data ("echo" ∷ []) talk ≡ keep_if (stays ("echo" ∷ []) talk) talk
exclude_tool_calls_data-lem_example = exclude_tool_calls_data-lem ("echo" ∷ []) talk

abbrev parts : Errors
parts = cons (sentinel is_not_exist) (cons (text "disk") nil)
