-- ===== src/Agent/Merge.antt =====
-- MergeMatchedPair and CollapseMatched of agent/message.go.
pub mod Reference
pub mod Content
use arch_agent.Base.{String, Bool, true, false, List, [], ◌∷◌, ◌++◌, ◌≡◌}
use arch_agent.Errors.{Result, ok, err, sentinel, diffirent_types, cant_merge_tool_result}
use arch_agent.Agent.Message.{
  Message, user_message, agent_message, tool_result_message, system_message,
}

-- The comparison of `reflect.TypeOf` is the match of the two constructors. The last error of the
-- source, for a message of no known type, has no case: these four are all there are.
unfoldable pub merge_matched_pair : Message → Message → Result Message
merge_matched_pair (user_message a) (user_message b) = ok (user_message (a ++ b))
merge_matched_pair (agent_message a calls_a) (agent_message b calls_b) =
    ok (agent_message (a ++ b) (calls_a ++ calls_b))
merge_matched_pair (system_message a) (system_message b) = ok (system_message (a ++ b))
merge_matched_pair (tool_result_message i a) (tool_result_message j b) =
    err (sentinel cant_merge_tool_result)
merge_matched_pair _ _ = err (sentinel diffirent_types)

-- The loop of CollapseMatched: `front` and `last` are `mergedMessages`.
unfoldable pub collapse_loop : List Message → Message → List Message → List Message
collapse_loop front last [] = front ++ last ∷ []
collapse_loop front last (next ∷ rest) = elim (merge_matched_pair last next) [
  | ok merged ↦ collapse_loop front merged rest
  | err e ↦ collapse_loop (front ++ last ∷ []) next rest
]

unfoldable pub collapse_matched : List Message → List Message
unfolding collapse_loop
collapse_matched [] = []
collapse_matched (m ∷ ms) = collapse_loop [] m ms
