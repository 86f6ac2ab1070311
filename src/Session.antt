-- ===== src/Session.antt =====
-- internal/session/session.go: a conversation and the operations on it. The mutex makes each
-- method one step, so a method is a function from the session to the session.
pub mod Adding
use arch_agent.Base.{ℕ, String, Option, none, some, List, [], ◌∷◌, ◌++◌}
use arch_agent.Base.Dict.{Dict}
use arch_agent.Errors.{ok, err, or_else}
use arch_agent.Agent.{ToolCall, Completion, new_content}
use arch_agent.Agent.Message.{
  Message, user_message, agent_message, tool_result_message, system_message,
}
use arch_agent.Agent.Merge.{merge_matched_pair, collapse_matched}

-- A value of `map[string]any`: a string, or a value of another type, by the type's name.
pub data Extra : Type 0 where
  a_string : String → Extra
  of_type : String → Extra

-- Times are counts of a clock, tokens what the provider reports.
pub record SessionHeader : Type 0 where
  pub id : String
  pub input_tokens : ℕ
  pub output_tokens : ℕ
  pub created_at : ℕ
  pub updated_at : ℕ
  pub extras : Dict String Extra

pub record Session : Type 0 where
  pub header : SessionHeader
  pub messages : List Message

-- NewSession at the time `now`.
unfoldable pub new_session : ℕ → String → Session
new_session now session_id = record {
  header = record {
    id = session_id;
    input_tokens = 0;
    output_tokens = 0;
    created_at = now;
    updated_at = now;
    extras = [];
  };
  messages = [];
}

abbrev pub as_agent_message : Message → Option Message
as_agent_message (agent_message c calls) = some (agent_message c calls)
as_agent_message _ = none

abbrev pub as_user_message : Message → Option Message
as_user_message (user_message c) = some (user_message c)
as_user_message _ = none

-- The loops over slices.Backward: what stands further back in the slice is found first.
unfoldable pub last_match : (Message → Option Message) → List Message → Option Message
last_match test [] = none
last_match test (m ∷ ms) = or_else (last_match test ms) (test m)

unfoldable pub get_last_agent_message : Session → Option Message
unfolding last_match
get_last_agent_message s = last_match as_agent_message s.messages

unfoldable pub get_last_user_message : Session → Option Message
unfolding last_match
get_last_user_message s = last_match as_user_message s.messages

-- The body of AddMessages behind the collapse: the last message of the session is merged with the
-- first of the collapsed ones if the pair can be merged, and the rest is appended.
unfoldable pub splice : List Message → List Message → List Message
splice [] collapsed = collapsed
splice (l ∷ []) [] = l ∷ []
splice (l ∷ []) (c ∷ cs) = elim (merge_matched_pair l c) [
  | ok merged ↦ merged ∷ cs
  | err e ↦ l ∷ c ∷ cs
]
splice (l ∷ m ∷ ms) collapsed = l ∷ splice (m ∷ ms) collapsed

-- The early return for no messages is the first clause.
unfoldable pub add_messages : Session → List Message → Session
unfolding splice
add_messages s [] = s
add_messages s (m ∷ ms) = record s { messages = splice s.messages (collapse_matched (m ∷ ms)) }

unfoldable pub apply_completion : Session → Completion → Session
apply_completion s c = record s {
  header = record s.header { input_tokens = c.input_tokens; output_tokens = c.completion_tokens };
  messages = s.messages ++ agent_message (new_content c.content) c.tool_calls ∷ [];
}

-- The new messages are the session's own from here on: that the caller still has the slice is left
-- out.
unfoldable pub overwrite_messages : Session → ℕ → List Message → Session
overwrite_messages s tokens new = record s {
  header = record s.header { input_tokens = tokens; output_tokens = 0 };
  messages = new;
}

unfoldable pub set_extras : Session → Dict String Extra → Session
set_extras s e = record s { header = record s.header { extras = e } }
