-- ===== src/Agent/Message.antt =====
-- The messages of agent/message.go. The source's role field is fixed by each constructor, so it is
-- a function here; a type assertion on a message is a match on its constructor.
use arch_agent.Base.{String, Bool, true, false, List, [], ◌∷◌, concat}
use arch_agent.Agent.{ContentPart, ToolCall, ToolResult, tool_call_string}

pub data Role : Type 0 where
  user agent tool system : Role

pub data Message : Type 0 where
  user_message : List ContentPart → Message
  agent_message : List ContentPart → List ToolCall → Message
  tool_result_message : String → List ContentPart → Message
  system_message : List ContentPart → Message

unfoldable pub role : Message → Role
role (user_message c) = user
role (agent_message c calls) = agent
role (tool_result_message call_id c) = tool
role (system_message c) = system

abbrev pub role_eq : Role → Role → Bool
role_eq user user = true
role_eq agent agent = true
role_eq tool tool = true
role_eq system system = true
role_eq _ _ = false

unfoldable pub content : Message → List ContentPart
content (user_message c) = c
content (agent_message c calls) = c
content (tool_result_message call_id c) = c
content (system_message c) = c

unfoldable pub set_content : Message → List ContentPart → Message
set_content (user_message _) c = user_message c
set_content (agent_message _ calls) c = agent_message c calls
set_content (tool_result_message call_id _) c = tool_result_message call_id c
set_content (system_message _) c = system_message c

-- The calls of an agent message; other messages have none.
unfoldable pub tool_calls : Message → List ToolCall
tool_calls (agent_message c calls) = calls
tool_calls _ = []

-- NewToolResultMessage
abbrev pub new_tool_result_message : ToolResult → Message
new_tool_result_message res = tool_result_message res.id res.result

abbrev pub role_name : Role → String
role_name user = "user"
role_name agent = "agent"
role_name tool = "tool"
role_name system = "system"

abbrev pub texts : List ContentPart → List String
texts [] = []
texts (c ∷ cs) = c.text ∷ texts cs

abbrev pub call_strings : List ToolCall → List String
call_strings [] = []
call_strings (c ∷ cs) = tool_call_string c ∷ call_strings cs

-- (*messageBase).String
unfoldable pub base_string : Role → List ContentPart → String
base_string r c = concat (role_name r ∷ ":\n" ∷ concat (texts c) ∷ "\n\n" ∷ [])

-- toolCallsString
unfoldable pub tool_calls_string : List ToolCall → String
tool_calls_string calls =
    concat ("<tool-calls>" ∷ concat (call_strings calls) ∷ "</tool-calls>" ∷ [])

-- (*AgentMessage).String renders the calls behind the text, if there is one.
unfoldable pub agent_calls_string : List ToolCall → String
agent_calls_string [] = ""
agent_calls_string (c ∷ cs) = tool_calls_string (c ∷ cs)

unfoldable pub message_string : Message → String
message_string (user_message c) = base_string user c
message_string (agent_message c calls) =
    concat (base_string agent c ∷ agent_calls_string calls ∷ "\n\n" ∷ [])
message_string (tool_result_message call_id c) = base_string tool c
message_string (system_message c) = base_string system c

-- StringifyConversation
unfoldable pub stringify_conversation : List Message → String
stringify_conversation [] = ""
stringify_conversation (m ∷ ms) = concat (message_string m ∷ stringify_conversation ms ∷ [])
