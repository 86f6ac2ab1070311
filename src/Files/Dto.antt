-- ===== src/Files/Dto.antt =====
-- internal/files/dto.go: messages as they are written to a session's file.
pub mod RoundTrip
use arch_agent.Agent.{ContentPart, ToolCall}
use arch_agent.Agent.Message.{
  Message, agent_message, content, role, role_name, system_message, tool, tool_calls,
  tool_result_message, user_message,
}
use arch_agent.Base.{List, String, [], concat, if◌then◌else◌, ◌∷◌}
use arch_agent.Base.Keys.{Eq, string_eq, ◌==◌}
use arch_agent.Errors.{Result, err, ok, text, ◌>>=◌, ◌>>◌}

pub record ContentPartDto : Type 0 where
  pub text : String
  pub image : String

pub record ToolCallDto : Type 0 where
  pub id : String
  pub tool : String
  pub args : String

-- The fields that are left out of the JSON when empty are empty when it is read.
pub record MessageDto : Type 0 where
  pub role : String
  pub content : List ContentPartDto
  pub tool_calls : List ToolCallDto
  pub call_id : String

unfoldable pub content_to_dto : List ContentPart → List ContentPartDto
content_to_dto [] = []
content_to_dto (p ∷ parts) = (record { text = p.text; image = p.image_url }) ∷ content_to_dto parts

unfoldable pub dto_to_content : List ContentPartDto → List ContentPart
dto_to_content [] = []
dto_to_content (dto ∷ dtos) =
    (record { text = dto.text; image_url = dto.image }) ∷ dto_to_content dtos

unfoldable pub toolcalls_to_dto : List ToolCall → List ToolCallDto
toolcalls_to_dto [] = []
toolcalls_to_dto (tc ∷ calls) =
    (record { id = tc.id; tool = tc.tool_name; args = tc.arguments }) ∷ toolcalls_to_dto calls

unfoldable pub dto_to_toolcalls : List ToolCallDto → List ToolCall
dto_to_toolcalls [] = []
dto_to_toolcalls (tc ∷ dtos) =
    (record { id = tc.id; tool_name = tc.tool; arguments = tc.args }) ∷ dto_to_toolcalls dtos

-- What the type switch of MessageToDTO puts into the two fields.
abbrev pub calls_of : Message → List ToolCall
calls_of (agent_message c calls) = calls
calls_of _ = []

abbrev pub call_id_of : Message → String
call_id_of (tool_result_message call_id c) = call_id
call_id_of _ = ""

unfoldable pub message_to_dto : Message → MessageDto
unfolding content_to_dto toolcalls_to_dto
message_to_dto msg = record {
  role = role_name (role msg);
  content = content_to_dto (content msg);
  tool_calls = toolcalls_to_dto (calls_of msg);
  call_id = call_id_of msg;
}

unfoldable pub messages_to_dto : List Message → List MessageDto
unfolding message_to_dto
messages_to_dto [] = []
messages_to_dto (msg ∷ msgs) = message_to_dto msg ∷ messages_to_dto msgs

unfoldable pub dto_to_message : MessageDto → Result Message
unfolding dto_to_content dto_to_toolcalls
dto_to_message dto =
    let c = dto_to_content dto.content in
    if dto.role == "user"
    then ok (user_message c)
    else if dto.role == "system"
    then ok (system_message c)
    else if dto.role == "agent"
    then ok (agent_message c (dto_to_toolcalls dto.tool_calls))
    else if dto.role == "tool"
    then ok (tool_result_message dto.call_id c)
    else err (text (concat ("unknown role: " ∷ dto.role ∷ [])))

unfoldable pub dto_to_messages : List MessageDto → Result (List Message)
unfolding dto_to_message
dto_to_messages [] = ok []
dto_to_messages (dto ∷ dtos) = do
  msg ← dto_to_message dto
  msgs ← dto_to_messages dtos
  ok (msg ∷ msgs)
