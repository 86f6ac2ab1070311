-- ===== src/Files/Dto/RoundTrip.antt =====
-- What internal/files/dto.go reads back.
use arch_agent.Files.Dto.{
  dto_to_messages, messages_to_dto, dto_to_message, message_to_dto, dto_to_content, content_to_dto,
  dto_to_toolcalls, toolcalls_to_dto,
}
use arch_agent.Agent.{ContentPart, ToolCall}
use arch_agent.Agent.Message.{
  Message, agent_message, content, role, system_message, tool_result_message, user_message,
}
use arch_agent.Base.{List, [], ap, refl, ◌∷◌, ◌≡◌}
use arch_agent.Errors.{ok}

dto_to_content-content_to_dto :
    (parts : List ContentPart) → dto_to_content (content_to_dto parts) ≡ parts
unfolding dto_to_content content_to_dto
dto_to_content-content_to_dto [] = refl
dto_to_content-content_to_dto (p ∷ parts) = ap (◌∷◌ p) (dto_to_content-content_to_dto parts)

dto_to_toolcalls-toolcalls_to_dto :
    (calls : List ToolCall) → dto_to_toolcalls (toolcalls_to_dto calls) ≡ calls
unfolding dto_to_toolcalls toolcalls_to_dto
dto_to_toolcalls-toolcalls_to_dto [] = refl
dto_to_toolcalls-toolcalls_to_dto (c ∷ calls) = ap (◌∷◌ c) (dto_to_toolcalls-toolcalls_to_dto calls)

dto_to_message-message_to_dto : (msg : Message) → dto_to_message (message_to_dto msg) ≡ ok msg
unfolding dto_to_message message_to_dto role content
dto_to_message-message_to_dto (user_message c) = rw (dto_to_content-content_to_dto c) refl
dto_to_message-message_to_dto (system_message c) = rw (dto_to_content-content_to_dto c) refl
dto_to_message-message_to_dto (agent_message c calls) =
    rw (dto_to_content-content_to_dto c, dto_to_toolcalls-toolcalls_to_dto calls) refl
dto_to_message-message_to_dto (tool_result_message call_id c) =
    rw (dto_to_content-content_to_dto c) refl

-- DtoToMessages of what MessagesToDTO gives are the messages, of any roles. The JSON text between
-- the two is not part of it.
pub dto_to_messages-messages_to_dto :
    (msgs : List Message) → dto_to_messages (messages_to_dto msgs) ≡ ok msgs
unfolding dto_to_messages messages_to_dto
dto_to_messages-messages_to_dto [] = refl
dto_to_messages-messages_to_dto (msg ∷ msgs) =
    rw (dto_to_message-message_to_dto msg, dto_to_messages-messages_to_dto msgs) refl
