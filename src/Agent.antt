-- ===== src/Agent.antt =====
-- internal/agent: the shared vocabulary of the program. agent/model.go, agent/toolcall.go,
-- agent/agent.go and the content parts of agent/message.go.
pub mod Message
pub mod Merge
pub mod Exclude
pub mod Service
use arch_agent.Base.{ℕ, String, Bool, List, [], ◌∷◌, concat}

pub record ContentPart : Type 0 where
  pub text : String
  pub image_url : String

-- Arguments are the bytes of a JSON text.
pub record ToolCall : Type 0 where
  pub id : String
  pub tool_name : String
  pub arguments : String

pub record ToolResult : Type 0 where
  pub id : String
  pub result : List ContentPart

-- Token counts are int64 values that a provider reports: natural numbers here.
pub record Completion : Type 0 where
  pub tool_calls : List ToolCall
  pub content : String
  pub done : Bool
  pub input_tokens : ℕ
  pub completion_tokens : ℕ

pub record Agent : Type 0 where
  pub id : String
  pub description : String
  pub system_prompt : String
  pub model : String
  pub tool_servers : List String
  pub has_memory : Bool

-- NewContent at a string.
abbrev pub new_content : String → List ContentPart
new_content s = (record { text = s; image_url = "" }) ∷ []

-- NewToolResult at a list of parts, and at a string.
abbrev pub new_tool_result : String → List ContentPart → ToolResult
new_tool_result call_id content = record { id = call_id; result = content }

-- (*ToolCall).String
unfoldable pub tool_call_string : ToolCall → String
tool_call_string tc = concat ("tool:" ∷ tc.tool_name ∷ ", args:" ∷ tc.arguments ∷ "\n" ∷ [])
