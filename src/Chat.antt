-- ===== src/Chat.antt =====
-- internal/chat/service.go: a request of a user is checked, its agent, model, tools and session are
-- found, the loop of internal/runtime is run, and its events are handled one by one.
pub mod Forward
pub mod Dispatcher
pub mod SystemMessage
use arch_agent.Agent.{Agent, ContentPart, new_content}
use arch_agent.Agent.Message.{Message, content, system, system_message, user, user_message}
use arch_agent.Base.{Bool, List, Option, String, [], if◌then◌else◌, none, some, ◌&&◌, ◌++◌, ◌∷◌}
use arch_agent.Base.Keys.{Eq, string_eq, ◌==◌}
use arch_agent.Errors.{Error, Result, err, ok, text, ◌>>=◌, ◌>>◌}
use arch_agent.Errors.Distill.{distill_err_not_exist}
use arch_agent.Runtime.{Model, Tool}
use arch_agent.Session.{Session, add_messages}

-- agent.ToolServer, with the instructions that it has if it is a ToolInstructer or a
-- PerAgentToolInstructer.
pub record ToolServer (W : Type 0) : Type 0 where
  pub tools : List (Tool W)
  pub instruction : Option String
  pub agent_instruction : Option (Agent → String)

-- A nil user message is `none`, a nil sink `has_sink = false`. The channel itself is the list of
-- what was sent to it.
pub record Request (W : Type 0) : Type 0 where
  pub agent_id : String
  pub session_id : String
  pub user_message : Option (List ContentPart)
  pub provided_tool_servers : List (ToolServer W)
  pub logging : Bool
  pub has_sink : Bool

abbrev pub is_empty_part : ContentPart → Bool
is_empty_part c = c.image_url == "" && c.text == ""

unfoldable pub validate_parts : List ContentPart → Option Error
validate_parts [] = none
validate_parts (c ∷ cs) =
    if is_empty_part c
    then some (text "user message must has no empty content parts")
    else validate_parts cs

-- The checks behind that of the user message for nil.
unfoldable pub validate_content : Bool → List ContentPart → Option Error
unfolding validate_parts
validate_content has_sink [] = some (text "user message must has content")
validate_content has_sink (c ∷ cs) =
    if has_sink then validate_parts (c ∷ cs) else some (text "sink is required")

unfoldable pub validate : {W : Type 0} → Request W → Option Error
unfolding validate_content
validate r =
    if r.agent_id == ""
    then some (text "completion request must include agentID")
    else if r.session_id == ""
    then some (text "completion request must include sessionID")
    else elim r.user_message [
      | none ↦ some (text "completion request must include user message")
      | some content ↦ validate_content r.has_sink content
    ]

abbrev pub require : Option Error → Result (Unit {0})
require none = ok tt
require (some e) = err e

-- What the service is given. ToolServers returns the servers it has beside the error for the others.
pub record Deps (W : Type 0) : Type 0 where
  pub get_agent : String → Result Agent
  pub get_model : String → Result (Model W)
  pub tool_servers : List String → List (ToolServer W) × Option Error
  pub get_session : String → String → Result Session
  pub build_system_message : Agent → List (ToolServer W) → Session → Result String

-- What RunAgentLoop is called with, and the session of the conversation.
pub record Prepared (W : Type 0) : Type 0 where
  pub agent : Agent
  pub model : Model W
  pub session : Session
  pub agent_context : List Message
  pub tool_kit : List (Tool W)
  pub user : Message

-- The error of the registry, if it says more than that some server does not exist.
abbrev pub distilled : Option Error → Option Error
distilled none = none
distilled (some e) = distill_err_not_exist e

module _ {W : Type 0} where
  unfoldable pub resolve_tool_servers :
      Deps W → Agent → List (ToolServer W) → Result (List (ToolServer W))
  resolve_tool_servers deps agt provided =
      let (servers, e) = deps.tool_servers agt.tool_servers in
      do require (distilled e); ok (servers ++ provided)

  unfoldable pub extract_tools : List (ToolServer W) → List (Tool W)
  extract_tools [] = []
  extract_tools (ts ∷ servers) = ts.tools ++ extract_tools servers

  -- `*r.UserMessage`, of a request that is valid.
  abbrev pub user_of : Request W → Message
  user_of r = user_message (elim r.user_message [ none ↦ [] | some content ↦ content ])

  -- Chat up to the call of runAgentLoopWithCallbacks.
  unfoldable pub prepare : Deps W → Request W → Result (Prepared W)
  unfolding validate resolve_tool_servers extract_tools
  prepare deps r = do
    require (validate r)
    agt ← deps.get_agent r.agent_id
    model ← deps.get_model agt.model
    servers ← resolve_tool_servers deps agt r.provided_tool_servers
    found ← deps.get_session agt.id r.session_id
    let sess = add_messages found (user_of r ∷ [])
    prompt ← deps.build_system_message agt servers sess
    ok (record {
      agent = agt;
      model = model;
      session = sess;
      agent_context = system_message (new_content prompt) ∷ sess.messages;
      tool_kit = extract_tools servers;
      user = user_of r;
    })
