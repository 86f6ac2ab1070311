-- ===== src/Files/Agents.antt =====
-- internal/files/agents.go: the repository of the agents, a folder for each. An agent.md is a YAML
-- front matter between two lines of dashes, and a body. The YAML library is taken to read back a
-- front matter that it wrote, and to write none with a line that starts with the dashes.
use arch_agent.Agent.{Agent}
use arch_agent.Base.Keys.{string_eq}
use arch_agent.Base.Dict.{Dict, delete, insert, lookup}
use arch_agent.Errors.{Error, Result, err, ok, errors_is, is_not_exist, sentinel, text, wrap}
use arch_agent.Base.{Bool, List, Option, String, [], concat, if◌then◌else◌, none, some, ◌||◌, ◌∷◌}
use arch_agent.Base.Keys.{◌==◌}
use arch_agent.Errors.{◌>>=◌}

-- AgentDTO, with the id that stands in the file.
pub record AgentDto : Type 0 where
  pub id : String
  pub description : String
  pub model : String
  pub system_prompt : String
  pub tool_servers : List String
  pub has_memory : Bool

-- What stands between the dashes.
pub record FrontMatter : Type 0 where
  pub id : String
  pub description : String
  pub model : String
  pub tool_servers : List String
  pub has_memory : Bool

-- An agent.md. Its front matter is an error if the text has none, or YAML cannot read it.
pub record AgentText : Type 0 where
  pub front : Result FrontMatter
  pub body : String

-- The folders of the agents by name, and the errors that the next calls meet: of listing the folders,
-- of reading a file that is there, of making a folder, of writing, and of RemoveAll at the name behind
-- a slash. `unix_lines` is strings.ReplaceAll of the line ends.
pub record AgentDisk : Type 0 where
  pub folders : Dict String AgentText
  pub list_error : Option Error
  pub read_error : String → Option Error
  pub mkdir_error : Option Error
  pub write_error : Option Error
  pub remove_error : String → Option Error
  pub unix_lines : String → String

-- What NewAgent makes of the DTO.
abbrev pub from_dto : AgentDto → Agent
from_dto dto = record {
  id = dto.id;
  description = dto.description;
  system_prompt = dto.system_prompt;
  model = dto.model;
  tool_servers = dto.tool_servers;
  has_memory = dto.has_memory;
}

-- The line ends of the text become those of Unix before it is split.
unfoldable pub parse_agent_file : (String → String) → AgentText → Result AgentDto
parse_agent_file unix_lines f = f.front >>= λ h. ok (record {
  id = h.id;
  description = h.description;
  model = h.model;
  system_prompt = unix_lines f.body;
  tool_servers = h.tool_servers;
  has_memory = h.has_memory;
})

-- The DTO that is written has no tool servers.
unfoldable pub marshal_agent_file : Agent → AgentText
marshal_agent_file agt = record {
  front = ok (record {
    id = agt.id;
    description = agt.description;
    model = agt.model;
    tool_servers = [];
    has_memory = agt.has_memory;
  });
  body = agt.system_prompt;
}

unfoldable pub parsed : (String → String) → Option AgentText → Option Error → Result AgentDto
unfolding parse_agent_file
parsed unix_lines none e = err (wrap "open" (sentinel is_not_exist))
parsed unix_lines (some f) (some e) = err e
parsed unix_lines (some f) none = parse_agent_file unix_lines f

unfoldable pub read_config : AgentDisk → String → Result AgentDto
unfolding parsed
read_config d agent_id = parsed d.unix_lines (lookup agent_id d.folders) (d.read_error agent_id)

-- Get, behind the reading of the file.
abbrev pub got : String → Result AgentDto → Result Agent
got agent_id (err e) =
    if errors_is e is_not_exist
    then err (wrap (concat ("agent " ∷ agent_id ∷ [])) (sentinel is_not_exist))
    else err e
got agent_id (ok dto) = ok (from_dto dto)

unfoldable pub get_agent : AgentDisk → String → Result Agent
unfolding read_config
get_agent d agent_id = got agent_id (read_config d agent_id)

abbrev pub with_agent : Result AgentDto → List Agent → List Agent
with_agent (err e) agents = agents
with_agent (ok dto) agents = from_dto dto ∷ agents

-- The loop of All: a folder without a file that can be read is passed over.
unfoldable pub gather_agents : AgentDisk → Dict String AgentText → List Agent
unfolding read_config
gather_agents d [] = []
gather_agents d ((name, r) ∷ folders) = with_agent (read_config d name) (gather_agents d folders)

abbrev pub listed : AgentDisk → Option Error → Result (List Agent)
listed d none = ok (gather_agents d d.folders)
listed d (some e) = if errors_is e is_not_exist then ok [] else err e

unfoldable pub all_agents : AgentDisk → Result (List Agent)
unfolding gather_agents
all_agents d = listed d d.list_error

abbrev pub is_reserved : String → Bool
is_reserved name =
    (name == "mcp.toml")
    || ((name == "models.toml")
        || ((name == "tasks.toml")
            || ((name == "secrets.toml")
                || ((name == "memory.toml")
                    || ((name == "tmp") || ((name == "skills") || (name == "shared")))))))

-- The file is written once its folder is made.
unfoldable pub write_agent :
    AgentDisk → Agent → Option Error → Option Error → Option Error × AgentDisk
unfolding marshal_agent_file
write_agent d agt (some e) w = (some e, d)
write_agent d agt none (some e) = (some e, d)
write_agent d agt none none =
    (none, record d { folders = insert agt.id (marshal_agent_file agt) d.folders })

unfoldable pub save_agent : AgentDisk → Agent → Option Error × AgentDisk
unfolding write_agent
save_agent d agt =
    if is_reserved agt.id
    then (some (text (concat ("name " ∷ agt.id ∷ " is reserved" ∷ []))), d)
    else write_agent d agt d.mkdir_error d.write_error

-- RemoveAll, which a missing folder is no error for.
abbrev pub remove_agent : AgentDisk → String → Option Error → Option Error × AgentDisk
remove_agent d agent_id (some e) = (some e, d)
remove_agent d agent_id none = (none, record d { folders = delete agent_id d.folders })

unfoldable pub delete_agent : AgentDisk → String → Option Error × AgentDisk
delete_agent d agent_id = remove_agent d agent_id (d.remove_error agent_id)
