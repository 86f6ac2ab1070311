-- ===== src/Agent/Service/Saving.antt =====
-- What is kept of an agent that Save of internal/agent/service.go took.
use arch_agent.Agent.{Agent}
use arch_agent.Files.Agents.{AgentDisk, marshal_agent_file}
use arch_agent.Tools.{tool_servers}
use arch_agent.Base.Dict.{Dict, insert}
use arch_agent.Base.{String, []}
use arch_agent.Base.Keys.{string_eq}

abbrev without_tools : (String → String) → Agent → Agent
without_tools unix_lines agt = record agt {
  tool_servers = [];
  system_prompt = unix_lines agt.system_prompt;
}

abbrev stored : AgentDisk → Agent → AgentDisk
stored d agt = record d { folders = insert agt.id (marshal_agent_file agt) d.folders }
