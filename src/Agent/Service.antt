-- ===== src/Agent/Service.antt =====
-- internal/agent/service.go over the repository of Files/Agents and the tool servers of Tools. Of the
-- registry of models only the error of looking a name up counts.
pub mod Saving
use arch_agent.Agent.{Agent}
use arch_agent.Files.Agents.{AgentDisk, all_agents, delete_agent, get_agent, save_agent}
use arch_agent.Tools.{tool_servers}
use arch_agent.Base.Dict.{Dict}
use arch_agent.Errors.{Error, Result, err, ok, errors_join, gather_errors, wrap}
use arch_agent.Base.{List, Option, String, [], false, none, some, ◌∷◌}

abbrev pub default_agent : Agent
default_agent = record {
  id = "default";
  description = "agent placeholder";
  system_prompt = "";
  model = "";
  tool_servers = "filesystem" ∷ [];
  has_memory = false;
}

abbrev pub wrapped_default : Option Error × AgentDisk → Result AgentDisk
wrapped_default (none, d) = ok d
wrapped_default (some e, d) = err (wrap "failed to create default agent, " e)

abbrev pub with_default : AgentDisk → Result (List Agent) → Result AgentDisk
with_default d (err e) = err e
with_default d (ok []) = wrapped_default (save_agent d default_agent)
with_default d (ok (agt ∷ agents)) = ok d

-- NewService: the agents that it starts with.
unfoldable pub new_agents : AgentDisk → Result AgentDisk
unfolding all_agents save_agent
new_agents d = with_default d (all_agents d)

abbrev pub save_valid : AgentDisk → Agent → Option Error → Option Error → Option Error × AgentDisk
save_valid d agt (some e) missing = (some e, d)
save_valid d agt none (some e) = (some e, d)
save_valid d agt none none = save_agent d agt

module _ {S : Type 0} where
  -- Save
  unfoldable pub save_checked :
      (String → Option Error) → Dict String S → Agent → AgentDisk → Option Error × AgentDisk
  unfolding save_agent tool_servers
  save_checked model_error servers agt d =
      save_valid d agt (model_error agt.model) (tool_servers agt.tool_servers servers).1

-- The loop over the syncs.
unfoldable pub sync_errors : List (String → Option Error) → String → List (Option Error)
sync_errors [] agent_id = []
sync_errors (sync ∷ syncs) agent_id = sync agent_id ∷ sync_errors syncs agent_id

abbrev pub synced :
    List (String → Option Error) → String → Option Error × AgentDisk → Option Error × AgentDisk
synced syncs agent_id (some e, d) = (some e, d)
synced syncs agent_id (none, d) = (errors_join (gather_errors (sync_errors syncs agent_id)), d)

abbrev pub delete_found :
    List (String → Option Error) → String → AgentDisk → Result Agent → Option Error × AgentDisk
delete_found syncs agent_id d (err e) = (some e, d)
delete_found syncs agent_id d (ok agt) = synced syncs agent_id (delete_agent d agent_id)

-- Delete
unfoldable pub delete_synced :
    List (String → Option Error) → String → AgentDisk → Option Error × AgentDisk
unfolding delete_agent get_agent sync_errors
delete_synced syncs agent_id d = delete_found syncs agent_id d (get_agent d agent_id)
