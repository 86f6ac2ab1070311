-- ===== src/Tests/Servers.antt =====
-- Examples for internal/tools/service.go and internal/mcp.
use arch_agent.Chat.{distilled}
use arch_agent.Tools.{tool_servers}
use arch_agent.Tools.Missing.{tool_servers-distill}
use arch_agent.Mcp.{ServerGatewayConfig}
use arch_agent.Mcp.Service.{Service}
use arch_agent.Mcp.Service.Registered.{Registered}
use arch_agent.Mcp.Service.Steps.{more, nothing_yet, Steps-Registered}
use arch_agent.Base.{true, is_some, String, [], arith, none, some, ℕ, ◌∷◌, ◌≡◌}
use arch_agent.Base.Dict.{Dict, lookup}
use arch_agent.Base.Keys.{string_eq}
use arch_agent.Mcp.Service.{built_in}
use arch_agent.Base.{refl}
use arch_agent.Base.Dict.{insert}
use arch_agent.Mcp.{McpServer}
use arch_agent.Mcp.Service.{
  Entry, gather_candidates, goroutine_ends, list_server, of_mcp, registered, shutdown_deleted,
  sync_configs,
}
use arch_agent.Mcp.Service.Steps.{connects, ends, lists, syncs}
use arch_agent.Tools.{connect}

abbrev two_servers : Dict String ℕ
two_servers = ("fs", 1) ∷ ("todo", 2) ∷ []

tool_servers-distill_example :
    ((tool_servers ("fs" ∷ "git" ∷ []) two_servers).0 ≡ 1 ∷ [])
    × (is_some (tool_servers ("fs" ∷ "git" ∷ []) two_servers).1 ≡ true)
    × (distilled (tool_servers ("fs" ∷ "git" ∷ []) two_servers).1 ≡ none)
unfolding lookup
tool_servers-distill_example = tool_servers-distill ("fs" ∷ "git" ∷ []) two_servers

abbrev git : ServerGatewayConfig
git = record {
  http_gateway = some (record { url = "http://localhost"; token = "" });
  command_gateway = none;
}

abbrev fresh_service : Service
fresh_service = record {
  servers = [];
  registry = ("fs", built_in) ∷ [];
  running = [];
  shut = [];
  next = 0;
}

fresh_service-Registered : Registered fresh_service
unfolding lookup
fresh_service-Registered = record { exactly = λ name p. ground arith; order = tt }

-- The reload of a configuration with one new server, which is connected, and whose connection ends
-- before it stands in the map.
abbrev git_server : McpServer
git_server = record { id = "git"; config = git; instruction = "be careful"; pointer = 0 }

abbrev registry : Dict String Entry
registry = insert "git" (of_mcp 0) fresh_service.registry

abbrev after_sync : Service
after_sync = (sync_configs (("git", git) ∷ []) fresh_service).1

abbrev gone : Service
gone = goroutine_ends git_server (registered git_server registry after_sync)

Steps-Registered_example : Registered (list_server git_server gone)
unfolding sync_configs shutdown_deleted gather_candidates registered connect lookup insert
Steps-Registered_example =
    Steps-Registered
      (more
        (more
          (more (more nothing_yet (syncs (("git", git) ∷ [])))
            (connects git_server registry refl refl))
          (ends git_server refl))
        (lists git_server))
      fresh_service-Registered
