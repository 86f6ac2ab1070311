-- ===== src/Mcp/Service.antt =====
-- internal/mcp/service.go. Its methods are pieces between which other goroutines may run: what Reload
-- does under the mutex, a success of toolSvc.Connect, the entry into the map of servers, a shutdown,
-- and the end of the goroutine behind a server. Each is a function of the state.
pub mod Registered
pub mod Steps
use arch_agent.Base.{
  List, Option, String, [], if◌then◌else◌, keep_if, nat_eq, none, not, some, suc, ℕ, ◌∷◌,
}
use arch_agent.Base.Dict.{Dict, delete, insert, lookup}
use arch_agent.Base.Keys.{string_eq}
use arch_agent.Errors.{Error, Result, err, ok, wrap}
use arch_agent.Mcp.{McpServer, Outside, ServerGatewayConfig, config_equals, new_mcp_server}
use arch_agent.Task.Files.{save}
use arch_agent.Task.Service.Reload.{running}
use arch_agent.Tools.{connect, disconnect}

-- A server that the program brings along, or a server of this package.
pub data Entry : Type 0 where
  built_in : Entry
  of_mcp : ℕ → Entry

-- Service with the map of the tool service, the servers whose goroutine has not ended, the pointers
-- that were shut down, and the pointer that the next server gets.
pub record Service : Type 0 where
  pub servers : Dict String McpServer
  pub registry : Dict String Entry
  pub running : List McpServer
  pub shut : List ℕ
  pub next : ℕ

-- What the repository returns.
pub record Repo : Type 0 where
  pub load : Result (Dict String ServerGatewayConfig)
  pub save : Option Error

-- A success of toolSvc.Connect. The goroutine counts as running from here until it disconnects.
unfoldable pub registered : McpServer → Dict String Entry → Service → Service
registered srv registry s = record s {
  registry = registry;
  running = srv ∷ s.running;
  next = suc s.next;
}

-- s.servers[srv.ID()] = srv
unfoldable pub list_server : McpServer → Service → Service
list_server srv s = record s { servers = insert srv.id srv s.servers }

unfoldable pub start_server :
    McpServer → Result (Dict String Entry) → Service → Option Error × Service
unfolding registered list_server
start_server srv (err e) s = (some (wrap "mcp: register tools" e), s)
start_server srv (ok registry) s = (none, list_server srv (registered srv registry s))

unfoldable pub register : Result McpServer → Service → Option Error × Service
unfolding start_server
register (err e) s = (some (wrap "mcp: server initialization" e), s)
register (ok srv) s = start_server srv (connect srv.id (of_mcp srv.pointer) s.registry) s

unfoldable pub connect_server :
    Outside → String → ServerGatewayConfig → Service → Option Error × Service
unfolding register
connect_server out id cfg s = register (new_mcp_server out id cfg s.next) s

-- srv.Shutdown() and delete(s.servers, id)
unfoldable pub shutdown_server : String → McpServer → Service → Service
shutdown_server id srv s = record s { servers = delete id s.servers; shut = srv.pointer ∷ s.shut }

unfoldable pub shutdown_deleted :
    Dict String ServerGatewayConfig → Dict String McpServer → Service → Service
unfolding shutdown_server
shutdown_deleted cfgs [] s = s
shutdown_deleted cfgs ((id, srv) ∷ servers) s = elim (lookup id cfgs) [
  | some cfg ↦ shutdown_deleted cfgs servers s
  | none ↦ shutdown_deleted cfgs servers (shutdown_server id srv s)
]

unfoldable pub gather_candidates :
    Dict String ServerGatewayConfig → Service → Dict String ServerGatewayConfig × Service
unfolding shutdown_server
gather_candidates [] s = ([], s)
gather_candidates ((id, cfg) ∷ cfgs) s = elim (lookup id s.servers) [
  | none ↦ let (more, s') = gather_candidates cfgs s in ((id, cfg) ∷ more, s')
  | some srv ↦
      if config_equals cfg srv.config
      then gather_candidates cfgs s
      else (let (more, s') = gather_candidates cfgs (shutdown_server id srv s) in
          ((id, cfg) ∷ more, s'))
]

-- What Reload does under the mutex: the candidates for connectServers, and the service.
unfoldable pub sync_configs :
    Dict String ServerGatewayConfig → Service → Dict String ServerGatewayConfig × Service
unfolding shutdown_deleted gather_candidates
sync_configs cfgs s = gather_candidates cfgs (shutdown_deleted cfgs s.servers s)

abbrev pub maybe_shut : Option McpServer → Service → Service
maybe_shut none s = s
maybe_shut (some srv) s = record s { shut = srv.pointer ∷ s.shut }

unfoldable pub override : Repo → Option McpServer → Option Error → Service → Option Error × Service
override repo depricated (some e) s = (some e, s)
override repo depricated none s = (repo.save, maybe_shut depricated s)

-- A run of SetServer with nothing in between.
unfoldable pub set_server :
    Outside → Repo → String → ServerGatewayConfig → Service → Option Error × Service
unfolding connect_server override
set_server out repo id cfg s =
    let (e, s') = connect_server out id cfg s in override repo (lookup id s.servers) e s'

-- The end of the goroutine of connectServer: its server is disconnected from the tools, but stays in
-- the map of this service.
unfoldable pub goroutine_ends : McpServer → Service → Service
goroutine_ends srv s = record s {
  registry = disconnect srv.id s.registry;
  running = keep_if (λ (r : McpServer). not (nat_eq r.pointer srv.pointer)) s.running;
}
