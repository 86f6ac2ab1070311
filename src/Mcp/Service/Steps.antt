-- ===== src/Mcp/Service/Steps.antt =====
-- What the methods of internal/mcp/service.go do, in any order, with connections that end between
-- them.
use arch_agent.Mcp.{Outside, McpServer, ServerGatewayConfig, new_mcp_server}
use arch_agent.Mcp.Service.{
  Service, Repo, Entry, register, override, set_server, goroutine_ends, connect_server,
  start_server, shutdown_server, shutdown_deleted, gather_candidates,
}
use arch_agent.Mcp.Service.Registered.{Registered, is_running, goroutine_ends-Registered}
use arch_agent.Base.{
  Bool-cases, Option, Option-cases, String, [], arith, inl, inr, is_some, none, refl, some, subst,
  sym, true, ℕ, ◌∷◌, ◌≡◌,
}
use arch_agent.Base.Dict.{Dict, lookup}
use arch_agent.Base.Keys.{string_eq}
use arch_agent.Errors.{Error, Result, err, ok}
use arch_agent.Mcp.{config_equals}
use arch_agent.Tools.{connect}
use arch_agent.Base.Dict.{insert}
use arch_agent.Mcp.Service.{list_server, maybe_shut, of_mcp, registered, sync_configs}
use arch_agent.Mcp.Service.Registered.{registered-Registered}

-- A shutdown changes neither the tool service nor the goroutines.
shutdown_server-Registered :
    (id : String) (srv : McpServer) (s : Service)
    → Registered s
    → Registered (shutdown_server id srv s)
unfolding shutdown_server
shutdown_server-Registered id srv s inv = record { exactly = inv.exactly; order = inv.order }

shutdown_deleted-Registered :
    (cfgs : Dict String ServerGatewayConfig) (servers : Dict String McpServer) (s : Service)
    → Registered s
    → Registered (shutdown_deleted cfgs servers s)
unfolding shutdown_deleted
shutdown_deleted-Registered cfgs [] s inv = inv
shutdown_deleted-Registered cfgs ((id, srv) ∷ servers) s inv =
    elim (Option-cases (lookup id cfgs)) [
      | inl q ↦
          rw (q, shutdown_deleted)
            (shutdown_deleted-Registered cfgs servers _ (shutdown_server-Registered id srv s inv))
      | inr (cfg, q) ↦ rw (q, shutdown_deleted) (shutdown_deleted-Registered cfgs servers s inv)
    ]

gather_candidates-Registered :
    (cfgs : Dict String ServerGatewayConfig) (s : Service)
    → Registered s
    → Registered (gather_candidates cfgs s).1
unfolding gather_candidates
gather_candidates-Registered [] s inv = inv
gather_candidates-Registered ((id, cfg) ∷ cfgs) s inv = elim (Option-cases (lookup id s.servers)) [
  | inl q ↦ rw (q, gather_candidates) (gather_candidates-Registered cfgs s inv)
  | inr (srv, q) ↦
      rw (q, gather_candidates)
        (elim (Bool-cases (config_equals cfg srv.config)) [
          | inl same ↦ rw same (gather_candidates-Registered cfgs s inv)
          | inr changed ↦
              rw changed
                (gather_candidates-Registered cfgs _ (shutdown_server-Registered id srv s inv))
        ])
]

sync_configs-Registered :
    (cfgs : Dict String ServerGatewayConfig) (s : Service)
    → Registered s
    → Registered (sync_configs cfgs s).1
unfolding sync_configs
sync_configs-Registered cfgs s inv =
    gather_candidates-Registered cfgs _ (shutdown_deleted-Registered cfgs s.servers s inv)

connect-vacant :
    (srv : McpServer) (s : Service) (registry : Dict String Entry)
    → connect srv.id (of_mcp srv.pointer) s.registry ≡ ok registry
    → (lookup srv.id s.registry ≡ none) × (insert srv.id (of_mcp srv.pointer) s.registry ≡ registry)
unfolding connect
connect-vacant srv s registry h = ground arith

maybe_shut-Registered :
    (depricated : Option McpServer) (s : Service)
    → Registered s
    → Registered (maybe_shut depricated s)
maybe_shut-Registered none s inv = inv
maybe_shut-Registered (some srv) s inv = record { exactly = inv.exactly; order = inv.order }

-- What the methods do to the service, piece by piece: Reload under the mutex, connectServer as it
-- registers a server of the factory and as it puts it into the map, SetServer as it shuts the old
-- server down, and the end of a connection. Whatever else goes on stands between them.
pub data Step (s : Service) : Service → Type 0 where
  syncs : (cfgs : Dict String ServerGatewayConfig) → Step s (sync_configs cfgs s).1
  connects :
      (srv : McpServer) (registry : Dict String Entry)
      → srv.pointer ≡ s.next
      → connect srv.id (of_mcp srv.pointer) s.registry ≡ ok registry
      → Step s (registered srv registry s)
  lists : (srv : McpServer) → Step s (list_server srv s)
  shuts : (depricated : Option McpServer) → Step s (maybe_shut depricated s)
  ends :
      (srv : McpServer)
      → is_running srv.id srv.pointer s.running ≡ true
      → Step s (goroutine_ends srv s)

pub data Steps (s : Service) : Service → Type 0 where
  nothing_yet : Steps s s
  more : {t u : Service} → Steps s t → Step t u → Steps s u

Step-Registered : {s t : Service} → Step s t → Registered s → Registered t
unfolding list_server
Step-Registered {s} (syncs cfgs) inv = sync_configs-Registered cfgs s inv
Step-Registered {s} (connects srv registry new free) inv =
    let here = connect-vacant srv s registry free in
    subst (λ r. Registered (registered srv r s)) here.1 (registered-Registered srv s new here.0 inv)
Step-Registered {s} (lists srv) inv = record { exactly = inv.exactly; order = inv.order }
Step-Registered {s} (shuts depricated) inv = maybe_shut-Registered depricated s inv
Step-Registered {s} (ends srv member) inv = goroutine_ends-Registered srv s member inv

-- However the pieces of Reload, SetServer and connectServer and the ends of connections interleave: if
-- the tool service has the servers of this package exactly from their Connect to their Disconnect,
-- and those connected later have greater pointers, it stays so.
pub Steps-Registered : {s t : Service} → Steps s t → Registered s → Registered t
Steps-Registered nothing_yet inv = inv
Steps-Registered (more steps step) inv = Step-Registered step (Steps-Registered steps inv)

abbrev Refused : Service → Option Error × Service → Type 0
Refused s r = (is_some r.0 ≡ true) × (r.1 ≡ s)

new_mcp_server-id :
    (out : Outside) (id : String) (cfg : ServerGatewayConfig) (p : ℕ) (srv : McpServer)
    → new_mcp_server out id cfg p ≡ ok srv
    → srv.id ≡ id
unfolding new_mcp_server
new_mcp_server-id out id cfg p srv h = ground arith

register-Refused :
    (id : String) (r : Result McpServer) (s : Service) (old : Entry)
    → ((srv : McpServer) → r ≡ ok srv → srv.id ≡ id)
    → lookup id s.registry ≡ some old
    → Refused s (register r s)
unfolding register start_server connect
register-Refused id (err e) s old named taken = (refl, refl)
register-Refused id (ok srv) s old named taken =
    let here = subst (λ n. lookup n s.registry ≡ some old) (sym (named srv refl)) taken in
    rw (here, connect) (refl, refl)

override-Refused :
    (repo : Repo) (depricated : Option McpServer) (s : Service) (r : Option Error × Service)
    → Refused s r
    → Refused s (override repo depricated r.0 r.1)
unfolding override
override-Refused repo depricated s (some e, s') h = h
override-Refused repo depricated s (none, s') h = cc

-- SetServer on an id that the tool service knows always returns an error, and changes nothing: the
-- server of that id is not replaced.
pub set_server-taken :
    (out : Outside) (repo : Repo) (id : String) (cfg : ServerGatewayConfig) (s : Service)
    (old : Entry)
    → lookup id s.registry ≡ some old
    → (is_some (set_server out repo id cfg s).0 ≡ true) × ((set_server out repo id cfg s).1 ≡ s)
unfolding set_server connect_server
set_server-taken out repo id cfg s old taken = override-Refused repo (lookup id s.servers) s _ (
    register-Refused id (new_mcp_server out id cfg s.next) s old
      (new_mcp_server-id out id cfg s.next) taken)
