-- ===== src/Mcp/Service/Registered.antt =====
-- Which servers of internal/mcp/service.go the tool service knows.
use arch_agent.Mcp.{new_mcp_server, Outside, McpServer, ServerGatewayConfig}
use arch_agent.Mcp.Service.{Service, of_mcp}
use arch_agent.Base.{
  Bool, Bool-cases, List, String, [], arith, false, inl, inr, keep_if, nat_eq, none, not, refl,
  some, true, ℕ, ◌&&◌, ◌<◌, ◌||◌, ◌↔◌, ◌∷◌, ◌≡◌, ◌≤◌,
}
use arch_agent.Base.Dict.{insert, lookup, lookup-delete}
use arch_agent.Base.Keys.{==_iff, string_eq, ◌==◌}
use arch_agent.Errors.{ok}
use arch_agent.Mcp.Service.{goroutine_ends}
use arch_agent.Tools.{disconnect}
use arch_agent.Base.{subst, sym}
use arch_agent.Base.Dict.{lookup-insert}
use arch_agent.Mcp.Service.{registered}

-- A goroutine runs for a server of this id and pointer.
abbrev pub is_running : String → ℕ → List McpServer → Bool
is_running name p [] = false
is_running name p (r ∷ rs) = ((r.id == name) && nat_eq r.pointer p) || is_running name p rs

-- The servers started later stand in front, and have greater pointers.
abbrev Descending : ℕ → List McpServer → Type 0
Descending bound [] = Unit
Descending bound (r ∷ rs) = (r.pointer < bound) × Descending r.pointer rs

-- The tool service has a server of this package under a name exactly while its goroutine runs, from
-- its Connect on.
pub record Registered (s : Service) : Type 0 where
  pub exactly :
      (name : String) (p : ℕ)
      → (lookup name s.registry ≡ some (of_mcp p)) ↔ (is_running name p s.running ≡ true)
  pub order : Descending s.next s.running

is_running-below :
    (name : String) (p bound : ℕ) (rs : List McpServer)
    → Descending bound rs
    → is_running name p rs ≡ true
    → p < bound
is_running-below name p bound [] d h = cc
is_running-below name p bound (r ∷ rs) d h =
    ground (arith, d.0, is_running-below name p r.pointer rs d.1)

-- A pointer stands for one name.
is_running-injective :
    (a b : String) (p bound : ℕ) (rs : List McpServer)
    → Descending bound rs
    → is_running a p rs ≡ true
    → is_running b p rs ≡ true
    → a ≡ b
is_running-injective a b p bound [] d h k = cc
is_running-injective a b p bound (r ∷ rs) d h k = ground (
  arith,
  ==_iff r.id a,
  ==_iff r.id b,
  is_running-below a p r.pointer rs d.1,
  is_running-below b p r.pointer rs d.1,
  is_running-injective a b p r.pointer rs d.1,
)

abbrev without : ℕ → List McpServer → List McpServer
without q rs = keep_if (λ (r : McpServer). not (nat_eq r.pointer q)) rs

is_running-without :
    (name : String) (p q : ℕ) (rs : List McpServer)
    → is_running name p (without q rs) ≡ (is_running name p rs && not (nat_eq p q))
is_running-without name p q [] = refl
is_running-without name p q (r ∷ rs) = ground (arith, is_running-without name p q rs)

Descending-mono : (a b : ℕ) (rs : List McpServer) → a ≤ b → Descending a rs → Descending b rs
Descending-mono a b [] h d = tt
Descending-mono a b (r ∷ rs) h d = (omega (arith, d.0), d.1)

without-Descending :
    (bound q : ℕ) (rs : List McpServer) → Descending bound rs → Descending bound (without q rs)
without-Descending bound q [] d = tt
without-Descending bound q (r ∷ rs) d = elim (Bool-cases (nat_eq r.pointer q)) [
  | inl gone ↦ rw gone (
      Descending-mono r.pointer bound _ (omega (arith, d.0))
        (without-Descending r.pointer q rs d.1))
  | inr kept ↦ rw kept (d.0, without-Descending r.pointer q rs d.1)
]

pub goroutine_ends-Registered :
    (srv : McpServer) (s : Service)
    → is_running srv.id srv.pointer s.running ≡ true
    → Registered s
    → Registered (goroutine_ends srv s)
unfolding goroutine_ends disconnect
goroutine_ends-Registered srv s member inv = record {
  exactly = λ name p. ground (
    arith,
    lookup-delete srv.id name s.registry,
    is_running-without name p srv.pointer s.running,
    ==_iff srv.id name,
    inv.exactly name p,
    inv.exactly srv.id srv.pointer,
    is_running-injective name srv.id p s.next s.running inv.order,
  );
  order = without-Descending s.next srv.pointer s.running inv.order;
}

new_mcp_server-pointer :
    (out : Outside) (id : String) (cfg : ServerGatewayConfig) (p : ℕ) (srv : McpServer)
    → new_mcp_server out id cfg p ≡ ok srv
    → srv.pointer ≡ p
unfolding new_mcp_server
new_mcp_server-pointer out id cfg p srv h = ground arith

pub registered-Registered :
    (srv : McpServer) (s : Service)
    → srv.pointer ≡ s.next
    → lookup srv.id s.registry ≡ none
    → Registered s
    → Registered (registered srv (insert srv.id (of_mcp srv.pointer) s.registry) s)
unfolding registered
registered-Registered srv s new vacant inv = record {
  exactly = λ name p. ground (
    arith,
    lookup-insert srv.id name (of_mcp srv.pointer) s.registry,
    ==_iff srv.id name,
    inv.exactly name p,
  );
  order = (omega (arith, new), subst (λ b. Descending b s.running) (sym new) inv.order);
}
