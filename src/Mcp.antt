-- ===== src/Mcp.antt =====
-- internal/mcp: the configurations of mcp.go, and the making of a server.
pub mod Service
use arch_agent.Base.{concat}
use arch_agent.Base.{
  Bool, List, Option, String, [], false, if◌then◌else◌, length, nat_eq, none, some, true, ℕ, ◌&&◌,
  ◌∷◌,
}
use arch_agent.Base.Dict.{Dict, lookup}
use arch_agent.Base.Keys.{Eq, string_eq, ◌==◌}
use arch_agent.Errors.{Error, Result, err, ok, problems}

pub record HttpGatewayConfig : Type 0 where
  pub url : String
  pub token : String

pub record CommandGatewayConfig : Type 0 where
  pub command : String
  pub args : List String
  pub env : Dict String String

-- A nil pointer is `none`.
pub record ServerGatewayConfig : Type 0 where
  pub http_gateway : Option HttpGatewayConfig
  pub command_gateway : Option CommandGatewayConfig

abbrev one_problem : String → String → Option Error
one_problem key value = some (problems ((key, value) ∷ []))

-- (ServerGatewayConfig).Validate
unfoldable pub validate_gateways :
    Option HttpGatewayConfig → Option CommandGatewayConfig → Option Error
validate_gateways none none =
    one_problem "config" "config is empty. At least one gateway must be specified"
validate_gateways (some h) (some c) =
    one_problem "config" "expected only one gateway, specified both"
validate_gateways (some h) none =
    if h.url == "" then one_problem "http_gateway" "url is empty" else none
validate_gateways none (some c) =
    if c.command == "" then one_problem "command_gateway" "command is empty" else none

unfoldable pub http_equals : Option HttpGatewayConfig → Option HttpGatewayConfig → Bool
http_equals none none = true
http_equals (some h) (some other) = (h.url == other.url) && (h.token == other.token)
http_equals _ _ = false

abbrev pub args_equal : List String → List String → Bool
args_equal [] [] = true
args_equal (x ∷ xs) (y ∷ ys) = (x == y) && args_equal xs ys
args_equal _ _ = false

-- maps.Equal: as many keys, and the same value under each.
abbrev pub has_value : Option String → String → Bool
has_value none v = false
has_value (some w) v = w == v

abbrev pub all_in : Dict String String → Dict String String → Bool
all_in [] other = true
all_in ((k, v) ∷ m) other = has_value (lookup k other) v && all_in m other

unfoldable pub command_equals : Option CommandGatewayConfig → Option CommandGatewayConfig → Bool
command_equals none none = true
command_equals (some c) (some other) =
    (c.command == other.command)
    && (args_equal c.args other.args
        && (nat_eq (length c.env) (length other.env) && all_in c.env other.env))
command_equals _ _ = false

unfoldable pub config_equals : ServerGatewayConfig → ServerGatewayConfig → Bool
unfolding http_equals command_equals
config_equals s other =
    http_equals s.http_gateway other.http_gateway
    && command_equals s.command_gateway other.command_gateway

abbrev pub gateway_problem : Error
gateway_problem = problems (("config", "must be at least one gateway (http or command)") ∷ [])

-- What the server depends on outside of the program: exec.LookPath, of which `none` is a command that
-- is found, and a first session with the instructions that the server sends.
pub record Outside : Type 0 where
  pub look_path : String → Option Error
  pub create_session : ServerGatewayConfig → Result String

-- mcpServer or mcpServerInstructed. `pointer` tells two servers of one id apart.
pub record McpServer : Type 0 where
  pub id : String
  pub config : ServerGatewayConfig
  pub instruction : String
  pub pointer : ℕ

-- validateConfig and createGateway: which error they return, if any.
unfoldable pub create_gateway :
    Outside → Option HttpGatewayConfig → Option CommandGatewayConfig → Option Error
create_gateway out none none = some gateway_problem
create_gateway out (some h) (some c) = some gateway_problem
create_gateway out (some h) none = none
create_gateway out none (some c) = out.look_path c.command

abbrev server_of : String → ServerGatewayConfig → ℕ → Result String → Result McpServer
server_of id cfg pointer (err e) = err e
server_of id cfg pointer (ok instruction) =
    let srv : McpServer = record {
      id = id;
      config = cfg;
      instruction = instruction;
      pointer = pointer;
    } in
    ok srv

-- NewMCPServer
unfoldable pub new_mcp_server : Outside → String → ServerGatewayConfig → ℕ → Result McpServer
unfolding create_gateway
new_mcp_server out id cfg pointer = elim (create_gateway out cfg.http_gateway cfg.command_gateway) [
  | some e ↦ err e
  | none ↦ server_of id cfg pointer (out.create_session cfg)
]
