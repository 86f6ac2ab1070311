-- ===== src/Hooks/Sets/AgentRules.antt =====
-- What the rules of NewAgentHooks in internal/hooks/hook_sets.go come to.
use arch_agent.Hooks.FileAccess.{PathLib, is_allow, resolve_paths, file_access}
use arch_agent.Hooks.FileAccess.Permitted.{Permitted, file_access-Permitted}
use arch_agent.Hooks.Sets.{agent_rules}
use arch_agent.Agent.{ToolCall}
use arch_agent.Base.{All, Bool, List, String, [], arith, false, true, ℕ, ◌||◌, ◌∷◌, ◌≡◌}
use arch_agent.Base.Keys.{string_eq, ◌==◌}
use arch_agent.Errors.{ok}
use arch_agent.Hooks.FileAccess.{access_of}
use arch_agent.Runtime.Hook.{applied}
use arch_agent.Base.{Bool-cases, inl, inr, refl, subst, ◌≤◌}
use arch_agent.Base.Keys.{==_iff}
use arch_agent.Hooks.FileAccess.{Access, access_level, no_access, read_access, write_access}
use arch_agent.Hooks.FileAccess.Permitted.{access_of-FirstMatch}
use arch_agent.Base.{not, ◌&&◌}

abbrev pub is_writing : String → Bool
is_writing tool_name = (tool_name == "edit") || ((tool_name == "write") || (tool_name == "move"))

is_writing-read : (t : String) → is_writing t ≡ true → (t == "read") ≡ false
is_writing-read t h = elim (Bool-cases (t == "read")) [
  | inl q ↦ absurd (not_writing (subst (λ n. is_writing n ≡ true) ((==_iff t "read").0 q) h))
  | inr q ↦ q
]
  where
    not_writing : is_writing "read" ≡ true → ⊥
    not_writing h = cc

-- What an access has to be for a tool to be allowed.
is_allow-level :
    (t : String) (a : Access)
    → is_allow t a ≡ true
    → (1 ≤ access_level a) × (is_writing t ≡ true → access_level a ≡ 2)
unfolding is_allow
is_allow-level t no_access h = absurd (ground arith)
is_allow-level t read_access h = (omega arith, λ k. absurd (ground (arith, is_writing-read t k)))
is_allow-level t write_access h = (omega arith, λ _. refl)

module _ {D : Type 0} (lib : PathLib D) where
  -- `p` lies in what the rules keep: `p` is a file that may only be read, or not even that.
  abbrev pub is_read_only : String → Bool
  is_read_only p =
      lib.path_match "agent.log" p
      || (lib.path_match "secrets.toml" p || lib.path_match "*/activity/**" p)

  abbrev pub is_closed : String → Bool
  is_closed p = lib.path_match "*/agent.md" p || lib.path_match "*/sessions/**" p

  -- What a path that passes may be.
  abbrev pub is_open : String → String → Bool
  is_open tool_name p =
      (not (is_writing tool_name) || not (is_read_only p || is_closed p))
      && (not (is_closed p) || (lib.path_match "agent.log" p || lib.path_match "secrets.toml" p))

  access_of-agent_rules :
      (p : String)
      → let level = access_level (access_of lib agent_rules p) in
        (level ≡ 2 → (is_read_only p || is_closed p) ≡ false)
        × (1 ≤ level
            → is_closed p ≡ true
            → (lib.path_match "agent.log" p || lib.path_match "secrets.toml" p) ≡ true)
  unfolding access_of agent_rules
  access_of-agent_rules p = ground arith

  is_allow-is_open :
      (tool_name p : String)
      → is_allow tool_name (access_of lib agent_rules p) ≡ true
      → is_open tool_name p ≡ true
  is_allow-is_open tool_name p h =
      ground (arith, is_allow-level tool_name _ h, access_of-agent_rules p)

  Permitted-open :
      (fuel : ℕ) (d : D) (tool_name : String) (paths : List String)
      → All (λ p. Permitted lib fuel agent_rules d tool_name (lib.clean p)) paths
      → All (λ p. is_open tool_name (lib.clean p) ≡ true) paths
  Permitted-open fuel d tool_name [] h = tt
  Permitted-open fuel d tool_name (p ∷ ps) h = (
    is_allow-is_open tool_name (lib.clean p)
        (rw (access_of-FirstMatch lib (lib.clean p) h.0.first) h.0.allows),
    Permitted-open fuel d tool_name ps h.1,
  )

  -- A call that resolves to paths and passes the hook with the rules of a chat touches what they
  -- keep as follows: an edit, write or move has no path that matches the log, the secrets, an agent
  -- file, a session or an activity; and no call has a path that matches an agent file or a session,
  -- unless the path matches the log or the secrets as well.
  pub file_access-agent_rules :
      (fuel : ℕ) (d : D) (tc : ToolCall) (paths : List String)
      → resolve_paths lib tc ≡ ok paths
      → file_access lib fuel agent_rules d tc ≡ applied tc
      → All (λ p. is_open tc.tool_name (lib.clean p) ≡ true) paths
  file_access-agent_rules fuel d tc paths q h =
      Permitted-open fuel d tc.tool_name paths
        ((file_access-Permitted lib fuel agent_rules d tc paths q).0 h)
