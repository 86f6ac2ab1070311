-- ===== src/Hooks/Sets.antt =====
-- internal/hooks/hook_sets.go: the hooks of a chat and of the consolidation of memory. A pattern is
-- joined with the separator of Unix, as filepath.Join does with elements that are clean.
pub mod AgentRules
use arch_agent.Base.{join}
use arch_agent.Hooks.{World, Cautions, Indexer}
use arch_agent.Hooks.Completion.{only_valid_memory_frontmatter, empty_answer, undone_todo}
use arch_agent.Hooks.ContentSize.{content_size_limit}
use arch_agent.Hooks.FileAccess.{
  PathLib, Rule, no_access, read_access, write_access, new_file_access, file_access,
}
use arch_agent.Hooks.Secrets.{never_read_secrets, never_tool_call_secrets, never_type_secrets}
use arch_agent.Base.{List, Option, String, [], ℕ, ◌*◌, ◌∷◌}
use arch_agent.Errors.{Result, err, ok, ◌>>=◌}
use arch_agent.Hooks.FileAccess.{Access}
use arch_agent.Runtime.Hook.{Hook, completion_hook, tool_call_hook, tool_result_hook}

abbrev pub twenty_four_kb : ℕ
twenty_four_kb = 24 * 1024

abbrev rule : String → Access → Rule
rule p a = record { pattern_text = p; access = a }

unfoldable pub agent_rules : List Rule
agent_rules =
    rule "agent.log" read_access
    ∷ rule "secrets.toml" read_access
    ∷ rule "*/agent.md" no_access
    ∷ rule "*/sessions/**" no_access
    ∷ rule "*/activity/**" read_access
    ∷ rule "**" write_access
    ∷ []

-- The rules below the folder of the agent.
unfoldable pub memory_rules : String → List Rule
memory_rules agent_id =
    rule (join "/" (agent_id ∷ "activity" ∷ "**" ∷ [])) read_access
    ∷ rule (join "/" (agent_id ∷ "memory" ∷ "**" ∷ [])) write_access
    ∷ rule (join "/" (agent_id ∷ "agent.md" ∷ [])) no_access
    ∷ []

-- What the two sets are made of: `fuel` bounds the search for symlinks, `session` is the one of the
-- context, `cut` cuts the bytes of a text, `replace` is the replacer of secrets.
pub record Parts (R : Type 0) : Type 0 where
  pub lib : PathLib R
  pub fuel : ℕ
  pub session : Option String
  pub cautions : Cautions
  pub cut : ℕ → String → String
  pub replace : R → String → String
  pub indexer : Indexer R

module _ {R : Type 0} (parts : Parts R) where
  -- The hook of rules that NewFileAccessHook took.
  unfoldable pub access_hook : List Rule → Hook (World R)
  access_hook rules = tool_call_hook (λ tc w. (file_access parts.lib parts.fuel rules w.rest tc, w))

  unfoldable pub agent_hook_list : List Rule → List (Hook (World R))
  unfolding access_hook
  agent_hook_list rules =
      access_hook rules
      ∷ completion_hook (undone_todo parts.session parts.cautions)
      ∷ tool_result_hook (content_size_limit parts.cut twenty_four_kb)
      ∷ tool_result_hook (never_read_secrets (λ (w : World R). parts.replace w.rest))
      ∷ tool_call_hook (never_tool_call_secrets (λ (w : World R). parts.replace w.rest))
      ∷ completion_hook (never_type_secrets (λ (w : World R). parts.replace w.rest))
      ∷ []

  -- NewAgentHooks
  unfoldable pub new_agent_hooks : Result (List (Hook (World R)))
  unfolding agent_hook_list
  new_agent_hooks = new_file_access parts.lib agent_rules >>= λ rules. ok (agent_hook_list rules)

  unfoldable pub memory_hook_list : String → List Rule → List (Hook (World R))
  unfolding access_hook
  memory_hook_list agent_id rules =
      access_hook rules
      ∷ completion_hook (only_valid_memory_frontmatter parts.indexer agent_id)
      ∷ completion_hook (empty_answer parts.cautions)
      ∷ []

  -- NewMemoryHooks
  unfoldable pub new_memory_hooks : String → Result (List (Hook (World R)))
  unfolding memory_hook_list
  new_memory_hooks agent_id = new_file_access parts.lib (memory_rules agent_id) >>= λ rules.
      ok (memory_hook_list agent_id rules)

  abbrev or_no_hooks : Result (List (Hook (World R))) → List (Hook (World R))
  or_no_hooks (err e) = []
  or_no_hooks (ok hooks) = hooks

  -- NewMemoryHooksResolver: the factory, which drops the error of NewMemoryHooks.
  unfoldable pub new_memory_hooks_resolver : Result (String → List (Hook (World R)))
  new_memory_hooks_resolver = new_memory_hooks "unexisted_agent" >>= λ _.
      ok (λ agent_id. or_no_hooks (new_memory_hooks agent_id))
