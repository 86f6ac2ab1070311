-- ===== src/Hooks/Secrets.antt =====
-- internal/hooks/secrets.go: secrets give way to placeholders. `replace` is Replcaer, over a world
-- that it does not write.
use arch_agent.Hooks.ContentSize.{with_result}
use arch_agent.Agent.{Completion, ContentPart, ToolCall}
use arch_agent.Base.{List, String, [], ◌∷◌}
use arch_agent.Runtime.{AfterToolCall}
use arch_agent.Runtime.Hook.{Applied, applied}

module _ {W : Type 0} (replace : W → String → String) where
  -- NeverTypeSecretsHook
  unfoldable pub never_type_secrets : Completion → W → Applied Completion × W
  never_type_secrets c w = (applied (record c { content = replace w c.content }), w)

  -- NeverToolCallSecretsHook. The source writes into the call that it is given; here the new call is
  -- what the hook returns, and others that have the call keep the old one.
  unfoldable pub never_tool_call_secrets : ToolCall → W → Applied ToolCall × W
  never_tool_call_secrets c w = (applied (record c { arguments = replace w c.arguments }), w)

  unfoldable pub safe_parts : W → List ContentPart → List ContentPart
  safe_parts w [] = []
  safe_parts w (cp ∷ cps) =
      (record { text = replace w cp.text; image_url = cp.image_url }) ∷ safe_parts w cps

  -- NeverReadSecretsHook
  unfoldable pub never_read_secrets : AfterToolCall → W → Applied AfterToolCall × W
  unfolding safe_parts
  never_read_secrets c w = (applied (with_result c (safe_parts w c.tool_result.result)), w)
