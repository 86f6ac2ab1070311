-- ===== src/Hooks/ContentSize.antt =====
-- internal/hooks/contentsize.go. `cut n s` is `s[:n]` of the bytes of a text.
use arch_agent.Base.{◌/◌, concat, leb}
use arch_agent.Base.Decimal.{decimal}
use Prim.Native.String.{len}
use arch_agent.Agent.{ContentPart, new_content}
use arch_agent.Agent.Message.{texts}
use arch_agent.Base.{List, String, [], if◌then◌else◌, some, ℕ, ◌*◌, ◌++◌, ◌∷◌}
use arch_agent.Base.Keys.{string_eq, ◌==◌}
use arch_agent.Errors.{agent_mistake}
use arch_agent.Runtime.{AfterToolCall}
use arch_agent.Runtime.Hook.{Applied, applied, rejected}

-- The images of a result.
unfoldable pub images_content : List ContentPart → List ContentPart
images_content [] = []
images_content (p ∷ ps) =
    let rest = images_content ps in
    if p.image_url == "" then rest else (record { text = ""; image_url = p.image_url }) ∷ rest

abbrev pub with_result : AfterToolCall → List ContentPart → AfterToolCall
with_result tc parts = record tc { tool_result = record tc.tool_result { result = parts } }

unfoldable pub truncate : (ℕ → String → String) → ℕ → AfterToolCall → String → Applied AfterToolCall
unfolding images_content
truncate cut limit_bytes tc buf =
    let kept_percent = limit_bytes * 100 / len buf in
    rejected
      (some (
        with_result tc (new_content (cut limit_bytes buf) ++ images_content tc.tool_result.result)))
      (agent_mistake (
        concat (
          "result is over "
          ∷ decimal (limit_bytes / 1024)
          ∷ " kb, and was truncated to "
          ∷ decimal kept_percent
          ∷ "%"
          ∷ [])))

-- ContentSizeLimitHook
unfoldable pub content_size_limit :
    {W : Type 0} → (ℕ → String → String) → ℕ → AfterToolCall → W → Applied AfterToolCall × W
unfolding truncate
content_size_limit cut limit_bytes tc w =
    let buf = concat (texts tc.tool_result.result) in
    (if leb (len buf) limit_bytes then applied tc else truncate cut limit_bytes tc buf, w)
