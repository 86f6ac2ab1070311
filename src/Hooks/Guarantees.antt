-- ===== src/Hooks/Guarantees.antt =====
-- What the loop of internal/runtime may rely on with the hooks of internal/hooks/hook_sets.go.
use arch_agent.Runtime.Loop.Panics.{TypedSafe, HasCompletion}
use arch_agent.Runtime.ToolCalls.Answers.{KeepsIds, process_tool_calls-answers}
use arch_agent.Runtime.ToolCalls.{process_tool_calls}
use arch_agent.Agent.Merge.Content.{answered, gather}
use arch_agent.Hooks.{World}
use arch_agent.Hooks.Sets.{
  Parts, agent_hook_list, memory_hook_list, access_hook, new_agent_hooks, new_memory_hooks,
}
use arch_agent.Hooks.FileAccess.{judge_paths}
use arch_agent.Agent.{Completion, ToolCall}
use arch_agent.Agent.Message.{Message}
use arch_agent.Base.{
  All, List, Option, String, [], arith, false, length, map, none, some, subst, ℕ, ◌&&◌, ◌∷◌, ◌≡◌,
}
use arch_agent.Base.Keys.{string_eq, ◌==◌}
use arch_agent.Errors.{Error, Result, err, joined, ok, ◌>>=◌}
use arch_agent.Hooks.Completion.{
  empty_answer, frontmatter_mistake, is_agent_cant_handle, judge_todos,
  only_valid_memory_frontmatter, undone_todo,
}
use arch_agent.Hooks.ContentSize.{content_size_limit, truncate}
use arch_agent.Hooks.FileAccess.{Rule, file_access, verdict}
use arch_agent.Hooks.Secrets.{never_read_secrets, never_tool_call_secrets, never_type_secrets}
use arch_agent.Runtime.{AfterToolCall, Tool}
use arch_agent.Runtime.Hook.{Hook, applied, as_completion_hook}
use arch_agent.Todo.{TodoItem}
use arch_agent.Base.{Bool, if◌then◌else◌, true}
use arch_agent.Hooks.Completion.{extract_undone_todos}
use arch_agent.Runtime.Hook.{Applied}

-- What the theorems of the loop ask of a list of hooks.
abbrev pub AreGood : {W : Type 0} → List (Hook W) → Type 0
AreGood hooks = All KeepsIds hooks × All (λ h. TypedSafe (as_completion_hook h)) hooks

every {κ ℓ} : {A : Type κ} {B : Type ℓ} → A → B → A × B
every x xs = (x, xs)

module _ {R : Type 0} (parts : Parts R) where
  verdict-id :
      (tc t' : ToolCall) (o : Option Error) → verdict parts.lib tc o ≡ applied t' → t'.id ≡ tc.id
  verdict-id tc t' none h = cc
  verdict-id tc t' (some e) h = cc

  judge_paths-id :
      (rules : List Rule) (d : R) (tc t' : ToolCall) (r : Result (List String))
      → judge_paths parts.lib parts.fuel rules d tc r ≡ applied t'
      → t'.id ≡ tc.id
  unfolding judge_paths
  judge_paths-id rules d tc t' (err e) h = ground arith
  judge_paths-id rules d tc t' (ok paths) h = verdict-id tc t' _ h

  access_hook-KeepsIds : (rules : List Rule) → KeepsIds (access_hook parts rules)
  unfolding access_hook file_access
  access_hook-KeepsIds rules = (λ tc w t' h. judge_paths-id rules w.rest tc t' _ h, tt)

  truncated-id :
      (limit : ℕ) (a : AfterToolCall) (w : World R) (a' : AfterToolCall)
      → (content_size_limit parts.cut limit a w).0 ≡ applied a'
      → a'.tool_result.id ≡ a.tool_result.id
  unfolding content_size_limit truncate
  truncated-id limit a w a' h = ground arith

  applied-id : (a b : AfterToolCall) → applied a ≡ applied b → b.tool_result.id ≡ a.tool_result.id
  applied-id a b h = cc

  applied-call-id : (a b : ToolCall) → applied a ≡ applied b → b.id ≡ a.id
  applied-call-id a b h = cc

  either-HasCompletion :
      (b : Bool) (yes_case no_case : Applied Completion × World R)
      → HasCompletion yes_case.0
      → HasCompletion no_case.0
      → HasCompletion (if b then yes_case else no_case).0
  either-HasCompletion true yes_case no_case h k = h
  either-HasCompletion false yes_case no_case h k = k

  judge_todos-HasCompletion :
      (sess : String) (c : Completion) (undone : List TodoItem) (w : World R)
      → HasCompletion (judge_todos parts.cautions sess c undone w).0
  unfolding judge_todos
  judge_todos-HasCompletion sess c [] w = tt
  judge_todos-HasCompletion sess c (t ∷ ts) w =
      either-HasCompletion (is_agent_cant_handle sess w) _ _ tt tt

  undone_todo-HasCompletion :
      (session : Option String) (c : Completion) (w : World R)
      → HasCompletion (undone_todo session parts.cautions c w).0
  unfolding undone_todo
  undone_todo-HasCompletion none c w = either-HasCompletion c.done _ _ tt tt
  undone_todo-HasCompletion (some sess) c w =
      let found = extract_undone_todos sess w in
      either-HasCompletion c.done _ _ (judge_todos-HasCompletion sess c found.0 found.1) tt

  frontmatter_mistake-HasCompletion :
      (error_string : Error → String) (c : Completion) (e : Option Error)
      → HasCompletion (frontmatter_mistake error_string c e)
  unfolding frontmatter_mistake
  frontmatter_mistake-HasCompletion error_string c none = tt
  frontmatter_mistake-HasCompletion error_string c (some (joined es)) = tt
  frontmatter_mistake-HasCompletion error_string c (some _) = tt

  only_valid_memory_frontmatter-HasCompletion :
      (agent_id : String) (c : Completion) (w : World R)
      → HasCompletion (only_valid_memory_frontmatter parts.indexer agent_id c w).0
  unfolding only_valid_memory_frontmatter
  only_valid_memory_frontmatter-HasCompletion agent_id c w =
      either-HasCompletion c.done _ _ (frontmatter_mistake-HasCompletion _ c _) tt

  empty_answer-HasCompletion :
      (c : Completion) (w : World R) → HasCompletion (empty_answer parts.cautions c w).0
  unfolding empty_answer
  empty_answer-HasCompletion c w = either-HasCompletion ((c.content == "") && c.done) _ _ tt tt

  agent_hook_list-AreGood : (rules : List Rule) → AreGood (agent_hook_list parts rules)
  unfolding agent_hook_list access_hook never_read_secrets never_tool_call_secrets
      never_type_secrets
  agent_hook_list-AreGood rules = (
    every (access_hook-KeepsIds rules) (
        every (tt, tt)
          (every (tt, truncated-id _)
            (every (tt, λ a w a' h. applied-id _ a' h)
              (every (λ c w c' h. applied-call-id _ c' h, tt) (every (tt, tt) tt))))),
    every tt (
        every (undone_todo-HasCompletion parts.session)
          (every tt (every tt (every tt (every (λ c w. tt) tt))))),
  )

  memory_hook_list-AreGood :
      (agent_id : String) (rules : List Rule) → AreGood (memory_hook_list parts agent_id rules)
  unfolding memory_hook_list access_hook
  memory_hook_list-AreGood agent_id rules = (
    every (access_hook-KeepsIds rules) (every (tt, tt) (every (tt, tt) tt)),
    every tt (
        every (only_valid_memory_frontmatter-HasCompletion agent_id)
          (every empty_answer-HasCompletion tt)),
  )

  -- `hooks` is what one of the two constructors of hook_sets.go returned.
  pub data HookSet (hooks : List (Hook (World R))) : Type 0 where
    of_agent : new_agent_hooks parts ≡ ok hooks → HookSet hooks
    of_memory : (agent_id : String) → new_memory_hooks parts agent_id ≡ ok hooks → HookSet hooks

  checked-AreGood :
      (make : List Rule → List (Hook (World R))) (r : Result (List Rule))
      (hooks : List (Hook (World R)))
      → ((rules : List Rule) → AreGood (make rules))
      → (r >>= λ rules. ok (make rules)) ≡ ok hooks
      → AreGood hooks
  checked-AreGood make (err e) hooks good h = cc
  checked-AreGood make (ok rules) hooks good h = subst AreGood (ok-injective h) (good rules)
    where
      ok-injective : {a b : List (Hook (World R))} → ok a ≡ ok b → a ≡ b
      ok-injective h = cc

  HookSet-AreGood : (hooks : List (Hook (World R))) → HookSet hooks → AreGood hooks
  unfolding new_agent_hooks new_memory_hooks
  HookSet-AreGood hooks (of_agent h) =
      checked-AreGood (agent_hook_list parts) _ hooks agent_hook_list-AreGood h
  HookSet-AreGood hooks (of_memory agent_id h) =
      checked-AreGood (memory_hook_list parts agent_id) _ hooks (memory_hook_list-AreGood agent_id)
        h

  module _ (hooks : List (Hook (World R))) (set : HookSet hooks) where
    -- With the hooks of a chat or of the consolidation of memory, the messages behind a completion
    -- answer its tool calls one for one, in the order of the calls and under their ids.
    pub process_tool_calls-HookSet :
        (tools : List (Tool (World R))) (calls : List ToolCall) (w : World R)
        → let msgs = (process_tool_calls tools hooks calls w).0 in
          (gather answered msgs ≡ map (λ (c : ToolCall). c.id) calls) × (length msgs ≡ length calls)
    process_tool_calls-HookSet tools calls w =
        process_tool_calls-answers hooks (HookSet-AreGood hooks set).0 tools calls w
