-- ===== src/Runtime/ToolCalls/Answers.antt =====
-- Every tool call is answered: processToolCalls of internal/runtime/loop.go.
use arch_agent.Base.{
  suc, String, Option, none, some, List, [], ◌∷◌, ◌≡◌, refl, ap, ap₂, ◌∙◌, All, Option-cases, inl,
  inr, length, map,
}
use arch_agent.Base.Keys.{string_eq}
use arch_agent.Base.Dict.{Dict, lookup}
use arch_agent.Errors.{Result, ok, err}
use arch_agent.Agent.{ToolCall, ToolResult}
use arch_agent.Agent.Merge.Content.{answered, gather}
use arch_agent.Runtime.{Tool, CallOutcome, returned, failed, panicked, AfterToolCall}
use arch_agent.Runtime.Hook.{
  next_hook, after_hook, Hook, Applied, applied, rejected, apply_hooks, as_tool_call_hook,
  as_tool_result_hook,
}
use arch_agent.Runtime.ToolCalls.{
  make_call, finish_call, report, outcome_result, resolve_call_safely, post_call, call_tool,
  process_tool_call, process_calls, process_tool_calls, tools_to_map,
}

-- A hook that is asserted at `T` leaves `g` as it was.
abbrev pub TypedKeeps : {W T : Type 0} → (T → String) → Option (T → W → Applied T × W) → Type 0
TypedKeeps g none = Unit
TypedKeeps {W} {T} g (some f) = (t : T) (w : W) (t' : T) → (f t w).0 ≡ applied t' → g t' ≡ g t

-- The hook changes neither the id of a call nor the id of a result.
abbrev pub KeepsIds : {W : Type 0} → Hook W → Type 0
KeepsIds h =
    TypedKeeps (λ (c : ToolCall). c.id) (as_tool_call_hook h)
    × TypedKeeps (λ (a : AfterToolCall). a.tool_result.id) (as_tool_result_hook h)

-- What the hooks leave has `x` for its `g`, unless one of them refuses.
abbrev pub Returns : {T : Type 0} → (T → String) → String → Applied T → Type 0
Returns g x (applied t) = g t ≡ x
Returns g x (rejected t e) = Unit

module _ {W T : Type 0} (g : T → String) where
  after_hook-Returns :
      (x : String) (rest : T → W → Applied T × W) (r : Applied T) (w : W)
      → ((t : T) (w : W) → g t ≡ x → Returns g x (rest t w).0)
      → Returns g x r
      → Returns g x (after_hook rest r w).0
  unfolding after_hook
  after_hook-Returns x rest (applied t) w ih h = ih t w h
  after_hook-Returns x rest (rejected t e) w ih h = tt

  next_hook-Returns :
      (x : String) (rest : T → W → Applied T × W) (f : Option (T → W → Applied T × W)) (t : T)
      (w : W)
      → ((t : T) (w : W) → g t ≡ x → Returns g x (rest t w).0)
      → TypedKeeps g f
      → g t ≡ x
      → Returns g x (next_hook rest f t w).0
  unfolding next_hook
  next_hook-Returns x rest none t w ih k h = ih t w h
  next_hook-Returns x rest (some f) t w ih k h =
      after_hook-Returns x rest (f t w).0 (f t w).1 ih (kept (f t w).0 (k t w))
    where
      kept : (r : Applied T) → ((t' : T) → r ≡ applied t' → g t' ≡ g t) → Returns g x r
      kept (applied t') k' = k' t' refl ∙ h
      kept (rejected t' e) k' = tt

  apply_hooks-Returns :
      (typed : Hook W → Option (T → W → Applied T × W)) (x : String) (hooks : List (Hook W)) (t : T)
      (w : W)
      → All (λ h. TypedKeeps g (typed h)) hooks
      → g t ≡ x
      → Returns g x (apply_hooks typed hooks t w).0
  unfolding apply_hooks
  apply_hooks-Returns typed x [] t w k h = h
  apply_hooks-Returns typed x (hook ∷ hooks) t w k h =
      next_hook-Returns x (apply_hooks typed hooks) (typed hook) t w
        (λ t' w' h'. apply_hooks-Returns typed x hooks t' w' k.1 h') k.0 h

-- The result of a call, if there is one, bears the id `x`.
abbrev pub Bears : String → Result ToolResult → Type 0
Bears x (ok res) = res.id ≡ x
Bears x (err e) = Unit

All-map :
    {A : Type 0} (P Q : A → Type 0) (xs : List A) → ((a : A) → P a → Q a) → All P xs → All Q xs
All-map P Q [] f h = tt
All-map P Q (x ∷ xs) f h = (f x h.0, All-map P Q xs f h.1)

module _ {W : Type 0} where
  outcome_result-Bears :
      (t : Tool W) (call : ToolCall) (o : CallOutcome) → Bears call.id (outcome_result t call o)
  unfolding outcome_result
  outcome_result-Bears t call (returned content) = refl
  outcome_result-Bears t call (failed e) = tt
  outcome_result-Bears t call (panicked p) = tt

  module _ (hooks : List (Hook W)) (keeps : All KeepsIds hooks) where
    finish_call-Bears :
        (x : String) (r : Applied AfterToolCall) (w : W)
        → Returns (λ (a : AfterToolCall). a.tool_result.id) x r
        → Bears x (finish_call r w).0
    unfolding finish_call
    finish_call-Bears x (applied a) w h = h
    finish_call-Bears x (rejected a e) w h = tt

    post_call-Bears :
        (x : String) (call : ToolCall) (r : Result ToolResult) (w : W)
        → Bears x r
        → Bears x (post_call hooks call r w).0
    unfolding post_call
    post_call-Bears x call (err e) w h = tt
    post_call-Bears x call (ok res) w h = finish_call-Bears x _ _ (
        apply_hooks-Returns (λ (a : AfterToolCall). a.tool_result.id) as_tool_result_hook x hooks
          (record { tool_call = call; tool_result = res }) w
          (All-map _ _ hooks (λ hook k. k.1) keeps) h)

    make_call-Bears :
        (t : Tool W) (x : String) (r : Applied ToolCall) (w : W)
        → Returns (λ (c : ToolCall). c.id) x r
        → Bears x (make_call t hooks r w).0
    unfolding make_call resolve_call_safely
    make_call-Bears t x (rejected c e) w h = tt
    make_call-Bears t x (applied c) w h =
        post_call-Bears x c _ _ (rw (← h) (outcome_result-Bears t c _))

    process_tool_call-Bears :
        (tool_map : Dict String (Tool W)) (call : ToolCall) (w : W)
        → Bears call.id (process_tool_call tool_map hooks call w).0
    unfolding process_tool_call call_tool
    process_tool_call-Bears tool_map call w = elim (Option-cases (lookup call.tool_name tool_map)) [
      | inl q ↦ rw (q, process_tool_call) tt
      | inr (t, q) ↦
          rw (q, process_tool_call)
            (make_call-Bears t call.id _ _ (
              apply_hooks-Returns (λ (c : ToolCall). c.id) as_tool_call_hook call.id hooks call w
                (All-map _ _ hooks (λ hook k. k.0) keeps) refl))
    ]

    report-id :
        (call : ToolCall) (r : Result ToolResult) → Bears call.id r → (report call r).1.id ≡ call.id
    unfolding report
    report-id call (ok res) h = h
    report-id call (err e) h = refl

    process_calls-answers :
        (tool_map : Dict String (Tool W)) (calls : List ToolCall) (w : W)
        → let msgs = (process_calls tool_map hooks calls w).0 in
          (gather answered msgs ≡ map (λ (c : ToolCall). c.id) calls) × (length msgs ≡ length calls)
    unfolding process_calls
    process_calls-answers tool_map [] w = (refl, refl)
    process_calls-answers tool_map (call ∷ calls) w =
        let (r, w') = process_tool_call tool_map hooks call w in
        let (ids, len) = process_calls-answers tool_map calls w' in
        (ap₂ ◌∷◌ (report-id call r (process_tool_call-Bears tool_map call w)) ids, ap suc len)

    -- If no hook changes an id, the messages behind a completion answer its tool calls one for one,
    -- in the order of the calls and under their ids, whether a call has a tool or not and whether
    -- the tool returns, fails or panics.
    pub process_tool_calls-answers :
        (tools : List (Tool W)) (calls : List ToolCall) (w : W)
        → let msgs = (process_tool_calls tools hooks calls w).0 in
          (gather answered msgs ≡ map (λ (c : ToolCall). c.id) calls) × (length msgs ≡ length calls)
    unfolding process_tool_calls
    process_tool_calls-answers tools calls w = process_calls-answers (tools_to_map [] tools) calls w
