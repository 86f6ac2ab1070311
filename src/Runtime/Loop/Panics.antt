-- ===== src/Runtime/Loop/Panics.antt =====
-- The one way for RunAgentLoop of internal/runtime/loop.go to panic: a mistake with no completion.
use arch_agent.Base.{
  zero, suc, suc, ℕ, String, Bool, true, false, Option, none, some, List, [], ◌∷◌, ◌≡◌, refl, arith,
  All, Bool-cases, Option-cases, inl, inr,
}
use arch_agent.Errors.{ok, Result, Error, err, as_mistake, errors_is, context_overflow}
use arch_agent.Agent.{Completion}
use arch_agent.Agent.Message.{Message}
use arch_agent.Runtime.{Tool, Model, Context, Prompts}
use arch_agent.Runtime.Hook.{
  next_hook, after_hook, Hook, Applied, applied, rejected, apply_hooks, as_completion_hook,
}
use arch_agent.Runtime.Compaction.{
  Compacted, compacted, not_compacted, compaction_panics, should_compact,
}
use arch_agent.Runtime.Compaction.Keeping.{Kept, do_compact-Kept}
use arch_agent.Runtime.Loop.{
  returns, continue, process_completion, Run, apply_to_answer, turn, run_turns, resume,
  hooked_completion, run_agent_loop, Event, complete, LoopState, Turn, panics, tools_turn,
  compacted_turn, completed_turn, failed_turn, completing_turn, overflow_turn, mistake_turn,
  remember, Completing, completed, completion_failed,
}

-- An error that the loop takes for a mistake comes with a completion.
abbrev pub HasCompletion : Applied Completion → Type 0
HasCompletion (rejected none e) = as_mistake e ≡ none
HasCompletion _ = Unit

abbrev pub TypedSafe : {W : Type 0} → Option (Completion → W → Applied Completion × W) → Type 0
TypedSafe none = Unit
TypedSafe {W} (some f) = (c : Completion) (w : W) → HasCompletion (f c w).0

-- The model never fails with a mistake of the agent.
abbrev pub ModelIsSafe : {W : Type 0} → Model W → Type 0
ModelIsSafe {W} model =
    (tools : List (Tool W)) (messages : List Message) (w : W) (e : Error)
    → (model.complete tools messages w).0 ≡ err e
    → as_mistake e ≡ none

abbrev is_panic : {W : Type 0} → Turn W → Bool
is_panic (panics evs w) = true
is_panic _ = false

abbrev IsSafe : Completing → Type 0
IsSafe (completion_failed none e) = as_mistake e ≡ none
IsSafe _ = Unit

module _ {W : Type 0} (prompts : Prompts) (ctx : Context W) (model : Model W)
    (tools : List (Tool W)) (hooks : List (Hook W)) where
  tools_turn-safe :
      (s : LoopState W) (sent : List Event) (c : Completion) (w : W)
      → is_panic (tools_turn prompts ctx model tools hooks s sent c w) ≡ false
  unfolding tools_turn
  tools_turn-safe s sent c w = ground arith

  compacted_turn-safe :
      (s : LoopState W) (c : Completion) (msgs : List Message) (r : Compacted) (w : W)
      → Kept msgs r
      → is_panic (compacted_turn prompts ctx model tools hooks s c r w) ≡ false
  unfolding compacted_turn
  compacted_turn-safe s c msgs (compacted ms ev) w k =
      tools_turn-safe (record s { messages = ms }) (complete c ∷ ev ∷ []) c w
  compacted_turn-safe s c msgs (not_compacted e) w k = refl
  compacted_turn-safe s c msgs compaction_panics w k = absurd k

  completed_turn-safe :
      (s : LoopState W) (c : Completion) (w : W)
      → is_panic (completed_turn prompts ctx model tools hooks s c w) ≡ false
  unfolding completed_turn
  completed_turn-safe s c w =
      elim (Bool-cases (should_compact c.input_tokens c.completion_tokens model.context_limit)) [
        | inl y ↦ rw y (
            compacted_turn-safe (remember s c) c (remember s c).messages _ _
              (do_compact-Kept prompts model (remember s c).messages w))
        | inr n ↦ rw n (tools_turn-safe (remember s c) (complete c ∷ []) c w)
      ]

  overflow_turn-safe :
      (s : LoopState W) (msgs : List Message) (r : Compacted) (w : W)
      → Kept msgs r
      → is_panic (overflow_turn s r w) ≡ false
  unfolding overflow_turn
  overflow_turn-safe s msgs (compacted ms ev) w k = refl
  overflow_turn-safe s msgs (not_compacted e) w k = refl
  overflow_turn-safe s msgs compaction_panics w k = absurd k

  mistake_turn-safe :
      (s : LoopState W) (c : Option Completion) (e : Error) (msg : String) (w : W)
      → as_mistake e ≡ some msg
      → IsSafe (completion_failed c e)
      → is_panic (mistake_turn s c e msg w) ≡ false
  unfolding mistake_turn
  mistake_turn-safe s none e msg w h k = cc
  mistake_turn-safe s (some c) e msg w h k = ground arith

  failed_turn-safe :
      (s : LoopState W) (c : Option Completion) (e : Error) (w : W)
      → IsSafe (completion_failed c e)
      → is_panic (failed_turn prompts ctx model tools hooks s c e w) ≡ false
  unfolding failed_turn
  failed_turn-safe s c e w k = elim (Bool-cases (errors_is e context_overflow)) [
    | inl y ↦
        rw y (overflow_turn-safe s s.messages _ _ (do_compact-Kept prompts model s.messages w))
    | inr n ↦ rw n (elim (Option-cases (as_mistake e)) [
      | inl q ↦ rw q refl
      | inr (msg, q) ↦ rw q (mistake_turn-safe s c e msg w q k)
    ])
  ]

  completing_turn-safe :
      (s : LoopState W) (r : Completing) (w : W)
      → IsSafe r
      → is_panic (completing_turn prompts ctx model tools hooks s r w) ≡ false
  unfolding completing_turn
  completing_turn-safe s (completed c) w k = completed_turn-safe s c w
  completing_turn-safe s (completion_failed c e) w k = failed_turn-safe s c e w k

  after_hook-safe :
      (rest : Completion → W → Applied Completion × W) (r : Applied Completion) (w : W)
      → ((c : Completion) (w : W) → HasCompletion (rest c w).0)
      → HasCompletion r
      → HasCompletion (after_hook rest r w).0
  unfolding after_hook
  after_hook-safe rest (applied c) w ih k = ih c w
  after_hook-safe rest (rejected c e) w ih k = k

  next_hook-safe :
      (rest : Completion → W → Applied Completion × W)
      (f : Option (Completion → W → Applied Completion × W)) (c : Completion) (w : W)
      → ((c : Completion) (w : W) → HasCompletion (rest c w).0)
      → TypedSafe f
      → HasCompletion (next_hook rest f c w).0
  unfolding next_hook
  next_hook-safe rest none c w ih k = ih c w
  next_hook-safe rest (some f) c w ih k = after_hook-safe rest (f c w).0 (f c w).1 ih (k c w)

  apply_hooks-safe :
      (hs : List (Hook W)) (c : Completion) (w : W)
      → All (λ h. TypedSafe (as_completion_hook h)) hs
      → HasCompletion (apply_hooks as_completion_hook hs c w).0
  unfolding apply_hooks
  apply_hooks-safe [] c w k = tt
  apply_hooks-safe (h ∷ hs) c w k =
      next_hook-safe (apply_hooks as_completion_hook hs) (as_completion_hook h) c w
        (λ c' w'. apply_hooks-safe hs c' w' k.1) k.0

  hooked_completion-IsSafe :
      (r : Applied Completion) (w : W)
      → HasCompletion r
      → IsSafe (hooked_completion prompts ctx model tools hooks r w).0
  unfolding hooked_completion
  hooked_completion-IsSafe (applied c) w k = tt
  hooked_completion-IsSafe (rejected none e) w k = k
  hooked_completion-IsSafe (rejected (some c) e) w k = tt

  module _ (model_safe : ModelIsSafe model)
      (hooks_safe : All (λ h. TypedSafe (as_completion_hook h)) hooks) where
    apply_to_answer-IsSafe :
        (r : Result Completion) (w : W)
        → ((e : Error) → r ≡ err e → as_mistake e ≡ none)
        → IsSafe (apply_to_answer prompts ctx model tools hooks r w).0
    unfolding apply_to_answer
    apply_to_answer-IsSafe (err e) w k = k e refl
    apply_to_answer-IsSafe (ok c) w k =
        hooked_completion-IsSafe _ _ (apply_hooks-safe hooks c w hooks_safe)

    turn-safe : (s : LoopState W) → is_panic (turn prompts ctx model tools hooks s) ≡ false
    unfolding turn
    turn-safe s = elim (Option-cases (ctx.err s.world)) [
      | inl q ↦
          rw (q, turn)
            (completing_turn-safe s
              (process_completion prompts ctx model tools hooks s.messages s.world).0 _
              (unfold process_completion in
                apply_to_answer-IsSafe (model.complete tools s.messages s.world).0 _
                  (model_safe tools s.messages s.world)))
      | inr (e, q) ↦ rw (q, turn) refl
    ]

    resume-safe :
        (rest : LoopState W → Run W) (t : Turn W)
        → ((s : LoopState W) → (rest s).panicked ≡ false)
        → is_panic t ≡ false
        → (resume rest t).panicked ≡ false
    unfolding resume
    resume-safe rest (continue evs s) ih h = ih s
    resume-safe rest (returns evs w) ih h = refl
    resume-safe rest (panics evs w) ih h = cc

    run_turns-safe :
        (n : ℕ) (s : LoopState W) → (run_turns prompts ctx model tools hooks n s).panicked ≡ false
    unfolding run_turns
    run_turns-safe zero s = refl
    run_turns-safe (suc n) s =
        resume-safe (run_turns prompts ctx model tools hooks n)
          (turn prompts ctx model tools hooks s) (run_turns-safe n) (turn-safe s)

    -- If the model never fails with a mistake of the agent, and every completion hook that refuses
    -- with one returns the completion beside it, then no run panics.
    pub run_agent_loop-safe :
        (messages : List Message) (w : W)
        → (run_agent_loop prompts ctx model tools hooks messages w).panicked ≡ false
    unfolding run_agent_loop
    run_agent_loop-safe messages w = run_turns-safe _ _
