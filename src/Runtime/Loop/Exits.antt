-- ===== src/Runtime/Loop/Exits.antt =====
-- How a run of RunAgentLoop ends (internal/runtime/loop.go).
use arch_agent.Base.{
  ◌+◌, ltb, Option-cases, ℕ, zero, suc, Bool, true, false, Option, none, some, List, [], ◌∷◌, ◌++◌,
  ◌≡◌, refl, arith, String, Bool-cases, inl, inr,
}
use arch_agent.Base.Dict.{Dict}
use arch_agent.Errors.{as_mistake, context_overflow, errors_is, Error, Result, ok, err}
use arch_agent.Agent.{Completion, ToolCall, ToolResult}
use arch_agent.Agent.Message.{Message}
use arch_agent.Runtime.{Tool, Model, Context, Prompts}
use arch_agent.Runtime.Event.{complete, Event, is_loop_exit}
use arch_agent.Runtime.Hook.{Hook}
use arch_agent.Runtime.ToolCalls.{
  tools_to_map, process_tool_call, process_calls, process_tool_calls, report,
}
use arch_agent.Runtime.Compaction.{
  Compacted, compacted, not_compacted, compaction_panics, do_compact, should_compact,
}
use arch_agent.Runtime.Loop.{
  remember, resume, completion_failed, completed, overflow_turn, caution_turn, mistake_turn,
  Completing, max_completion_mistakes, tools_turn, compacted_turn, completed_turn, failed_turn,
  completing_turn, process_completion, LoopState, Turn, continue, returns, panics, Run, turn,
  run_turns, run_agent_loop,
}

-- One loop exit, and it is the last of the events.
abbrev pub EndsOnce : List Event → Type 0
EndsOnce [] = ⊥
EndsOnce (ev ∷ []) = is_loop_exit ev ≡ true
EndsOnce (ev ∷ evs) = (is_loop_exit ev ≡ false) × EndsOnce evs

abbrev pub NoExit : List Event → Type 0
NoExit [] = Unit
NoExit (ev ∷ evs) = (is_loop_exit ev ≡ false) × NoExit evs

NoExit-append : (xs ys : List Event) → NoExit xs → NoExit ys → NoExit (xs ++ ys)
NoExit-append [] ys h k = k
NoExit-append (x ∷ xs) ys h k = (h.0, NoExit-append xs ys h.1 k)

EndsOnce-append : (xs ys : List Event) → NoExit xs → EndsOnce ys → EndsOnce (xs ++ ys)
EndsOnce-append [] ys h k = k
EndsOnce-append (x ∷ []) [] h k = absurd k
EndsOnce-append (x ∷ []) (y ∷ ys) h k = (h.0, k)
EndsOnce-append (x ∷ x' ∷ xs) ys h k = (h.0, EndsOnce-append (x' ∷ xs) ys h.1 k)

-- What each way of ending a round sends.
abbrev TurnExits : {W : Type 0} → Turn W → Type 0
TurnExits (continue evs s) = NoExit evs
TurnExits (returns evs w) = EndsOnce evs
TurnExits (panics evs w) = NoExit evs

abbrev pub Ending : Bool → List Event → Type 0
Ending true evs = NoExit evs
Ending false evs = EndsOnce evs

abbrev pub RunExits : {W : Type 0} → Run W → Type 0
RunExits r = Ending r.panicked r.events

Ending-append :
    (panicked : Bool) (xs ys : List Event)
    → NoExit xs
    → Ending panicked ys
    → Ending panicked (xs ++ ys)
Ending-append true xs ys h k = NoExit-append xs ys h k
Ending-append false xs ys h k = EndsOnce-append xs ys h k

-- The event that comes with a compacted context is no exit.
abbrev exits : Compacted → Bool
exits (compacted ms ev) = is_loop_exit ev
exits _ = false

report-NoExit : (call : ToolCall) (r : Result ToolResult) → NoExit (report call r).0
unfolding report
report-NoExit call (ok res) = (refl, tt)
report-NoExit call (err e) = (refl, (refl, tt))

module _ {W : Type 0} where
  process_calls-NoExit :
      (tool_map : Dict String (Tool W)) (hooks : List (Hook W)) (calls : List ToolCall) (w : W)
      → NoExit (process_calls tool_map hooks calls w).1
  unfolding process_calls
  process_calls-NoExit tool_map hooks [] w = tt
  process_calls-NoExit tool_map hooks (call ∷ calls) w =
      let (r, w') = process_tool_call tool_map hooks call w in
      NoExit-append (report call r).0 _ (report-NoExit call r)
        (process_calls-NoExit tool_map hooks calls w')

module _ {W : Type 0} (prompts : Prompts) (ctx : Context W) (model : Model W)
    (tools : List (Tool W)) (hooks : List (Hook W)) where
  exits-do_compact :
      (msgs : List Message) (w : W) → exits (do_compact prompts model msgs w).0 ≡ false
  unfolding do_compact
  exits-do_compact msgs w = ground arith

  tools_turn-TurnExits :
      (s : LoopState W) (sent : List Event) (c : Completion) (w : W)
      → NoExit sent
      → TurnExits (tools_turn prompts ctx model tools hooks s sent c w)
  unfolding tools_turn process_tool_calls
  tools_turn-TurnExits s sent c w h =
      let (msgs, evs, w') = process_tool_calls tools hooks c.tool_calls w in
      let quiet : NoExit evs = process_calls-NoExit (tools_to_map [] tools) hooks c.tool_calls w in
      elim (Bool-cases c.done) [
        | inl d ↦ rw d (EndsOnce-append (sent ++ evs) _ (NoExit-append sent evs h quiet) refl)
        | inr d ↦ rw d (NoExit-append sent _ h quiet)
      ]

  compacted_turn-TurnExits :
      (s : LoopState W) (c : Completion) (r : Compacted) (w : W)
      → exits r ≡ false
      → TurnExits (compacted_turn prompts ctx model tools hooks s c r w)
  unfolding compacted_turn
  compacted_turn-TurnExits s c (compacted ms ev) w q =
      tools_turn-TurnExits (record s { messages = ms }) (complete c ∷ ev ∷ []) c w (refl, (q, tt))
  compacted_turn-TurnExits s c (not_compacted e) w q = (refl, refl)
  compacted_turn-TurnExits s c compaction_panics w q = (refl, tt)

  completed_turn-TurnExits :
      (s : LoopState W) (c : Completion) (w : W)
      → TurnExits (completed_turn prompts ctx model tools hooks s c w)
  unfolding completed_turn
  completed_turn-TurnExits s c w =
      elim (Bool-cases (should_compact c.input_tokens c.completion_tokens model.context_limit)) [
        | inl y ↦ rw y (
            compacted_turn-TurnExits (remember s c) c _ _
              (exits-do_compact (remember s c).messages w))
        | inr n ↦ rw n (tools_turn-TurnExits (remember s c) (complete c ∷ []) c w (refl, tt))
      ]

  overflow_turn-TurnExits :
      (s : LoopState W) (r : Compacted) (w : W) → exits r ≡ false → TurnExits (overflow_turn s r w)
  unfolding overflow_turn
  overflow_turn-TurnExits s (compacted ms ev) w q = (q, tt)
  overflow_turn-TurnExits s (not_compacted e) w q = refl
  overflow_turn-TurnExits s compaction_panics w q = tt

  caution_turn-TurnExits :
      (s : LoopState W) (c : Option Completion) (e : Error) (msg : String) (w : W)
      → TurnExits (caution_turn s c e msg w)
  unfolding caution_turn
  caution_turn-TurnExits s none e msg w = (refl, tt)
  caution_turn-TurnExits s (some c) e msg w = (refl, tt)

  mistake_turn-TurnExits :
      (s : LoopState W) (c : Option Completion) (e : Error) (msg : String) (w : W)
      → TurnExits (mistake_turn s c e msg w)
  unfolding mistake_turn
  mistake_turn-TurnExits s c e msg w =
      elim (Bool-cases (ltb max_completion_mistakes (s.mistakes + 1))) [
        | inl y ↦ rw y (refl, refl)
        | inr n ↦ rw n (caution_turn-TurnExits s c e msg w)
      ]

  failed_turn-TurnExits :
      (s : LoopState W) (c : Option Completion) (e : Error) (w : W)
      → TurnExits (failed_turn prompts ctx model tools hooks s c e w)
  unfolding failed_turn
  failed_turn-TurnExits s c e w = elim (Bool-cases (errors_is e context_overflow)) [
    | inl y ↦ rw y (overflow_turn-TurnExits s _ _ (exits-do_compact s.messages w))
    | inr n ↦ rw n (elim (Option-cases (as_mistake e)) [
      | inl q ↦ rw q refl
      | inr (msg, q) ↦ rw q (mistake_turn-TurnExits s c e msg w)
    ])
  ]

  completing_turn-TurnExits :
      (s : LoopState W) (r : Completing) (w : W)
      → TurnExits (completing_turn prompts ctx model tools hooks s r w)
  unfolding completing_turn
  completing_turn-TurnExits s (completed c) w = completed_turn-TurnExits s c w
  completing_turn-TurnExits s (completion_failed c e) w = failed_turn-TurnExits s c e w

  turn-TurnExits : (s : LoopState W) → TurnExits (turn prompts ctx model tools hooks s)
  unfolding turn
  turn-TurnExits s = elim (Option-cases (ctx.err s.world)) [
    | inl q ↦
        rw (q, turn)
          (completing_turn-TurnExits s
            (process_completion prompts ctx model tools hooks s.messages s.world).0 _)
    | inr (e, q) ↦ rw (q, turn) refl
  ]

  prepend-RunExits :
      (evs : List Event) (r : Run W)
      → NoExit evs
      → RunExits r
      → RunExits (record r { events = evs ++ r.events })
  prepend-RunExits evs r h k = Ending-append r.panicked evs r.events h k

  resume-RunExits :
      (rest : LoopState W → Run W) (t : Turn W)
      → ((s : LoopState W) → RunExits (rest s))
      → TurnExits t
      → RunExits (resume rest t)
  unfolding resume
  resume-RunExits rest (continue evs s) ih h = prepend-RunExits evs (rest s) h (ih s)
  resume-RunExits rest (returns evs w) ih h = h
  resume-RunExits rest (panics evs w) ih h = h

  run_turns-RunExits :
      (n : ℕ) (s : LoopState W) → RunExits (run_turns prompts ctx model tools hooks n s)
  unfolding run_turns
  run_turns-RunExits zero s = refl
  run_turns-RunExits (suc n) s =
      resume-RunExits (run_turns prompts ctx model tools hooks n)
        (turn prompts ctx model tools hooks s) (run_turns-RunExits n) (turn-TurnExits s)

  -- A run that does not panic sends exactly one loop exit, as its last event; one that panics sends
  -- none.
  pub run_agent_loop-RunExits :
      (messages : List Message) (w : W)
      → RunExits (run_agent_loop prompts ctx model tools hooks messages w)
  unfolding run_agent_loop
  run_agent_loop-RunExits messages w = run_turns-RunExits _ _
