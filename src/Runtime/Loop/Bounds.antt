-- ===== src/Runtime/Loop/Bounds.antt =====
-- How often the loop of internal/runtime/loop.go asks the model, and how many mistakes it bears.
use arch_agent.Base.{
  ℕ, zero, suc, ◌+◌, ◌≤◌, String, Bool, Option, none, some, List, [], ◌∷◌, ◌++◌, ◌≡◌, refl, arith,
  Bool-cases, Option-cases, inl, inr, if◌then◌else◌, ltb,
}
use arch_agent.Base.Int.{rounds}
use arch_agent.Base.Dict.{Dict}
use arch_agent.Errors.{Error, Result, ok, err, as_mistake, errors_is, context_overflow}
use arch_agent.Agent.{Completion, ToolCall, ToolResult}
use arch_agent.Agent.Message.{Message}
use arch_agent.Runtime.{Tool, Model, Context, Prompts}
use arch_agent.Runtime.Event.{loop_exit, Event, is_complete, is_mistake, complete}
use arch_agent.Runtime.Hook.{Hook}
use arch_agent.Runtime.ToolCalls.{
  process_tool_call, process_calls, process_tool_calls, report, tools_to_map,
}
use arch_agent.Runtime.Compaction.{
  Compacted, compacted, not_compacted, compaction_panics, do_compact, should_compact,
}
use arch_agent.Runtime.Loop.{
  LoopState, Turn, continue, returns, panics, Run, tools_turn, compacted_turn, completed_turn,
  failed_turn, completing_turn, process_completion, overflow_turn, mistake_turn, caution_turn,
  remember, resume, turn, run_turns, run_agent_loop, Completing, completed, completion_failed,
  max_completion_mistakes, resolve_max_turns,
}

abbrev pub count_events : (Event → Bool) → List Event → ℕ
count_events p [] = 0
count_events p (ev ∷ evs) = if p ev then suc (count_events p evs) else count_events p evs

count_events-append :
    (p : Event → Bool) (xs ys : List Event)
    → count_events p (xs ++ ys) ≡ count_events p xs + count_events p ys
count_events-append p [] ys = omega arith
count_events-append p (x ∷ xs) ys = ground (arith, count_events-append p xs ys)

abbrev completions : List Event → ℕ
completions = count_events is_complete

abbrev mistakes : List Event → ℕ
mistakes = count_events is_mistake

-- Tool calls send neither.
abbrev IsPlain : List Event → Type 0
IsPlain evs = (completions evs ≡ 0) × (mistakes evs ≡ 0)

IsPlain-append : (xs ys : List Event) → IsPlain xs → IsPlain ys → IsPlain (xs ++ ys)
IsPlain-append xs ys h k =
    ground (arith, count_events-append is_complete xs ys, count_events-append is_mistake xs ys)

append-IsPlain :
    (xs ys : List Event)
    → IsPlain ys
    → (completions (xs ++ ys) ≡ completions xs) × (mistakes (xs ++ ys) ≡ mistakes xs)
append-IsPlain xs ys k =
    omega (arith, count_events-append is_complete xs ys, count_events-append is_mistake xs ys)

report-IsPlain : (call : ToolCall) (r : Result ToolResult) → IsPlain (report call r).0
unfolding report
report-IsPlain call (ok res) = (refl, refl)
report-IsPlain call (err e) = (refl, refl)

process_calls-IsPlain :
    {W : Type 0} (tool_map : Dict String (Tool W)) (hooks : List (Hook W)) (calls : List ToolCall)
    (w : W)
    → IsPlain (process_calls tool_map hooks calls w).1
unfolding process_calls
process_calls-IsPlain tool_map hooks [] w = (refl, refl)
process_calls-IsPlain tool_map hooks (call ∷ calls) w =
    let (r, w') = process_tool_call tool_map hooks call w in
    IsPlain-append (report call r).0 _ (report-IsPlain call r)
      (process_calls-IsPlain tool_map hooks calls w')

-- The event that comes with a compacted context is neither.
abbrev announces : Compacted → List Event
announces (compacted ms ev) = ev ∷ []
announces _ = []

-- What one round sends, from a state with `m` mistakes: at most one completion, and a mistake for
-- each that it counts, except that the round that gives up sends one more.
abbrev TurnBounds : {W : Type 0} → ℕ → Turn W → Type 0
TurnBounds m (continue evs s) =
    (completions evs ≤ 1) × (m + mistakes evs ≡ s.mistakes) × (s.mistakes ≤ max_completion_mistakes)
TurnBounds m (returns evs w) =
    (completions evs ≤ 1) × (m + mistakes evs ≤ suc max_completion_mistakes)
TurnBounds m (panics evs w) =
    (completions evs ≤ 1) × (m + mistakes evs ≤ suc max_completion_mistakes)

module _ {W : Type 0} (prompts : Prompts) (ctx : Context W) (model : Model W)
    (tools : List (Tool W)) (hooks : List (Hook W)) where
  announces-do_compact :
      (msgs : List Message) (w : W) → IsPlain (announces (do_compact prompts model msgs w).0)
  unfolding do_compact
  announces-do_compact msgs w = ground arith

  tools_turn-TurnBounds :
      (s : LoopState W) (sent : List Event) (c : Completion) (w : W)
      → s.mistakes ≤ max_completion_mistakes
      → completions sent ≤ 1
      → mistakes sent ≡ 0
      → TurnBounds s.mistakes (tools_turn prompts ctx model tools hooks s sent c w)
  unfolding tools_turn process_tool_calls
  tools_turn-TurnBounds s sent c w h k z =
      let (msgs, evs, w') = process_tool_calls tools hooks c.tool_calls w in
      let plain : IsPlain evs =
        process_calls-IsPlain (tools_to_map [] tools) hooks c.tool_calls w in
      let same = append-IsPlain sent evs plain in
      let last = append-IsPlain (sent ++ evs) (loop_exit none ∷ []) (refl, refl) in
      elim (Bool-cases c.done) [ inl d ↦ rw d (omega arith) | inr d ↦ rw d (omega arith) ]

  compacted_turn-TurnBounds :
      (s : LoopState W) (c : Completion) (r : Compacted) (w : W)
      → s.mistakes ≤ max_completion_mistakes
      → IsPlain (announces r)
      → TurnBounds s.mistakes (compacted_turn prompts ctx model tools hooks s c r w)
  unfolding compacted_turn
  compacted_turn-TurnBounds s c (compacted ms ev) w h p =
      tools_turn-TurnBounds (record s { messages = ms }) (complete c ∷ ev ∷ []) c w h (ground arith)
        (ground arith)
  compacted_turn-TurnBounds s c (not_compacted e) w h p = omega arith
  compacted_turn-TurnBounds s c compaction_panics w h p = omega arith

  completed_turn-TurnBounds :
      (s : LoopState W) (c : Completion) (w : W)
      → s.mistakes ≤ max_completion_mistakes
      → TurnBounds s.mistakes (completed_turn prompts ctx model tools hooks s c w)
  unfolding completed_turn
  completed_turn-TurnBounds s c w h =
      elim (Bool-cases (should_compact c.input_tokens c.completion_tokens model.context_limit)) [
        | inl y ↦ rw y (
            compacted_turn-TurnBounds (remember s c) c _ _ h
              (announces-do_compact (remember s c).messages w))
        | inr n ↦
            rw n (tools_turn-TurnBounds (remember s c) (complete c ∷ []) c w h (omega arith) refl)
      ]

  overflow_turn-TurnBounds :
      (s : LoopState W) (r : Compacted) (w : W)
      → s.mistakes ≤ max_completion_mistakes
      → IsPlain (announces r)
      → TurnBounds s.mistakes (overflow_turn s r w)
  unfolding overflow_turn
  overflow_turn-TurnBounds s (compacted ms ev) w h p = ground arith
  overflow_turn-TurnBounds s (not_compacted e) w h p = omega arith
  overflow_turn-TurnBounds s compaction_panics w h p = omega arith

  caution_turn-TurnBounds :
      (s : LoopState W) (c : Option Completion) (e : Error) (msg : String) (w : W)
      → s.mistakes + 1 ≤ max_completion_mistakes
      → TurnBounds s.mistakes (caution_turn s c e msg w)
  unfolding caution_turn
  caution_turn-TurnBounds s none e msg w h = omega arith
  caution_turn-TurnBounds s (some c) e msg w h = omega arith

  mistake_turn-TurnBounds :
      (s : LoopState W) (c : Option Completion) (e : Error) (msg : String) (w : W)
      → s.mistakes ≤ max_completion_mistakes
      → TurnBounds s.mistakes (mistake_turn s c e msg w)
  unfolding mistake_turn
  mistake_turn-TurnBounds s c e msg w h =
      elim (Bool-cases (ltb max_completion_mistakes (s.mistakes + 1))) [
        | inl y ↦ rw y (omega arith)
        | inr n ↦ rw n (caution_turn-TurnBounds s c e msg w (ground arith))
      ]

  failed_turn-TurnBounds :
      (s : LoopState W) (c : Option Completion) (e : Error) (w : W)
      → s.mistakes ≤ max_completion_mistakes
      → TurnBounds s.mistakes (failed_turn prompts ctx model tools hooks s c e w)
  unfolding failed_turn
  failed_turn-TurnBounds s c e w h = elim (Bool-cases (errors_is e context_overflow)) [
    | inl y ↦ rw y (overflow_turn-TurnBounds s _ _ h (announces-do_compact s.messages w))
    | inr n ↦ rw n (elim (Option-cases (as_mistake e)) [
      | inl q ↦ rw q (omega arith)
      | inr (msg, q) ↦ rw q (mistake_turn-TurnBounds s c e msg w h)
    ])
  ]

  completing_turn-TurnBounds :
      (s : LoopState W) (r : Completing) (w : W)
      → s.mistakes ≤ max_completion_mistakes
      → TurnBounds s.mistakes (completing_turn prompts ctx model tools hooks s r w)
  unfolding completing_turn
  completing_turn-TurnBounds s (completed c) w h = completed_turn-TurnBounds s c w h
  completing_turn-TurnBounds s (completion_failed c e) w h = failed_turn-TurnBounds s c e w h

  turn-TurnBounds :
      (s : LoopState W)
      → s.mistakes ≤ max_completion_mistakes
      → TurnBounds s.mistakes (turn prompts ctx model tools hooks s)
  unfolding turn
  turn-TurnBounds s h = elim (Option-cases (ctx.err s.world)) [
    | inl q ↦
        rw (q, turn)
          (completing_turn-TurnBounds s
            (process_completion prompts ctx model tools hooks s.messages s.world).0 _ h)
    | inr (e, q) ↦ rw (q, turn) (omega arith)
  ]

  resume-bounds :
      (n m : ℕ) (rest : LoopState W → Run W) (t : Turn W)
      → TurnBounds m t
      → ((s : LoopState W)
          → s.mistakes ≤ max_completion_mistakes
          → (completions (rest s).events ≤ n)
            × (s.mistakes + mistakes (rest s).events ≤ suc max_completion_mistakes))
      → (completions (resume rest t).events ≤ suc n)
        × (m + mistakes (resume rest t).events ≤ suc max_completion_mistakes)
  unfolding resume
  resume-bounds n m rest (continue evs s) h ih = omega (
    arith,
    ih s h.2,
    count_events-append is_complete evs (rest s).events,
    count_events-append is_mistake evs (rest s).events,
  )
  resume-bounds n m rest (returns evs w) h ih = omega arith
  resume-bounds n m rest (panics evs w) h ih = omega arith

  run_turns-bounds :
      (n : ℕ) (s : LoopState W)
      → s.mistakes ≤ max_completion_mistakes
      → let evs = (run_turns prompts ctx model tools hooks n s).events in
        (completions evs ≤ n) × (s.mistakes + mistakes evs ≤ suc max_completion_mistakes)
  unfolding run_turns
  run_turns-bounds zero s h = omega arith
  run_turns-bounds (suc n) s h =
      resume-bounds n s.mistakes (run_turns prompts ctx model tools hooks n)
        (turn prompts ctx model tools hooks s) (turn-TurnBounds s h) (run_turns-bounds n)

  -- A run sends at most as many completions as the settings allow turns (100 if they do not say),
  -- and at most four completion mistakes: three that the model is told of and the one that ends it.
  pub run_agent_loop-bounds :
      (messages : List Message) (w : W)
      → let evs = (run_agent_loop prompts ctx model tools hooks messages w).events in
        (count_events is_complete evs ≤ rounds (resolve_max_turns model.max_turns))
        × (count_events is_mistake evs ≤ 4)
  unfolding run_agent_loop
  run_agent_loop-bounds messages w = omega (
    arith,
    run_turns-bounds (rounds (resolve_max_turns model.max_turns))
        (record { messages = messages; mistakes = 0; world = w }) (omega arith),
  )
