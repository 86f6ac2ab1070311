-- ===== src/Subagent/Answer.antt =====
-- What a call of internal/subagent/subagent.go returns of the loop's run.
use arch_agent.Subagent.{
  Executor, answered, call, call_created, call_under, last_answer, sub_agent_call_stack,
  sub_request,
}
use arch_agent.Chat.{Prepared, prepare}
use arch_agent.Chat.Forward.{chat, chat_prepared, out_event, run_agent_loop_with_callbacks}
use arch_agent.Files.Sessions.{SessionDisk, create_session_file}
use arch_agent.Runtime.Event.{Event, complete, loop_exit}
use arch_agent.Runtime.Loop.{run_agent_loop}
use arch_agent.Runtime.Loop.Exits.{EndsOnce}
use arch_agent.Errors.{ok, errors_is, canceled}
use arch_agent.Base.{Bool, List, String, [], concat, false, map, not, some, true, ◌∷◌, ◌≡◌}
use arch_agent.Base.{Bool-cases, ap, arith, inl, inr, length, ltb, none, refl, ℕ, ◌∙◌}
use arch_agent.Chat.Forward.{Chatted}
use arch_agent.Runtime.Event.{compaction, completion_mistake, tool_call_err, tool_result}
use arch_agent.Runtime.Loop.{Run}
use arch_agent.Subagent.{sent_events}
use arch_agent.Base.{leb, subst}
use arch_agent.Chat.Forward.{initial_forwarding}
use arch_agent.Chat.Forward.Conversation.{forward-sent}
use arch_agent.Runtime.Loop.Exits.{Ending, run_agent_loop-RunExits}

-- The content of the last completion, or the one so far.
abbrev pub said : String → List Event → String
said answer [] = answer
said answer (complete c ∷ events) = said c.content events
said answer (_ ∷ events) = said answer events

-- The run ended by an error that is no cancellation.
abbrev pub failed : List Event → Bool
failed [] = false
failed (loop_exit (some e) ∷ events) = not (errors_is e canceled)
failed (_ ∷ events) = failed events

abbrev pub answer_text : String → String → Bool → String
answer_text sub_agent_id answer true =
    concat (answer ∷ "sub agent " ∷ sub_agent_id ∷ ", fall with error" ∷ [])
answer_text sub_agent_id answer false = answer

abbrev pub loop_run : {W : Type 0} → Executor W → List String → Prepared W → W → Run W
loop_run x stack p w =
    run_agent_loop x.prompts (x.context stack) p.model p.tool_kit x.hooks p.agent_context w

last_answer-events :
    (sub_agent_id answer : String) (events : List Event)
    → EndsOnce events
    → last_answer sub_agent_id answer (map out_event events)
      ≡ answer_text sub_agent_id (said answer events) (failed events)
unfolding last_answer out_event
last_answer-events sub_agent_id answer [] h = absurd h
last_answer-events sub_agent_id answer (compaction s ms ∷ []) h = absurd (ground arith)
last_answer-events sub_agent_id answer (complete c ∷ []) h = absurd (ground arith)
last_answer-events sub_agent_id answer (tool_result tc r ∷ []) h = absurd (ground arith)
last_answer-events sub_agent_id answer (tool_call_err a b e ∷ []) h = absurd (ground arith)
last_answer-events sub_agent_id answer (completion_mistake e ∷ []) h = absurd (ground arith)
last_answer-events sub_agent_id answer (loop_exit none ∷ []) h = refl
last_answer-events sub_agent_id answer (loop_exit (some e) ∷ []) h =
    elim (Bool-cases (errors_is e canceled)) [ inl q ↦ rw q refl | inr q ↦ rw q refl ]
last_answer-events sub_agent_id answer (compaction s ms ∷ ev' ∷ events) h =
    last_answer-events sub_agent_id answer (ev' ∷ events) h.1
last_answer-events sub_agent_id answer (complete c ∷ ev' ∷ events) h =
    last_answer-events sub_agent_id c.content (ev' ∷ events) h.1
last_answer-events sub_agent_id answer (tool_result tc r ∷ ev' ∷ events) h =
    last_answer-events sub_agent_id answer (ev' ∷ events) h.1
last_answer-events sub_agent_id answer (tool_call_err a b e ∷ ev' ∷ events) h =
    last_answer-events sub_agent_id answer (ev' ∷ events) h.1
last_answer-events sub_agent_id answer (completion_mistake e ∷ ev' ∷ events) h =
    last_answer-events sub_agent_id answer (ev' ∷ events) h.1
last_answer-events sub_agent_id answer (loop_exit e ∷ ev' ∷ events) h = absurd (ground arith)

sent_answer :
    {W : Type 0} (sub_agent_id : String) (d : SessionDisk) (c : Chatted W) (events : List Event)
    → c.result ≡ none
    → sent_events c ≡ map out_event events
    → EndsOnce events
    → (answered sub_agent_id d c c.result).answer
      ≡ ok (answer_text sub_agent_id (said "" events) (failed events))
sent_answer sub_agent_id d c events q sent once =
    ap (λ r. (answered sub_agent_id d c r).answer) q
    ∙ (ap (λ evs. ok (last_answer sub_agent_id "" evs)) sent
        ∙ ap ok (last_answer-events sub_agent_id "" events once))

run_answer :
    {W : Type 0} (x : Executor W) (d : SessionDisk) (stack : List String) (sub_agent_id : String)
    (p : Prepared W) (w : W)
    → (loop_run x stack p w).panicked ≡ false
    → (let c = chat_prepared x.prompts (x.context stack) x.hooks false (ok p) w in
        (answered sub_agent_id d c c.result).answer)
      ≡ ok (
          answer_text sub_agent_id
            (said "" (loop_run x stack p w).events)
            (failed (loop_run x stack p w).events))
unfolding chat_prepared run_agent_loop_with_callbacks
run_answer x d stack sub_agent_id p w calm =
    sent_answer sub_agent_id d
      (run_agent_loop_with_callbacks x.prompts (x.context stack) x.hooks false p w)
      (loop_run x stack p w).events refl
      (forward-sent false (loop_run x stack p w).events (initial_forwarding false p))
      (subst (λ b. Ending b (loop_run x stack p w).events) calm
        (run_agent_loop-RunExits x.prompts (x.context stack) p.model p.tool_kit x.hooks
          p.agent_context w))

-- A call with fewer than three calls around it makes a session, and the chat with it can be
-- prepared: unless the run of the loop panics, the answer is the content of the last completion of
-- that run, with a note behind it if the run ended by an error that is no cancellation.
pub call-answer :
    {W : Type 0} (x : Executor W) (d d' : SessionDisk) (call_stack : List String) (now : ℕ)
    (new_id session_id sub_agent_id request : String) (p : Prepared W) (w : W)
    → ltb (length call_stack) 3 ≡ true
    → create_session_file d now new_id sub_agent_id x.guidance ≡ (ok session_id, d')
    → prepare (x.deps d') (sub_request sub_agent_id session_id request) ≡ ok p
    → (loop_run x (sub_agent_id ∷ call_stack) p w).panicked ≡ false
    → (call x d call_stack now new_id sub_agent_id request w).answer
      ≡ ok (
          answer_text sub_agent_id
            (said "" (loop_run x (sub_agent_id ∷ call_stack) p w).events)
            (failed (loop_run x (sub_agent_id ∷ call_stack) p w).events))
unfolding call call_created sub_agent_call_stack chat
call-answer x d d' call_stack now new_id session_id sub_agent_id request p w shallow is_made
      is_ready calm =
    let stack : List String = sub_agent_id ∷ call_stack in
    let q : sub_agent_call_stack sub_agent_id call_stack ≡ (stack, false) =
      rw (deeper shallow) refl in
    ap (λ s. (call_under x d now new_id sub_agent_id request w s).answer) q
    ∙ (ap (λ m. (call_created x stack sub_agent_id request w m).answer) is_made
        ∙ (ap
              (λ r.
                let c = chat_prepared x.prompts (x.context stack) x.hooks false r w in
                (answered sub_agent_id d' c c.result).answer)
              is_ready
            ∙ run_answer x d' stack sub_agent_id p w calm))
  where
    deeper : ltb (length call_stack) 3 ≡ true → leb 3 (length call_stack) ≡ false
    deeper h = ground arith
