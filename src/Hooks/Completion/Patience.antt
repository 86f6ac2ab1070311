-- ===== src/Hooks/Completion/Patience.antt =====
-- UndoneTodoHook of internal/hooks/completion.go: how long it is patient.
use arch_agent.Hooks.{World, Cautions}
use arch_agent.Hooks.Completion.{undone_todo}
use arch_agent.Agent.{Completion}
use arch_agent.Base.{
  Bool, List, String, false, not, refl, some, suc, true, zero, ℕ, ◌+◌, ◌<◌, ◌∷◌, ◌≡◌, ◌≤◌,
}
use arch_agent.Base.Dict.{lookup-delete, lookup-insert}
use arch_agent.Base.Keys.{==_self}
use arch_agent.Errors.{agent_mistake, text}
use arch_agent.Hooks.Completion.{
  attempts_of, drop_attempts, extract_undone_todos, increase_attempts, is_agent_cant_handle,
  judge_todos,
}
use arch_agent.Runtime.Hook.{Applied, rejected}
use arch_agent.Todo.{TodoItem}
use arch_agent.Base.{Bool-cases, arith, inl, inr}
use arch_agent.Base.Dict.{Dict}
use arch_agent.Todo.{items_of, list_todos}
use arch_agent.Base.{if◌then◌else◌, subst, sym, ◌∙◌}
use arch_agent.Todo.{touch_timer}
use arch_agent.Base.Keys.{string_eq}

-- The hook took the completion for a mistake of the agent, and said that it is not done.
abbrev pub is_turned_back : Applied Completion → Bool
is_turned_back (rejected (some c) (agent_mistake m)) = not c.done
is_turned_back _ = false

-- The hook refused the completion by an error that is no mistake of the agent.
abbrev pub is_given_up : Applied Completion → Bool
is_given_up (rejected c (text m)) = true
is_given_up _ = false

module _ {R : Type 0} (cautions : Cautions) (sess : String) (c : Completion) where
  -- The world behind `n` answers, with nothing between them.
  unfoldable pub insist : ℕ → World R → World R
  insist zero w = w
  insist (suc n) w = insist n (undone_todo (some sess) cautions c w).1

  abbrev pub undone_of : World R → List TodoItem
  undone_of w = (extract_undone_todos sess w).0

  attempts_of-increase_attempts :
      (w : World R) → attempts_of sess (increase_attempts sess w) ≡ attempts_of sess w + 1
  unfolding attempts_of increase_attempts
  attempts_of-increase_attempts w =
      rw (lookup-insert sess sess (attempts_of sess w + 1) w.attempts, ==_self sess) refl

  attempts_of-drop_attempts : (w : World R) → attempts_of sess (drop_attempts sess w) ≡ 0
  unfolding attempts_of drop_attempts
  attempts_of-drop_attempts w = rw (lookup-delete sess sess w.attempts, ==_self sess) refl

  -- What one answer with undone todos comes to.
  record Judged (w : World R) (r : Applied Completion × World R) : Type 0 where
    same : undone_of r.1 ≡ undone_of w
    patient :
        attempts_of sess w < 3
        → (is_turned_back r.0 ≡ true) × (attempts_of sess r.1 ≡ attempts_of sess w + 1)
    impatient : 3 ≤ attempts_of sess w → (is_given_up r.0 ≡ true) × (attempts_of sess r.1 ≡ 0)

  undone_of-attempts :
      (w : World R) (m : Dict String ℕ) → undone_of (record w { attempts = m }) ≡ undone_of w
  unfolding extract_undone_todos list_todos items_of
  undone_of-attempts w m = refl

  judge_todos-Judged :
      (t : TodoItem) (ts : List TodoItem) (w : World R)
      → Judged w (judge_todos cautions sess c (t ∷ ts) w)
  unfolding judge_todos
  judge_todos-Judged t ts w = elim (Bool-cases (is_agent_cant_handle sess w)) [
    | inl q ↦ rw q (record {
      same = unfold drop_attempts in undone_of-attempts w _;
      patient = λ h. absurd (unfold is_agent_cant_handle in ground arith);
      impatient = λ h. (refl, attempts_of-drop_attempts w);
    })
    | inr q ↦ rw q (record {
      same = unfold increase_attempts in undone_of-attempts w _;
      patient = λ h. (refl, attempts_of-increase_attempts w);
      impatient = λ h. absurd (unfold is_agent_cant_handle in ground arith);
    })
  ]

  either-Judged :
      (b : Bool) (w : World R) (x y : Applied Completion × World R)
      → b ≡ true
      → Judged w x
      → Judged w (if b then x else y)
  either-Judged true w x y h j = j
  either-Judged false w x y h j = cc

  -- Looking for the todos changes neither them nor the attempts.
  look-Judged :
      (w : World R) (r : Applied Completion × World R)
      → Judged (extract_undone_todos sess w).1 r
      → Judged w r
  unfolding extract_undone_todos list_todos items_of touch_timer attempts_of
  look-Judged w r j = record { same = j.same; patient = j.patient; impatient = j.impatient }

  module _ (done : c.done ≡ true) (t : TodoItem) (ts : List TodoItem) where
    undone_todo-Judged :
        (w : World R) → undone_of w ≡ t ∷ ts → Judged w (undone_todo (some sess) cautions c w)
    unfolding undone_todo
    undone_todo-Judged w left =
        let w' = (extract_undone_todos sess w).1 in
        either-Judged c.done w _ _ done (
          look-Judged w _ (
            subst (λ found. Judged w' (judge_todos cautions sess c found w')) (sym left)
              (judge_todos-Judged t ts w')))

    insist-attempts_of :
        (n : ℕ) (w : World R)
        → undone_of w ≡ t ∷ ts
        → attempts_of sess w + n ≤ 3
        → (undone_of (insist n w) ≡ t ∷ ts)
          × (attempts_of sess (insist n w) ≡ attempts_of sess w + n)
    unfolding insist
    insist-attempts_of zero w left h = (left, omega arith)
    insist-attempts_of (suc n) w left h =
        let j = undone_todo-Judged w left in
        let (_, more) = j.patient (omega (arith, h)) in
        let (left', settled) =
          insist-attempts_of n (undone_todo (some sess) cautions c w).1 (j.same ∙ left)
            (omega (arith, h, more)) in
        (left', omega (arith, settled, more))

    -- A session has todos left that nobody changes, and its agent keeps answering that it is done.
    -- From no counted attempt on, three answers are turned back as mistakes; the fourth ends in an
    -- error that is no mistake, and the count starts again.
    pub undone_todo-patience :
        (w : World R) (n : ℕ)
        → undone_of w ≡ t ∷ ts
        → attempts_of sess w ≡ 0
        → n < 3
        → (is_turned_back (undone_todo (some sess) cautions c (insist n w)).0 ≡ true)
          × (is_given_up (undone_todo (some sess) cautions c (insist 3 w)).0 ≡ true)
          × (attempts_of sess (undone_todo (some sess) cautions c (insist 3 w)).1 ≡ 0)
    undone_todo-patience w n left uncounted few =
        let (left_n, counted) = insist-attempts_of n w left (omega (arith, uncounted, few)) in
        let (left_3, three) = insist-attempts_of 3 w left (omega (arith, uncounted)) in
        let turned_back =
          (undone_todo-Judged (insist n w) left_n).patient
            (omega (arith, counted, uncounted, few)) in
        let (given_up, again) =
          (undone_todo-Judged (insist 3 w) left_3).impatient (omega (arith, three, uncounted)) in
        (turned_back.0, given_up, again)
