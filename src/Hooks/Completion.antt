-- ===== src/Hooks/Completion.antt =====
-- internal/hooks/completion.go: the hooks that look at what the model has said.
pub mod Patience
use arch_agent.Base.{concat, keep_if, leb, not}
use arch_agent.Base.Decimal.{decimal}
use arch_agent.Hooks.{World, Cautions, Indexer}
use arch_agent.Agent.{Completion}
use arch_agent.Base.{
  Bool, List, Option, String, [], false, if◌then◌else◌, none, some, ℕ, ◌&&◌, ◌+◌, ◌∷◌,
}
use arch_agent.Base.Dict.{delete, insert, lookup}
use arch_agent.Base.Keys.{string_eq, ◌==◌}
use arch_agent.Errors.{Error, Errors, agent_mistake, cons, joined, nil, text}
use arch_agent.Runtime.Hook.{Applied, applied, rejected}
use arch_agent.Todo.{TodoItem, list_todos}

-- `c.Done = false`
abbrev pub not_done : Completion → Completion
not_done c = record c { done = false }

-- What an error that errors.Join made is told as.
unfoldable pub error_strings : (Error → String) → Errors → List String
error_strings error_string nil = []
error_strings error_string (cons e es) = error_string e ∷ error_strings error_string es

unfoldable pub frontmatter_mistake :
    (Error → String) → Completion → Option Error → Applied Completion
unfolding error_strings
frontmatter_mistake error_string c (some (joined es)) =
    rejected (some (not_done c)) (agent_mistake (concat (error_strings error_string es)))
frontmatter_mistake error_string c _ = applied c

module _ {R : Type 0} where
  -- OnlyValidMemoryFrontmatterHook
  unfoldable pub only_valid_memory_frontmatter :
      Indexer R → String → Completion → World R → Applied Completion × World R
  unfolding frontmatter_mistake
  only_valid_memory_frontmatter indexer agent_id c w =
      if c.done
      then (frontmatter_mistake indexer.error_string c (indexer.memory_index agent_id w.rest), w)
      else (applied c, w)

  -- EmptyAnswerHook
  unfoldable pub empty_answer : Cautions → Completion → World R → Applied Completion × World R
  empty_answer cautions c w =
      if (c.content == "") && c.done
      then (rejected (some (not_done c)) (agent_mistake cautions.empty_answer_caution), w)
      else (applied c, w)

abbrev pub max_incomplited_todo_attempts : ℕ
max_incomplited_todo_attempts = 3

abbrev status_badge : String → String
status_badge s =
    if s == "pending"
    then "[ ]"
    else if s == "in_progress"
    then "[>]"
    else if s == "done"
    then "[x]"
    else if s == "declined"
    then "[-]"
    else ""

-- (*TodoItem).String
unfoldable pub todo_string : TodoItem → String
todo_string i = concat ("- " ∷ status_badge i.status ∷ " #" ∷ decimal i.id ∷ " " ∷ i.title ∷ [])

unfoldable pub todo_to_list : List TodoItem → String
unfolding todo_string
todo_to_list [] = ""
todo_to_list (i ∷ is) = concat (todo_string i ∷ "\n" ∷ todo_to_list is ∷ [])

abbrev pub is_undone : TodoItem → Bool
is_undone i = not (i.status == "done") && not (i.status == "declined")

abbrev or_zero : Option ℕ → ℕ
or_zero none = 0
or_zero (some n) = n

module _ {R : Type 0} where
  -- h.attemptCounter[sessID]
  unfoldable pub attempts_of : String → World R → ℕ
  attempts_of sess w = or_zero (lookup sess w.attempts)

  unfoldable pub increase_attempts : String → World R → World R
  unfolding attempts_of
  increase_attempts sess w = record w { attempts = insert sess (attempts_of sess w + 1) w.attempts }

  unfoldable pub drop_attempts : String → World R → World R
  drop_attempts sess w = record w { attempts = delete sess w.attempts }

  unfoldable pub is_agent_cant_handle : String → World R → Bool
  unfolding attempts_of
  is_agent_cant_handle sess w = leb max_incomplited_todo_attempts (attempts_of sess w)

  unfoldable pub extract_undone_todos : String → World R → List TodoItem × World R
  extract_undone_todos sess w =
      let (items, todos') = list_todos w.now sess w.todos in
      (keep_if is_undone items, record w { todos = todos' })

  -- What UndoneTodoHook does about the todos that it has found.
  unfoldable pub judge_todos :
      Cautions → String → Completion → List TodoItem → World R → Applied Completion × World R
  unfolding is_agent_cant_handle drop_attempts increase_attempts todo_to_list
  judge_todos cautions sess c [] w = (applied c, drop_attempts sess w)
  judge_todos cautions sess c (t ∷ ts) w =
      if is_agent_cant_handle sess w
      then (rejected (some c) (text "agent can't handle with undone tasks"), drop_attempts sess w)
      else (
        rejected (some (not_done c))
            (agent_mistake (cautions.undone_todos_caution (todo_to_list (t ∷ ts)))),
        increase_attempts sess w,
      )

  -- UndoneTodoHook; the first argument is the session of the context, if it has one.
  unfoldable pub undone_todo :
      Option String → Cautions → Completion → World R → Applied Completion × World R
  unfolding judge_todos extract_undone_todos
  undone_todo none cautions c w =
      if c.done
      then (rejected (some c) (text "todo hook: has no session ID"), w)
      else (applied c, w)
  undone_todo (some sess) cautions c w =
      let (undone, w') = extract_undone_todos sess w in
      if c.done then judge_todos cautions sess c undone w' else (applied c, w)
