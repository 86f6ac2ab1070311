-- ===== src/Todo.antt =====
-- internal/tools/todo/storage.go: the todo lists of the sessions, in memory. Each method holds the
-- mutex, so a method is a function from the store to the store. A status is any text, as Update does
-- not look at it. The time of a call is an argument, in seconds.
pub mod Numbering
pub mod Timers
use arch_agent.Base.{
  List, Option, String, [], if◌then◌else◌, keep_if, leb, length, ltb, none, some, suc, zero, ℕ,
  ◌++◌, ◌+◌, ◌∷◌,
}
use arch_agent.Base.Keys.{string_eq}
use arch_agent.Base.Dict.{Dict, delete, insert, lookup}
use arch_agent.Base.Int.{negsuc, pos, ℤ}
use arch_agent.Errors.{Error, text}

abbrev pub todo_ttl : ℕ
todo_ttl = 3600

pub record TodoItem : Type 0 where
  pub id : ℕ
  pub title : String
  pub status : String

-- `timers` are the timers that run, each with its session and the time at which it fires. The map
-- `cleanTimers` is nil and nothing is ever put into it, so it is no part of the state.
pub record Store : Type 0 where
  pub todos : Dict String (List TodoItem)
  pub timers : List (String × ℕ)

unfoldable pub new_store : Store
new_store = record { todos = []; timers = [] }

-- s.todos[sessID], where a missing key has the nil slice.
abbrev pub or_nil : Option (List TodoItem) → List TodoItem
or_nil none = []
or_nil (some items) = items

unfoldable pub items_of : Store → String → List TodoItem
items_of s sess = or_nil (lookup sess s.todos)

-- touchTimer: no timer is found, so one more is started.
unfoldable pub touch_timer : ℕ → String → Store → Store
touch_timer now sess s = record s { timers = (sess, now + todo_ttl) ∷ s.timers }

-- The items of Add with the ids and the status that the loop gives them.
unfoldable pub number_items : ℕ → List TodoItem → List TodoItem
number_items n [] = []
number_items n (item ∷ items) =
    record item { id = n; status = "pending" } ∷ number_items (suc n) items

unfoldable pub append_items : String → List TodoItem → Store → Store
unfolding number_items items_of
append_items sess [] s = s
append_items sess (item ∷ items) s =
    let old = items_of s sess in
    record s { todos = insert sess (old ++ number_items (length old) (item ∷ items)) s.todos }

unfoldable pub add_todos : ℕ → String → List TodoItem → Store → Store
unfolding touch_timer append_items
add_todos now sess items s = append_items sess items (touch_timer now sess s)

-- s.todos[sessID][n].Status = status
unfoldable pub set_status : ℕ → String → List TodoItem → List TodoItem
set_status n status [] = []
set_status zero status (item ∷ items) = record item { status = status } ∷ items
set_status (suc n) status (item ∷ items) = item ∷ set_status n status items

unfoldable pub update_at : String → ℤ → String → Store → Option Error × Store
unfolding set_status items_of
update_at sess (negsuc n) status s = (some (text "bad todo id"), s)
update_at sess (pos n) status s =
    if ltb n (length (items_of s sess))
    then (none, record s { todos = insert sess (set_status n status (items_of s sess)) s.todos })
    else (some (text "bad todo id"), s)

unfoldable pub update_todo : ℕ → String → ℤ → String → Store → Option Error × Store
unfolding touch_timer update_at
update_todo now sess id status s = update_at sess id status (touch_timer now sess s)

unfoldable pub list_todos : ℕ → String → Store → List TodoItem × Store
unfolding touch_timer items_of
list_todos now sess s = (items_of s sess, touch_timer now sess s)

-- The timers that are due delete their lists.
unfoldable pub delete_due :
    ℕ → List (String × ℕ) → Dict String (List TodoItem) → Dict String (List TodoItem)
delete_due now [] todos = todos
delete_due now ((sess, at) ∷ timers) todos =
    delete_due now timers (if leb at now then delete sess todos else todos)

unfoldable pub fire : ℕ → Store → Store
unfolding delete_due
fire now s = record {
  todos = delete_due now s.timers s.todos;
  timers = keep_if (λ t. ltb now t.1) s.timers;
}

-- What happens to the store.
pub data Op : Type 0 where
  add : ℕ → String → List TodoItem → Op
  update : ℕ → String → ℤ → String → Op
  list : ℕ → String → Op
  fires : ℕ → Op

unfoldable pub apply_op : Op → Store → Store
unfolding add_todos update_todo list_todos fire
apply_op (add now sess items) s = add_todos now sess items s
apply_op (update now sess id status) s = (update_todo now sess id status s).1
apply_op (list now sess) s = (list_todos now sess s).1
apply_op (fires now) s = fire now s

unfoldable pub run_ops : List Op → Store → Store
unfolding apply_op
run_ops [] s = s
run_ops (op ∷ ops) s = run_ops ops (apply_op op s)
