-- ===== src/Todo/Timers.antt =====
-- When the timers of internal/tools/todo/storage.go delete a list.
use arch_agent.Base.{
  Bool, List, String, [], arith, false, if◌then◌else◌, leb, none, refl, ℕ, ◌&&◌, ◌+◌, ◌||◌, ◌∷◌,
  ◌≡◌, ◌≤◌,
}
use arch_agent.Base.Dict.{Dict, delete, lookup, lookup-delete}
use arch_agent.Base.Keys.{string_eq, ◌==◌}
use arch_agent.Todo.{
  Store, TodoItem, add_todos, append_items, delete_due, fire, items_of, list_todos, todo_ttl,
  touch_timer,
}
use arch_agent.Base.{◌∙◌}
use arch_agent.Base.Keys.{==_self}

-- A timer of the session is due.
abbrev pub is_due : ℕ → String → List (String × ℕ) → Bool
is_due now n [] = false
is_due now n ((sess, at) ∷ timers) = (sess == n && leb at now) || is_due now n timers

lookup-delete_due :
    (now : ℕ) (timers : List (String × ℕ)) (todos : Dict String (List TodoItem)) (n : String)
    → lookup n (delete_due now timers todos)
      ≡ (if is_due now n timers then none else lookup n todos)
unfolding delete_due
lookup-delete_due now [] todos n = refl
lookup-delete_due now ((sess, at) ∷ timers) todos n = ground (
  arith,
  lookup-delete sess n todos,
  lookup-delete_due now timers (delete sess todos) n,
  lookup-delete_due now timers todos n,
)

-- Where timers fire, a session loses its whole list if one of its timers is due, and keeps it
-- otherwise.
pub items_of-fire :
    (now : ℕ) (s : Store) (n : String)
    → items_of (fire now s) n ≡ (if is_due now n s.timers then [] else items_of s n)
unfolding fire items_of
items_of-fire now s n = ground (arith, lookup-delete_due now s.timers s.todos n)

append_items-timers :
    (sess : String) (items : List TodoItem) (s : Store)
    → (append_items sess items s).timers ≡ s.timers
unfolding append_items
append_items-timers sess [] s = refl
append_items-timers sess (item ∷ items) s = refl

add_todos-timers :
    (now : ℕ) (sess : String) (items : List TodoItem) (s : Store)
    → (add_todos now sess items s).timers ≡ (sess, now + todo_ttl) ∷ s.timers
unfolding add_todos touch_timer
add_todos-timers now sess items s = append_items-timers sess items (touch_timer now sess s)

-- A list is gone an hour after items were added, although it was used in between: the later use
-- does not put off the timer of the earlier one.
pub list_todos-fire :
    (added used now : ℕ) (sess : String) (items : List TodoItem) (s : Store)
    → added + todo_ttl ≤ now
    → items_of (fire now (list_todos used sess (add_todos added sess items s)).1) sess ≡ []
unfolding list_todos touch_timer
list_todos-fire added used now sess items s late =
    let last = touch_timer used sess (add_todos added sess items s) in
    items_of-fire now last sess ∙ ground (arith, ==_self sess, add_todos-timers added sess items s)
