-- ===== src/Tests/Todos.antt =====
-- Examples for internal/tools/todo.
use arch_agent.Base.{List, [], arith, refl, ◌∷◌, ◌≡◌}
use arch_agent.Base.Dict.{insert, lookup}
use arch_agent.Base.Int.{pos}
use arch_agent.Todo.{
  Op, Store, TodoItem, add_todos, append_items, apply_op, fire, items_of, list_todos, new_store,
  number_items, run_ops, set_status, touch_timer, update_at, update_todo,
}
use arch_agent.Todo.Numbering.{IsNumbered, run_ops-IsNumbered}
use arch_agent.Todo.Timers.{list_todos-fire}

abbrev milk : TodoItem
milk = record { id = 7; title = "milk"; status = "done" }

abbrev ops : List Op
ops =
    Op.add 0 "s" (milk ∷ milk ∷ [])
    ∷ Op.update 10 "s" (pos 1) "done"
    ∷ Op.add 20 "s" (milk ∷ [])
    ∷ Op.list 30 "s"
    ∷ []

test-run_ops : items_of (run_ops ops new_store) "s" ≡ (
    record { id = 0; title = "milk"; status = "pending" }
    ∷ record { id = 1; title = "milk"; status = "done" }
    ∷ record { id = 2; title = "milk"; status = "pending" }
    ∷ [])
unfolding run_ops apply_op add_todos append_items number_items items_of touch_timer update_todo
    update_at set_status list_todos new_store lookup insert
test-run_ops = refl

new_store-IsNumbered : IsNumbered new_store
unfolding new_store items_of lookup
new_store-IsNumbered sess = tt

run_ops-IsNumbered_example : IsNumbered (run_ops ops new_store)
run_ops-IsNumbered_example = run_ops-IsNumbered ops new_store new_store-IsNumbered

abbrev two_sessions : Store
two_sessions = add_todos 100 "t" (milk ∷ []) (add_todos 0 "s" (milk ∷ []) new_store)

list_todos-fire_example :
    items_of (fire 3600 (list_todos 3599 "s" (add_todos 0 "s" (milk ∷ []) new_store)).1) "s" ≡ []
list_todos-fire_example = list_todos-fire 0 3599 3600 "s" (milk ∷ []) new_store (omega arith)
