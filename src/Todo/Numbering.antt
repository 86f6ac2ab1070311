-- ===== src/Todo/Numbering.antt =====
-- The ids of the items of internal/tools/todo/storage.go.
use arch_agent.Base.{
  Bool-cases, List, String, [], arith, inl, inr, length, ltb, refl, subst, suc, zero, ℕ, ◌++◌, ◌+◌,
  ◌∷◌, ◌≡◌,
}
use arch_agent.Base.Dict.{insert, lookup-insert}
use arch_agent.Base.Int.{negsuc, pos, ℤ}
use arch_agent.Base.Keys.{string_eq, ◌==◌}
use arch_agent.Todo.{
  Op, Store, TodoItem, add, add_todos, append_items, apply_op, fire, fires, items_of, list,
  list_todos, number_items, run_ops, set_status, touch_timer, update, update_at, update_todo,
}
use arch_agent.Todo.Timers.{is_due, items_of-fire}

-- The ids count up from `n`.
abbrev pub Numbered : ℕ → List TodoItem → Type 0
Numbered n [] = Unit
Numbered n (item ∷ items) = (item.id ≡ n) × Numbered (suc n) items

abbrev pub IsNumbered : Store → Type 0
IsNumbered s = (sess : String) → Numbered 0 (items_of s sess)

Numbered-number_items : (n : ℕ) (items : List TodoItem) → Numbered n (number_items n items)
unfolding number_items
Numbered-number_items n [] = tt
Numbered-number_items n (item ∷ items) = (refl, Numbered-number_items (suc n) items)

Numbered-append :
    (n m : ℕ) (xs ys : List TodoItem)
    → m ≡ n + length xs
    → Numbered n xs
    → Numbered m ys
    → Numbered n (xs ++ ys)
Numbered-append n m [] ys e h k =
    let same : m ≡ n = omega arith in subst (λ a. Numbered a ys) same k
Numbered-append n m (x ∷ xs) ys e h k =
    (h.0, Numbered-append (suc n) m xs ys (omega (arith, e)) h.1 k)

Numbered-set_status :
    (n i : ℕ) (status : String) (items : List TodoItem)
    → Numbered n items
    → Numbered n (set_status i status items)
unfolding set_status
Numbered-set_status n zero status [] h = tt
Numbered-set_status n (suc i) status [] h = tt
Numbered-set_status n zero status (item ∷ items) h = h
Numbered-set_status n (suc i) status (item ∷ items) h =
    (h.0, Numbered-set_status (suc n) i status items h.1)

-- Putting a numbered list into the store.
insert-IsNumbered :
    (s : Store) (sess : String) (items : List TodoItem)
    → IsNumbered s
    → Numbered 0 items
    → IsNumbered (record s { todos = insert sess items s.todos })
unfolding items_of
insert-IsNumbered s sess items h k other = elim (Bool-cases (sess == other)) [
  | inl y ↦ rw (lookup-insert sess other items s.todos, y) k
  | inr n ↦ rw (lookup-insert sess other items s.todos, n) (h other)
]

append_items-IsNumbered :
    (sess : String) (items : List TodoItem) (s : Store)
    → IsNumbered s
    → IsNumbered (append_items sess items s)
unfolding append_items
append_items-IsNumbered sess [] s h = h
append_items-IsNumbered sess (item ∷ items) s h = insert-IsNumbered s sess _ h (
    Numbered-append 0 _ (items_of s sess) _ (omega arith) (h sess)
      (Numbered-number_items _ (item ∷ items)))

update_at-IsNumbered :
    (sess : String) (id : ℤ) (status : String) (s : Store)
    → IsNumbered s
    → IsNumbered (update_at sess id status s).1
unfolding update_at
update_at-IsNumbered sess (negsuc n) status s h = h
update_at-IsNumbered sess (pos n) status s h =
    elim (Bool-cases (ltb n (length (items_of s sess)))) [
      | inl y ↦
          rw (y, update_at)
            (insert-IsNumbered s sess _ h (Numbered-set_status 0 n status _ (h sess)))
      | inr no_item ↦ rw (no_item, update_at) h
    ]

fire-IsNumbered : (now : ℕ) (s : Store) → IsNumbered s → IsNumbered (fire now s)
fire-IsNumbered now s h n = elim (Bool-cases (is_due now n s.timers)) [
  | inl y ↦ rw (items_of-fire now s n, y) tt
  | inr other ↦ rw (items_of-fire now s n, other) (h n)
]

apply_op-IsNumbered : (op : Op) (s : Store) → IsNumbered s → IsNumbered (apply_op op s)
unfolding apply_op add_todos update_todo list_todos touch_timer
apply_op-IsNumbered (add now sess items) s h =
    append_items-IsNumbered sess items (touch_timer now sess s) h
apply_op-IsNumbered (update now sess id status) s h =
    update_at-IsNumbered sess id status (touch_timer now sess s) h
apply_op-IsNumbered (list now sess) s h = h
apply_op-IsNumbered (fires now) s h = fire-IsNumbered now s h

-- Whatever is done to a store in which the items of each session have the numbers of their places,
-- from 0 on, they have them afterwards.
pub run_ops-IsNumbered : (ops : List Op) (s : Store) → IsNumbered s → IsNumbered (run_ops ops s)
unfolding run_ops
run_ops-IsNumbered [] s h = h
run_ops-IsNumbered (op ∷ ops) s h =
    run_ops-IsNumbered ops (apply_op op s) (apply_op-IsNumbered op s h)
