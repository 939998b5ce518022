-- ===== src/Todo/Reach.antt =====
-- The calls of pallet-todo, in any order.
use cerulea.Common.{
  ℕ, ◌+◌, ◌-◌, ◌%◌, ◌^◌, ◌<◌, ◌≡◌, true, false, ◌⊎◌, inl, inr, List, [], ◌∷◌, Option-cases, some,
  none, lookup, has_key, get, insert, erase, arith, ⊤,
}
use cerulea.Frame.Action.{Action, Origin, root, signed, unsigned}
use cerulea.Todo.{
  Config, TodoItem, Todos, insert_item, create_todo, complete_todo, remove_todo, update_todo,
}
use cerulea.Todo.Counted.{parts, carry, IsCounted, create-Counted, replace-Counted, remove-Counted}

new_item : ℕ → List ℕ → List ℕ → Todos → TodoItem
new_item id title description t = record {
  id = id;
  title = title;
  description = description;
  completed = false;
  created_at = t.block_number;
}

create_parts :
    (cfg : Config) (who : ℕ) (title description : List ℕ) (t : Todos)
    → let t' = (create_todo cfg (signed who) title description t).1 in
      let id = get 0 who t.next_todo_id in
      (parts t' ≡ parts t)
      ⊎ ((get 0 who t.todo_count < cfg.max_todos_per_account)
          × (parts t' ≡ (
            insert who (insert id (new_item id title description t) (get [] who t.todos)) t.todos,
            insert who (id + 1) t.next_todo_id,
            insert who ((get 0 who t.todo_count + 1) % 2 ^ 32) t.todo_count,
          )))
unfolding create_todo insert_item new_item
create_parts cfg who title description t = ground arith

remove_parts :
    (who id : ℕ) (t : Todos)
    → let t' = (remove_todo (signed who) id t).1 in
      (parts t' ≡ parts t)
      ⊎ ((has_key id (get [] who t.todos) ≡ true)
          × (parts t' ≡ (
            insert who (erase id (get [] who t.todos)) t.todos,
            t.next_todo_id,
            insert who (get 0 who t.todo_count - 1) t.todo_count,
          )))
unfolding remove_todo
remove_parts who id t = ground arith

complete_parts :
    (who id : ℕ) (item : TodoItem) (t : Todos)
    → lookup id (get [] who t.todos) ≡ some item
    → let t' = (complete_todo (signed who) id t).1 in
      (parts t' ≡ parts t)
      ⊎ (parts t' ≡ (
        insert who (insert id (record item { completed = true }) (get [] who t.todos)) t.todos,
        t.next_todo_id,
        t.todo_count,
      ))
unfolding complete_todo insert_item
complete_parts who id item t e = ground (arith, e)

complete_absent :
    (who id : ℕ) (t : Todos)
    → lookup id (get [] who t.todos) ≡ none
    → parts (complete_todo (signed who) id t).1 ≡ parts t
unfolding complete_todo
complete_absent who id t e = ground (arith, e)

update_parts :
    (who id : ℕ) (title description : List ℕ) (item : TodoItem) (t : Todos)
    → lookup id (get [] who t.todos) ≡ some item
    → parts (update_todo (signed who) id title description t).1 ≡ (
      insert who
          (insert id
            (record item { title = title; description = description })
            (get [] who t.todos))
          t.todos,
      t.next_todo_id,
      t.todo_count,
    )
unfolding update_todo insert_item
update_parts who id title description item t e = ground (arith, e)

update_absent :
    (who id : ℕ) (title description : List ℕ) (t : Todos)
    → lookup id (get [] who t.todos) ≡ none
    → parts (update_todo (signed who) id title description t).1 ≡ parts t
unfolding update_todo
update_absent who id title description t e = ground (arith, e)

pub data Call : Type 0 where
  creates : Origin → List ℕ → List ℕ → Call
  completes removes : Origin → ℕ → Call
  updates : Origin → ℕ → List ℕ → List ℕ → Call

pub run : Config → Call → Action Todos ⊤
run cfg (creates o title description) = create_todo cfg o title description
run cfg (completes o id) = complete_todo o id
run cfg (removes o id) = remove_todo o id
run cfg (updates o id title description) = update_todo o id title description

module _ (cfg : Config) (word : cfg.max_todos_per_account < 2 ^ 32) where
  run-IsCounted :
      (c : Call) (t : Todos)
      → IsCounted cfg.max_todos_per_account t
      → IsCounted cfg.max_todos_per_account (run cfg c t).1
  unfolding run create_todo complete_todo remove_todo update_todo
  run-IsCounted (creates root _ _) t h = h
  run-IsCounted (creates unsigned _ _) t h = h
  run-IsCounted (creates (signed who) title description) t h =
      elim (create_parts cfg who title description t) [
        | inl e ↦
            carry cfg.max_todos_per_account (create_todo cfg (signed who) title description t).1 e h
        | inr (room, e) ↦
            carry cfg.max_todos_per_account (create_todo cfg (signed who) title description t).1 e (
              create-Counted who h (new_item (get 0 who t.next_todo_id) title description t) room
                word)
      ]
  run-IsCounted (completes root _) t h = h
  run-IsCounted (completes unsigned _) t h = h
  run-IsCounted (completes (signed who) id) t h =
      elim (Option-cases (lookup id (get [] who t.todos))) [
        | inl e ↦
            carry cfg.max_todos_per_account (complete_todo (signed who) id t).1
              (complete_absent who id t e) h
        | inr (item, e) ↦ elim (complete_parts who id item t e) [
          | inl p ↦ carry cfg.max_todos_per_account (complete_todo (signed who) id t).1 p h
          | inr p ↦
              carry cfg.max_todos_per_account (complete_todo (signed who) id t).1 p
                (replace-Counted who h id (record item { completed = true }) (ground (arith, e)))
        ]
      ]
  run-IsCounted (removes root _) t h = h
  run-IsCounted (removes unsigned _) t h = h
  run-IsCounted (removes (signed who) id) t h = elim (remove_parts who id t) [
    | inl e ↦ carry cfg.max_todos_per_account (remove_todo (signed who) id t).1 e h
    | inr (known, e) ↦
        carry cfg.max_todos_per_account (remove_todo (signed who) id t).1 e
          (remove-Counted who h id known)
  ]
  run-IsCounted (updates root _ _ _) t h = h
  run-IsCounted (updates unsigned _ _ _) t h = h
  run-IsCounted (updates (signed who) id title description) t h =
      elim (Option-cases (lookup id (get [] who t.todos))) [
        | inl e ↦
            carry cfg.max_todos_per_account (update_todo (signed who) id title description t).1
              (update_absent who id title description t e) h
        | inr (item, e) ↦
            carry cfg.max_todos_per_account (update_todo (signed who) id title description t).1
              (update_parts who id title description item t e)
              (replace-Counted who h id (record item { title = title; description = description })
                (ground (arith, e)))
      ]

pub run_calls : Config → List Call → Todos → Todos
run_calls cfg [] t = t
run_calls cfg (c ∷ cs) t = run_calls cfg cs (run cfg c t).1

-- Whatever calls are made, in any order: the count of each account is the number of its items and
-- within the bound, no id stands twice, and the next id is above all ids, so that no item is ever
-- overwritten by a new one. The bound must be a u32.
pub run_calls-IsCounted :
    (cfg : Config)
    → cfg.max_todos_per_account < 2 ^ 32
    → (cs : List Call) (t : Todos) → IsCounted cfg.max_todos_per_account t
    → IsCounted cfg.max_todos_per_account (run_calls cfg cs t)
unfolding run_calls
run_calls-IsCounted cfg word [] t h = h
run_calls-IsCounted cfg word (c ∷ cs) t h =
    run_calls-IsCounted cfg word cs (run cfg c t).1 (run-IsCounted cfg word c t h)
