-- ===== src/Todo.antt =====
-- cerulea-pallets/pallet-todo/src/lib.rs: todo items of accounts. Titles and descriptions come in as
-- bounded lists of bytes.
pub mod Counted
pub mod Reach
mod Tests
use cerulea.Common.{
  ℕ, ◌+◌, ◌-◌, ◌%◌, ◌^◌, ⊤, Bool, true, false, not, List, [], ◌∷◌, Option, none, some,
  if◌then◌else◌, ltb, Map, lookup, has_key, get, insert, erase, checked_add, u64_max,
}
use cerulea.Frame.Errors.{
  todo_error, too_many_todos, todo_id_overflow, todo_not_found, already_completed,
}
use cerulea.Frame.Action.{Action, ◌>>=◌, ◌>>◌, gets, modify, ensure, ok_or, Origin, ensure_signed}

pub record Config : Type 0 where
  pub max_todos_per_account : ℕ

pub record TodoItem : Type 0 where
  pub id : ℕ
  pub title : List ℕ
  pub description : List ℕ
  pub completed : Bool
  pub created_at : ℕ

-- The events name the owner and the item.
pub data Event : Type 0 where
  todo_created todo_completed todo_removed todo_updated : ℕ → ℕ → Event

-- The storage, with the number of the current block and the log of events.
pub record Todos : Type 0 where
  pub todos : Map (Map TodoItem)
  pub next_todo_id : Map ℕ
  pub todo_count : Map ℕ
  pub block_number : ℕ
  pub events : List Event

abbrev deposit_event : Event → Action Todos ⊤
deposit_event e = modify (λ t. record t { events = e ∷ t.events })

abbrev pub items : ℕ → Todos → Map TodoItem
items who t = get [] who t.todos

insert_item : ℕ → ℕ → TodoItem → Todos → Todos
insert_item who id item t = record t { todos = insert who (insert id item (items who t)) t.todos }

pub create_todo : Config → Origin → List ℕ → List ℕ → Action Todos ⊤
unfolding insert_item
create_todo cfg origin title description = do
  who ← ensure_signed origin
  count ← gets (λ t. get 0 who t.todo_count)
  ensure (ltb count cfg.max_todos_per_account) (todo_error too_many_todos)
  todo_id ← gets (λ t. get 0 who t.next_todo_id)
  next_id ← ok_or (checked_add u64_max todo_id 1) (todo_error todo_id_overflow)
  block ← gets (λ t. t.block_number)
  modify (
      insert_item who todo_id (record {
        id = todo_id;
        title = title;
        description = description;
        completed = false;
        created_at = block;
      }))
  modify (λ t. record t { next_todo_id = insert who next_id t.next_todo_id })
  modify (λ t. record t { todo_count = insert who ((count + 1) % 2 ^ 32) t.todo_count })
  deposit_event (todo_created who todo_id)

pub complete_todo : Origin → ℕ → Action Todos ⊤
unfolding insert_item
complete_todo origin todo_id = do
  who ← ensure_signed origin
  found ← gets (λ t. lookup todo_id (items who t))
  item ← ok_or found (todo_error todo_not_found)
  ensure (not item.completed) (todo_error already_completed)
  modify (insert_item who todo_id (record item { completed = true }))
  deposit_event (todo_completed who todo_id)

pub remove_todo : Origin → ℕ → Action Todos ⊤
remove_todo origin todo_id = do
  who ← ensure_signed origin
  found ← gets (λ t. has_key todo_id (items who t))
  ensure found (todo_error todo_not_found)
  modify (λ t. record t { todos = insert who (erase todo_id (items who t)) t.todos })
  modify (λ t. record t { todo_count = insert who (get 0 who t.todo_count - 1) t.todo_count })
  deposit_event (todo_removed who todo_id)

pub update_todo : Origin → ℕ → List ℕ → List ℕ → Action Todos ⊤
unfolding insert_item
update_todo origin todo_id new_title new_description = do
  who ← ensure_signed origin
  found ← gets (λ t. lookup todo_id (items who t))
  item ← ok_or found (todo_error todo_not_found)
  modify
      (insert_item who todo_id (record item { title = new_title; description = new_description }))
  deposit_event (todo_updated who todo_id)
