-- ===== src/Todo/Tests.antt =====
-- The theorem on todo items, from empty storage with at most two items for each account.
use cerulea.Common.{refl, [], ◌∷◌, arith}
use cerulea.Frame.Action.{signed}
use cerulea.Todo.{Config, Todos}
use cerulea.Todo.Counted.{IsCounted}
use cerulea.Todo.Reach.{run_calls, run_calls-IsCounted, creates, completes, removes}

abbrev cfg : Config
cfg = record { max_todos_per_account = 2 }

abbrev start : Todos
start = record { todos = []; next_todo_id = []; todo_count = []; block_number = 1; events = [] }

start-IsCounted : IsCounted 2 start
start-IsCounted = record {
  unique = λ a. tt;
  counted = λ a. refl;
  capped = λ a. omega arith;
  fresh = λ a i k. ground (arith, k);
}

run_calls-IsCounted_example : IsCounted 2 (
    run_calls cfg
      (creates (signed 1) (7 ∷ []) []
        ∷ creates (signed 1) (8 ∷ []) []
        ∷ removes (signed 1) 0
        ∷ completes (signed 1) 1
        ∷ [])
      start)
run_calls-IsCounted_example =
    run_calls-IsCounted cfg (omega arith)
      (creates (signed 1) (7 ∷ []) []
        ∷ creates (signed 1) (8 ∷ []) []
        ∷ removes (signed 1) 0
        ∷ completes (signed 1) 1
        ∷ [])
      start start-IsCounted
