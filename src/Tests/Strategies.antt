-- ===== src/Tests/Strategies.antt =====
-- The strategies and the policy.
use gip.Prelude.{◌≡◌, refl, ◌++◌, some, [], ◌∷◌, List, arith, string_eq}
use gip.Prelude.Dict.{lookup, insert, get_or}
use gip.Models.{max_throughput, DispatchUnit, enabled}
use gip.Policy.{SchedulingContext}
use gip.Fifo.Order
use gip.Fifo.Order.{run_in_order, next_ready_in-select, arrivals}
use gip.Batch
use gip.Batch.{Windows, ModelQueue, empty_queue}
use gip.Batch.Selection.{Selected, select-Selected}
use gip.Batch.Revocation.{RevokedFrom, revoke-RevokedFrom}
use gip.Batch.History
use gip.Batch.History.{IsBatch, select-IsBatch}
use gip.Tests.Fixtures.{first_task, second_task, resnet, idle}
use gip.Scheduler.State.{runtime_snapshot}

run_in_order_example :
    (Order.run (Order.admits second_task ∷ Order.selects ∷ []) (first_task ∷ [])).1
      ++ (Order.run (Order.admits second_task ∷ Order.selects ∷ []) (first_task ∷ [])).0
    ≡ (first_task ∷ []) ++ arrivals (Order.admits second_task ∷ Order.selects ∷ [])
run_in_order_example =
    run_in_order (Order.admits second_task ∷ Order.selects ∷ []) (first_task ∷ [])

-- A window of two tasks that is full, and one that is not.
abbrev full_window : ModelQueue
full_window = record empty_queue { tasks = first_task ∷ second_task ∷ []; max_batch_size = 2 }

abbrev open_window : ModelQueue
open_window = record empty_queue { tasks = first_task ∷ []; max_batch_size = 2 }

abbrev full : Windows
full = ("resnet", full_window) ∷ []

abbrev waiting : Windows
waiting = ("resnet", open_window) ∷ []

select-Selected_example : Selected 3000000 full (Batch.select 3000000 full)
select-Selected_example = select-Selected 3000000 full (omega arith, tt)

revoke-RevokedFrom_example : RevokedFrom "b" full (Batch.revoke "b" full)
revoke-RevokedFrom_example = revoke-RevokedFrom "b" full

abbrev context : SchedulingContext
context = record { model_meta = resnet enabled; runtime_snapshot = runtime_snapshot 0 idle }

abbrev arrivals_of_two : List History.Call
arrivals_of_two =
    History.admits (some first_task) context ∷ History.admits (some second_task) context ∷ []

abbrev batch_of_two : DispatchUnit
batch_of_two = record {
  model_name = "resnet";
  strategy = max_throughput;
  tasks = first_task ∷ second_task ∷ [];
}

select-IsBatch_example : IsBatch batch_of_two
unfolding Batch.select Batch.is_ready Batch.fill Batch.admit Batch.enqueue History.run History.step
    get_or lookup insert
select-IsBatch_example = select-IsBatch arrivals_of_two 3000000 batch_of_two refl
