-- ===== src/Tests/Pool.antt =====
-- A pool of one thread, with one job; and with a unit of the scheduler.
use gip.Prelude.{ℕ, refl, ◌≤◌, ◌⊎◌, inl, some, List, [], ◌∷◌, true, false}
use gip.Models.{DispatchUnit, fifo}
use gip.Backends.Onnx.{OnnxBackend, onnx_backend}
use gip.Scheduler.State.{Scheduler}
use gip.Scheduler.Dispatch.{dispatch_unit}
use gip.Platform.Pool.{IsLinked, Follows, dispatch_unit-refines}
use gip.Tests.Fixtures.{echo_ort, first_task, busy}
use gip.ThreadPool.{
  Worker, idle, running, exited, ThreadPool, new_pool, new_workers, enqueue, set_stop, notify_all,
  notify, look, here, looks, finishes, WorkerStep, Reachable, starts, enqueues, stops, announces,
  works, nobody_waits,
}
use gip.ThreadPool.Order.{IsInOrder, Reachable-IsInOrder}
use gip.ThreadPool.Progress.{Runs, stays, goes_on, work_left, IsDone, CanStep, stop_joins}

abbrev quiet : List (Worker ℕ) → List (Worker ℕ)
quiet ws = ws

abbrev with_job : ThreadPool ℕ
with_job = record {
  workers = idle ∷ [];
  tasks = 7 ∷ [];
  stop = false;
  accepted = 7 ∷ [];
  started = [];
  announced = false;
}

-- The job is taken, and the pool is stopped.
abbrev stopping : ThreadPool ℕ
stopping = record with_job {
  workers = running 7 ∷ [];
  tasks = [];
  stop = true;
  announced = true;
  started = 7 ∷ [];
}

with_job-Reachable : Reachable 1 with_job
unfolding new_pool new_workers enqueue
with_job-Reachable = enqueues (new_pool 1) 7 quiet (nobody_waits (idle ∷ []) refl) starts

stopping-Reachable : Reachable 1 stopping
unfolding look set_stop notify_all notify
stopping-Reachable =
    announces _ refl
      (stops _ (works with_job _ (looks with_job idle _ (inl refl) (here [])) with_job-Reachable))

-- The worker ends its job, sees that the pool is stopped, and leaves.
abbrev joined : ThreadPool ℕ
joined = record stopping { workers = exited ∷ [] }

last_run : Runs 2 stopping joined
unfolding look
last_run =
    goes_on 1 stopping (record stopping { workers = idle ∷ [] }) joined
      (goes_on 0 stopping stopping _ (stays stopping) (finishes stopping 7 _ (here [])))
      (looks _ idle _ (inl refl) (here []))

Reachable-IsInOrder_example : IsInOrder stopping
Reachable-IsInOrder_example = Reachable-IsInOrder 1 stopping stopping-Reachable

stop_joins_example : (2 ≤ work_left stopping) × (IsDone joined ⊎ CanStep joined)
stop_joins_example = stop_joins 0 2 stopping joined stopping-Reachable refl last_run

abbrev unit : DispatchUnit
unit = record { model_name = "resnet"; strategy = fifo; tasks = first_task ∷ [] }

-- A pool of one thread with the unit in its queue, and the scheduler that has put it there.
abbrev with_unit : ThreadPool DispatchUnit
with_unit = record {
  workers = idle ∷ [];
  tasks = unit ∷ [];
  stop = false;
  accepted = unit ∷ [];
  started = [];
  announced = false;
}

abbrev handed_over : Scheduler (OnnxBackend ℕ)
handed_over = record busy { thread_pool = unit ∷ [] }

abbrev taken : ThreadPool DispatchUnit
taken = record with_unit { workers = running unit ∷ []; tasks = []; started = unit ∷ [] }

takes : WorkerStep with_unit taken
unfolding look
takes = looks with_unit idle (running unit ∷ []) (inl refl) (here [])

dispatch_unit-refines_example :
    IsLinked
      (dispatch_unit (enqueue (λ ws. ws) unit with_unit).1 (some unit) handed_over)
      (enqueue (λ ws. ws) unit with_unit).0
    × Follows (λ s. s) handed_over with_unit taken
dispatch_unit-refines_example =
    dispatch_unit-refines (λ s. s) (λ ws. ws) unit handed_over with_unit taken refl refl takes
