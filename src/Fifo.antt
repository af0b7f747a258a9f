-- ===== src/Fifo.antt =====
-- `StrategyFIFO` (include/scheduler/strategies/StrategyFIFO.hpp,
-- src/scheduler/strategies/StrategyFIFO.cpp): the pending tasks, oldest first. `admit` refuses the
-- null pointer, so no null pointer is ever queued.
pub mod Order
pub mod Revocation
use gip.Prelude.{
  ℕ, String, Bool, true, false, Option, none, some, List, [], ◌∷◌, ◌++◌, length, is_empty, ◌==◌,
  string_eq, if◌then◌else◌,
}
use gip.Models.{Task, TaskCells, DispatchUnit, fifo, request_id, model_name, set_cell}

abbrev pub FifoQueue : Type 0
FifoQueue = List Task

unfoldable pub admit : Option Task → FifoQueue → FifoQueue × Bool
admit none q = (q, false)
admit (some task) q = (q ++ task ∷ [], true)

unfoldable pub select : FifoQueue → FifoQueue × Option DispatchUnit
select [] = ([], none)
select (task ∷ rest) =
    (rest, some (record { model_name = model_name task; strategy = fifo; tasks = task ∷ [] }))

-- The task that is found has its cancellation flag set, and leaves the queue.
unfoldable pub revoke : String → FifoQueue → TaskCells → FifoQueue × TaskCells × Bool
revoke id [] cells = ([], cells, false)
revoke id (task ∷ rest) cells =
    let (rest', cells', found) = revoke id rest cells in
    if request_id task == id
    then (rest, set_cell task (record (cells task.address) { cancel_requested = true }) cells, true)
    else (task ∷ rest', cells', found)

unfoldable pub pending_task_count : FifoQueue → ℕ
pending_task_count q = length q

-- In milliseconds; 86400000 is 24 hours.
unfoldable pub next_ready_in : FifoQueue → ℕ
next_ready_in q = if is_empty q then 86400000 else 0

unfoldable pub clear : FifoQueue → FifoQueue
clear q = []
