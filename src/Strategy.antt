-- ===== src/Strategy.antt =====
-- `IStrategy` (include/scheduler/strategies/IStrategy.hpp): its two subclasses as a data type, and
-- the virtual methods by clauses. `now` is the clock that `StrategyBatch` reads.
pub mod Laws
pub mod Revocation
pub mod Conservation
use gip.Prelude.{ℕ, String, Bool, Option, List, []}
use gip.Prelude.Int.{ℤ, pos}
use gip.Models.{
  Task, TaskCells, DispatchUnit, ScheduleStrategy, fifo, max_throughput, BatchWindowState,
}
use gip.Policy.{SchedulingContext}
use gip.Fifo
use gip.Fifo.{FifoQueue}
use gip.Batch
use gip.Batch.{Windows}

pub data Strategy : Type 0 where
  strategy_fifo : FifoQueue → Strategy
  strategy_batch : Windows → Strategy

abbrev pub kind : Strategy → ScheduleStrategy
kind (strategy_fifo q) = fifo
kind (strategy_batch queues) = max_throughput

unfoldable pub admit : Option Task → SchedulingContext → Strategy → Strategy × Bool
admit task context (strategy_fifo q) =
    let (q', accepted) = Fifo.admit task q in (strategy_fifo q', accepted)
admit task context (strategy_batch queues) =
    let (queues', accepted) = Batch.admit task context queues in (strategy_batch queues', accepted)

unfoldable pub select : ℕ → Strategy → Strategy × Option DispatchUnit
select now (strategy_fifo q) = let (q', unit) = Fifo.select q in (strategy_fifo q', unit)
select now (strategy_batch queues) =
    let (queues', unit) = Batch.select now queues in (strategy_batch queues', unit)

unfoldable pub revoke : String → Strategy → TaskCells → Strategy × TaskCells × Bool
revoke id (strategy_fifo q) cells =
    let (q', cells', found) = Fifo.revoke id q cells in (strategy_fifo q', cells', found)
revoke id (strategy_batch queues) cells =
    let (queues', found) = Batch.revoke id queues in (strategy_batch queues', cells, found)

unfoldable pub pending_task_count : Strategy → ℕ
pending_task_count (strategy_fifo q) = Fifo.pending_task_count q
pending_task_count (strategy_batch queues) = Batch.pending_task_count queues

unfoldable pub next_ready_in : ℕ → Strategy → ℤ
next_ready_in now (strategy_fifo q) = pos (Fifo.next_ready_in q)
next_ready_in now (strategy_batch queues) = Batch.next_ready_in now queues

unfoldable pub batch_window_states : ℕ → Strategy → List BatchWindowState
batch_window_states now (strategy_fifo q) = []
batch_window_states now (strategy_batch queues) = Batch.batch_window_states now queues
