-- ===== src/Strategy/Laws.antt =====
-- What every strategy promises to the scheduler.
use gip.Prelude.{ℕ, ◌+◌, ◌≡◌, refl, some, true, [], ◌∷◌, length-append, arith}
use gip.Models.{Task, schedule_strategy_eq}
use gip.Policy.{SchedulingContext}
use gip.Fifo
use gip.Batch
use gip.Batch.Counts.{pending-admit, pending-select, unit_size}
use gip.Strategy.{Strategy, strategy_fifo, strategy_batch, admit, select, pending_task_count}

-- A task is never refused, and is one more that waits.
pub admit-accepts :
    (t : Task) (context : SchedulingContext) (strat : Strategy)
    → ((admit (some t) context strat).1 ≡ true)
      × (pending_task_count (admit (some t) context strat).0 ≡ pending_task_count strat + 1)
unfolding admit pending_task_count
admit-accepts t context (strategy_fifo q) =
    unfold Fifo.admit Fifo.pending_task_count in (refl, omega (arith, length-append q (t ∷ [])))
admit-accepts t context (strategy_batch queues) =
    ((unfold Batch.admit in refl), pending-admit t context queues)

-- The tasks of a unit are no longer among those that wait, and no other leaves.
pub select-counts :
    (now : ℕ) (strat : Strategy)
    → pending_task_count (select now strat).0 + unit_size (select now strat).1
      ≡ pending_task_count strat
unfolding select pending_task_count
select-counts now (strategy_fifo []) = unfold Fifo.select Fifo.pending_task_count in omega arith
select-counts now (strategy_fifo (t ∷ q)) =
    unfold Fifo.select Fifo.pending_task_count in omega arith
select-counts now (strategy_batch queues) = pending-select now queues
