-- ===== src/Strategy/Conservation.antt =====
-- What `admit` and `select` of a strategy do to the tasks that wait in it.
use mathlib.Core.List.Perm
use mathlib.Core.List.{Perm, perm_append_singleton}
use gip.Prelude.{ℕ, [], ◌∷◌, ◌++◌, some}
use gip.Models.{Task}
use gip.Policy.{SchedulingContext}
use gip.Fifo
use gip.Batch
use gip.Batch.Conservation.{unit_tasks}
use gip.Batch.Conservation
use gip.Strategy.{Strategy, strategy_fifo, strategy_batch, admit, select}
use gip.Strategy.Revocation.{waiting}

-- One task more waits, the one admitted.
pub admit-perm :
    (t : Task) (context : SchedulingContext) (strat : Strategy)
    → Perm (waiting (admit (some t) context strat).0) (t ∷ waiting strat)
unfolding admit waiting Fifo.admit
admit-perm t context (strategy_fifo q) = perm_append_singleton t q
admit-perm t context (strategy_batch queues) = Batch.Conservation.admit-perm t context queues

-- What waited is afterwards in the unit, or still waits.
pub select-perm :
    (now : ℕ) (strat : Strategy)
    → Perm (waiting strat) (unit_tasks (select now strat).1 ++ waiting (select now strat).0)
unfolding select waiting Fifo.select
select-perm now (strategy_fifo []) = Perm.rfl
select-perm now (strategy_fifo (t ∷ ts)) = Perm.rfl
select-perm now (strategy_batch queues) = Batch.Conservation.select-perm now queues
