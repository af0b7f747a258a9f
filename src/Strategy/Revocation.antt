-- ===== src/Strategy/Revocation.antt =====
-- What a cancellation takes out of the waiting sets of the strategies.
use gip.Prelude.{String, ◌≡◌, ◌⊎◌, inl, inr, Bool, true, false, List, arith}
use gip.Models.{Task, TaskCells, RemovesFirst, Absent}
use gip.Fifo
use gip.Fifo.Revocation
use gip.Batch
use gip.Batch.Revocation.{pending_tasks, revoke-RevokedFrom}
use gip.Strategy.{Strategy, strategy_fifo, strategy_batch, revoke}

-- The tasks that wait in a strategy.
unfoldable pub waiting : Strategy → List Task
waiting (strategy_fifo q) = q
waiting (strategy_batch queues) = pending_tasks queues

-- The first waiting task with the request id was taken out; or there is none, and nothing changed.
abbrev pub RevokedIn : String → Strategy → TaskCells → Strategy × TaskCells × Bool → Type 0
RevokedIn id strat cells r =
    ((t : Task) × (r.2 ≡ true) × RemovesFirst id (waiting strat) (waiting r.0) t)
    ⊎ (Absent id (waiting strat) × (r ≡ (strat, cells, false)))

from_fifo :
    (id : String) (q : List Task) (cells : TaskCells)
    → Fifo.Revocation.Revoked id q cells (Fifo.revoke id q cells)
    → RevokedIn id (strategy_fifo q) cells (revoke id (strategy_fifo q) cells)
unfolding revoke waiting
from_fifo id q cells (inl (t, hit, removed, flagged)) = inl (t, hit, removed)
from_fifo id q cells (inr (absent, same)) = inr (absent, ground arith)

from_batch :
    (id : String) (queues : Batch.Windows) (cells : TaskCells)
    → Batch.Revocation.RevokedFrom id queues (Batch.revoke id queues)
    → RevokedIn id (strategy_batch queues) cells (revoke id (strategy_batch queues) cells)
unfolding revoke waiting
from_batch id queues cells (inl (t, hit, removed)) = inl (t, hit, removed)
from_batch id queues cells (inr (absent, same)) = inr (absent, ground arith)

pub revoke-RevokedIn :
    (id : String) (strat : Strategy) (cells : TaskCells)
    → RevokedIn id strat cells (revoke id strat cells)
revoke-RevokedIn id (strategy_fifo q) cells =
    from_fifo id q cells (Fifo.Revocation.revoke-Revoked id q cells)
revoke-RevokedIn id (strategy_batch queues) cells =
    from_batch id queues cells (revoke-RevokedFrom id queues)
