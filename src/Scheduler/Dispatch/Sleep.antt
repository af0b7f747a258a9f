-- ===== src/Scheduler/Dispatch/Sleep.antt =====
-- For how long the dispatcher sleeps, whatever is submitted meanwhile.
use gip.Prelude.{ℕ, ◌+◌, ◌≡◌, refl, ◌∙◌, false, List, [], ◌∷◌, All, arith}
use gip.Prelude.Int.{pos}
use gip.Fifo
use gip.Batch
use gip.Models.{fifo, max_throughput}
use gip.Strategy
use gip.Strategy.{strategy_fifo, strategy_batch}
use gip.Scheduler.State.{Scheduler}
use gip.Scheduler.Dispatch.{
  wakes, wait_for, dispatch_wait, compute_min_wait_duration, min_wait_from,
}

-- At no test of the predicate the scheduler is stopped; all else may have changed.
abbrev pub NeverStopped : {B : Type 0} → List (ℕ × Scheduler B) → Type 0
NeverStopped tests = All (λ test. test.1.stop_requested ≡ false) tests

wait_for_deadline :
    {B : Type 0} (deadline : ℕ) (tests : List (ℕ × Scheduler B))
    → NeverStopped tests
    → wait_for deadline tests ≡ deadline
unfolding wait_for wakes
wait_for_deadline deadline [] h = refl
wait_for_deadline deadline ((at, s) ∷ rest) (e, h) =
    let later : wait_for deadline rest ≡ deadline = wait_for_deadline deadline rest h in
    ground arith

-- A dispatcher that starts to wait with the two strategies of `init`, both still empty, sleeps for
-- 24 hours: however often the predicate is tested in that time, and whatever the scheduler has
-- become by then, tasks that wait included, as long as no stop has been requested.
pub dispatch_wait_sleeps :
    {B : Type 0} (now : ℕ) (tests : List (ℕ × Scheduler B)) (s : Scheduler B)
    → s.strategies ≡ (fifo, strategy_fifo []) ∷ (max_throughput, strategy_batch []) ∷ []
    → NeverStopped tests
    → dispatch_wait now tests s ≡ now + 86400000000000
unfolding dispatch_wait compute_min_wait_duration min_wait_from Fifo.next_ready_in
    Batch.next_ready_in Strategy.next_ready_in
dispatch_wait_sleeps now tests s empty h =
    let day : compute_min_wait_duration now s ≡ pos 86400000 =
      rw (empty, compute_min_wait_duration) refl in
    wait_for_deadline _ tests h ∙ rw day refl
