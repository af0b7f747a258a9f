-- ===== src/Batch.antt =====
-- `StrategyBatch` (include/scheduler/strategies/StrategyBatch.hpp,
-- src/scheduler/strategies/StratrgyBatch.cpp): one window of pending tasks for each model.
-- `now` is what `steady_clock::now()` returns, in nanoseconds. A task can be built after a caller
-- has read the clock, so an age may be negative; it is an integer of milliseconds, rounded towards
-- zero as `duration_cast` does. In the source `min_wait` has the type `std::chrono::hours`, which
-- `std::min` does not accept beside milliseconds; it is modelled as 24 hours in milliseconds.
pub mod Selection
pub mod History
pub mod Revocation
pub mod Conservation
pub mod Counts
pub mod Invariant
pub mod Deadline
use gip.Prelude.{
  ℕ, String, ◌+◌, ◌-◌, ◌/◌, Bool, true, false, ◌||◌, Option, none, some, List, [], ◌∷◌, ◌++◌,
  length, is_empty, leb, ltb, ◌==◌, string_eq, if◌then◌else◌, u64, u32_of,
}
use gip.Prelude.Int.{ℤ, pos, sub_ℕ, ◌-ℤ◌, leb_ℤ, min_ℤ}
use gip.Prelude.Dict.{Dict, get_or, insert}
use gip.Models.{
  Task, DispatchUnit, ModelConf, BatchWindowState, max_throughput, request_id, model_name,
}
use gip.Policy.{SchedulingContext}

pub record ModelQueue : Type 0 where
  pub tasks : List Task
  pub max_batch_size : ℕ
  pub batch_timeout_ms : ℕ
  pub total_admitted : ℕ
  pub total_dispatched : ℕ

-- `ModelQueue{}`
abbrev pub empty_queue : ModelQueue
empty_queue = record {
  tasks = [];
  max_batch_size = 1;
  batch_timeout_ms = 20;
  total_admitted = 0;
  total_dispatched = 0;
}

abbrev pub Windows : Type 0
Windows = Dict String ModelQueue

-- An empty window takes its limits from the configuration that comes with the next task.
open_window : Option ModelConf → ModelQueue → ModelQueue
open_window none q = q
open_window (some conf) q =
    if is_empty q.tasks
    then record q {
      max_batch_size = if ltb 0 conf.max_batch_size then conf.max_batch_size else 1;
      batch_timeout_ms = conf.batch_timeout_ms;
    }
    else q

unfoldable pub enqueue : SchedulingContext → Task → ModelQueue → ModelQueue
unfolding open_window
enqueue context task q =
    let opened = open_window context.model_meta.conf q in
    record opened {
      tasks = opened.tasks ++ task ∷ [];
      total_admitted = u64 (opened.total_admitted + 1);
    }

unfoldable pub admit : Option Task → SchedulingContext → Windows → Windows × Bool
admit none context queues = (queues, false)
admit (some task) context queues = (
  insert (model_name task) (enqueue context task (get_or (model_name task) empty_queue queues))
      queues,
  true,
)

-- `duration_cast<milliseconds>(now - t)`
unfoldable pub age_ms : ℕ → ℕ → ℤ
age_ms now t = if leb t now then pos ((now - t) / 1000000) else sub_ℕ 0 ((t - now) / 1000000)

abbrev size_ready : ModelQueue → Bool
size_ready q = leb q.max_batch_size (length q.tasks)

abbrev timeout_ready : ℕ → ModelQueue → Task → Bool
timeout_ready now q front = leb_ℤ (pos q.batch_timeout_ms) (age_ms now front.enqueued_at)

-- The window is not passed over by `select`.
unfoldable pub is_ready : ℕ → ModelQueue → Bool
unfolding age_ms
is_ready now q = elim q.tasks [
  | [] ↦ false
  | front ∷ rest ↦ size_ready q || timeout_ready now q front
]

-- The inner loop of `select`: `unit` is `unit.tasks`, the other list `q.tasks`.
unfoldable pub fill : ℕ → List Task → List Task → List Task × List Task
fill max_batch_size unit [] = (unit, [])
fill max_batch_size unit (t ∷ ts) =
    let more = fill max_batch_size (unit ++ t ∷ []) ts in
    if ltb (length unit) max_batch_size then more else (unit, t ∷ ts)

batch_unit : String → List Task → DispatchUnit
batch_unit name tasks = record { model_name = name; strategy = max_throughput; tasks = tasks }

unfoldable pub select : ℕ → Windows → Windows × Option DispatchUnit
unfolding is_ready fill batch_unit
select now [] = ([], none)
select now ((name, q) ∷ rest) =
    let (rest', unit) = select now rest in
    let (taken, left) = fill q.max_batch_size [] q.tasks in
    if is_ready now q
    then (if is_empty taken then ((name, record q { tasks = left }) ∷ rest', unit) else (
      (name, record q { tasks = left; total_dispatched = u64 (q.total_dispatched + length taken) })
          ∷ rest,
      some (batch_unit name taken),
    ))
    else ((name, q) ∷ rest', unit)

-- The inner loop of `revoke`, over one window.
unfoldable pub revoke_from : String → List Task → List Task × Bool
revoke_from id [] = ([], false)
revoke_from id (t ∷ ts) =
    let (ts', found) = revoke_from id ts in
    if request_id t == id then (ts, true) else (t ∷ ts', found)

unfoldable pub revoke : String → Windows → Windows × Bool
unfolding revoke_from
revoke id [] = ([], false)
revoke id ((name, q) ∷ rest) =
    let (tasks', here) = revoke_from id q.tasks in
    let (rest', there) = revoke id rest in
    if here then ((name, record q { tasks = tasks' }) ∷ rest, true) else ((name, q) ∷ rest', there)

unfoldable pub pending_task_count : Windows → ℕ
pending_task_count [] = 0
pending_task_count ((name, q) ∷ rest) = length q.tasks + pending_task_count rest

unfoldable pub clear : Windows → Windows
clear queues = []

-- The body of the loop in `nextReadyIn`: `none` is the early `return 0ms`.
unfoldable pub wait_step : ℕ → ModelQueue → ℤ → Option ℤ
unfolding age_ms ◌-ℤ◌
wait_step now q min_wait = elim q.tasks [
  | [] ↦ some min_wait
  | front ∷ rest ↦
      let remaining = pos q.batch_timeout_ms -ℤ age_ms now front.enqueued_at in
      if size_ready q
      then none
      else if leb_ℤ remaining (pos 0)
      then none
      else some (min_ℤ min_wait remaining)
]

unfoldable pub next_ready_from : ℕ → ℤ → Windows → ℤ
unfolding wait_step
next_ready_from now min_wait [] = min_wait
next_ready_from now min_wait ((name, q) ∷ rest) = elim (wait_step now q min_wait) [
  | none ↦ pos 0
  | some min_wait' ↦ next_ready_from now min_wait' rest
]

-- Line 96 declares the minimum in hours, which does not compile with the milliseconds of line 112; here
-- it is in milliseconds, as the result is.
unfoldable pub next_ready_in : ℕ → Windows → ℤ
unfolding next_ready_from
next_ready_in now queues = next_ready_from now (pos 86400000) queues

unfoldable pub batch_window_states : ℕ → Windows → List BatchWindowState
unfolding age_ms
batch_window_states now [] = []
batch_window_states now ((name, q) ∷ rest) =
    let states = batch_window_states now rest in
    elim q.tasks [
      | [] ↦ states
      | front ∷ behind ↦
          record {
            model_name = name;
            pending_count = length q.tasks;
            oldest_wait_ms = u32_of (age_ms now front.enqueued_at);
            max_batch_size = q.max_batch_size;
            batch_timeout_ms = q.batch_timeout_ms;
          }
          ∷ states
    ]
