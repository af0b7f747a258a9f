-- ===== src/Scheduler/State.antt =====
-- The members of `Scheduler`, and its helpers on the table of tracked tasks, the strategies and the
-- operations. The objects that it shares with the service through pointers are parts of the state.
-- `strategies` stands for the map `strategies_` in its iteration order; no entry of it is null,
-- since `init` builds both. Each mutex makes a step of the function that locks it.
use gip.Prelude.{
  ℕ, String, ◌+◌, Bool, false, Option, none, some, List, [], ◌∷◌, leb, ◌==◌, string_eq,
  if◌then◌else◌,
}
use gip.Prelude.Dict.{Dict, lookup, insert, erase}
use gip.Models.{
  Task, TaskCells, TaskCell, DispatchUnit, new_cell, ScheduleStrategy, fifo, max_throughput,
  schedule_strategy_eq, OperationState, pending, canceled, OperationInfo, submit_inference,
  ResponseInfo, empty_response, ModelMeta, registered, RuntimeSnapshot, ModelStats,
  BatchWindowState, request_id, set_cell,
}
use gip.Operations.{OpRepository, get_operation, update_operation}
use gip.Policy.{PolicySelector, SchedulingContext, select_strategy}
use gip.ModelManager.{ModelManager, resolve_model}
use gip.Strategy
use gip.Strategy.{Strategy, strategy_fifo, strategy_batch}

pub record PerModelStats : Type 0 where
  pub total_admitted : ℕ
  pub total_succeeded : ℕ
  pub total_failed : ℕ
  pub total_canceled : ℕ
  pub current_inflight : ℕ

abbrev pub no_stats : PerModelStats
no_stats = record {
  total_admitted = 0;
  total_succeeded = 0;
  total_failed = 0;
  total_canceled = 0;
  current_inflight = 0;
}

-- `std::max<size_t>(1, n)`
abbrev pub at_least_one : ℕ → ℕ
at_least_one n = if leb 1 n then n else 1

-- `OperationInfo{}` and `ModelMeta{}`, whose enumerations are not set; each is overwritten, or not
-- read, wherever it is used.
abbrev pub blank_operation : OperationInfo
blank_operation = record {
  id = "";
  type = submit_inference;
  state = pending;
  message = none;
  response = empty_response;
}

abbrev pub default_meta : ModelMeta
default_meta = record { model_name = ""; conf = none; state = registered }

pub record Scheduler (B : Type 0) : Type 0 where
  pub model_manager : ModelManager B
  pub op_repository : OpRepository
  pub policy_selector : PolicySelector
  pub stop_requested : Bool
  pub inflight_task_count : ℕ
  pub worker_count : ℕ
  pub tracked_tasks : Dict String Task
  pub strategies : Dict ScheduleStrategy Strategy
  pub strategies_mutex : Bool  -- whether the thread that makes the step has it locked
  pub thread_pool : List DispatchUnit  -- the units of the jobs that no worker has taken yet
  pub model_stats : Dict String PerModelStats
  pub cells : TaskCells  -- the members of the live tasks that change

-- The constructor with no policy selector given, and `init`; `hardware` is
-- `hardware_concurrency()`.
unfoldable pub new_scheduler : {B : Type 0} → ModelManager B → OpRepository → ℕ → Scheduler B
new_scheduler models operations hardware = record {
  model_manager = models;
  op_repository = operations;
  policy_selector = select_strategy;
  stop_requested = false;
  inflight_task_count = 0;
  worker_count = at_least_one hardware;
  tracked_tasks = [];
  strategies = (fifo, strategy_fifo []) ∷ (max_throughput, strategy_batch []) ∷ [];
  strategies_mutex = false;
  thread_pool = [];
  model_stats = [];
  cells = λ address. new_cell;
}

-- The per-model part of `runtimeSnapshot`.
unfoldable pub snapshot_stats :
    Dict String PerModelStats → Dict String ModelStats → Dict String ModelStats
snapshot_stats [] acc = acc
snapshot_stats ((name, s) ∷ rest) acc = snapshot_stats rest (
    insert name
      (record {
        model_name = name;
        total_admitted = s.total_admitted;
        total_succeeded = s.total_succeeded;
        total_failed = s.total_failed;
        total_canceled = s.total_canceled;
        current_inflight = s.current_inflight;
      })
      acc)

abbrev pub add_windows :
    List BatchWindowState → Dict String BatchWindowState → Dict String BatchWindowState
add_windows [] acc = acc
add_windows (ws ∷ rest) acc = add_windows rest (insert ws.model_name ws acc)

unfoldable pub snapshot_windows :
    ℕ → Dict ScheduleStrategy Strategy → Dict String BatchWindowState → Dict String BatchWindowState
snapshot_windows now [] acc = acc
snapshot_windows now ((kind, strat) ∷ rest) acc =
    snapshot_windows now rest (add_windows (Strategy.batch_window_states now strat) acc)

unfoldable pub queued_task_count : Dict ScheduleStrategy Strategy → ℕ
queued_task_count [] = 0
queued_task_count ((kind, strat) ∷ rest) =
    Strategy.pending_task_count strat + queued_task_count rest

-- The strategy of a kind with the key that it is stored under, or else that of FIFO.
unfoldable pub find_strategy :
    ScheduleStrategy → Dict ScheduleStrategy Strategy → Option (ScheduleStrategy × Strategy)
find_strategy kind strategies = elim (lookup kind strategies) [
  | some strat ↦ some (kind, strat)
  | none ↦ elim (lookup fifo strategies) [ some strat ↦ some (fifo, strat) | none ↦ none ]
]

module _ {B : Type 0} where
  unfoldable pub runtime_snapshot : ℕ → Scheduler B → RuntimeSnapshot
  runtime_snapshot now s = record {
    worker_count = s.worker_count;
    inflight_task_count = s.inflight_task_count;
    queued_task_count = queued_task_count s.strategies;
    stop_requested = s.stop_requested;
    model_stats = snapshot_stats s.model_stats [];
    batch_windows = snapshot_windows now s.strategies [];
  }

  -- A context for no model has the default `ModelMeta{}`, whose pointer is null.
  unfoldable pub build_admission_context : ℕ → String → Scheduler B → SchedulingContext
  build_admission_context now name s = record {
    model_meta = if name == "" then default_meta else resolve_model name s.model_manager;
    runtime_snapshot = runtime_snapshot now s;
  }

  unfoldable pub track_task : Task → Scheduler B → Scheduler B
  track_task t s = record s { tracked_tasks = insert (request_id t) t s.tracked_tasks }

  unfoldable pub tracked_task : String → Scheduler B → Option Task
  tracked_task id s = lookup id s.tracked_tasks

  unfoldable pub forget_task : String → Scheduler B → Scheduler B
  forget_task id s = record s { tracked_tasks = erase id s.tracked_tasks }

  -- `Scheduler::updateOperation`
  unfoldable pub set_operation :
      String → OperationState → ResponseInfo → Option String → Scheduler B → Scheduler B
  unfolding get_operation update_operation
  set_operation id new_state response message s =
      let op_info : OperationInfo = elim (get_operation id s.op_repository) [
        | some existing ↦ existing
        | none ↦ blank_operation
      ] in
      record s {
        op_repository =
            update_operation id
              (record op_info {
                id = id;
                type = submit_inference;
                state = new_state;
                response = response;
                message = message;
              })
              s.op_repository;
      }

  abbrev pub cell_of : Task → Scheduler B → TaskCell
  cell_of t s = s.cells t.address

  abbrev pub put_cell : Task → TaskCell → Scheduler B → Scheduler B
  put_cell t c s = record s { cells = set_cell t c s.cells }

  -- `task->response.error_message = message`
  abbrev pub set_error : Task → String → Scheduler B → Scheduler B
  set_error t message s =
      put_cell t
        (record (cell_of t s) {
          response = record (cell_of t s).response { error_message = some message };
        })
        s

  unfoldable pub finalize_canceled_task : Task → Option String → Scheduler B → Scheduler B
  finalize_canceled_task t message s =
      let s' = set_error t "request canceled" s in
      forget_task (request_id t) (
        set_operation (request_id t) canceled (cell_of t s').response
          (elim message [ some m ↦ some m | none ↦ some "request canceled" ]) s')
