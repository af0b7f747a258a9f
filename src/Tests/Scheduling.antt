-- ===== src/Tests/Scheduling.antt =====
-- The scheduler and the repository of operations.
use gip.Prelude.{
  ℕ, String, ◌≡◌, refl, inl, inr, true, none, some, [], ◌∷◌, All, string_eq, arith, subst, ◌==◌,
  Bool-cases, eq_of_beq,
}
use gip.Prelude.Dict.{lookup, insert, erase}
use gip.Models.{
  empty_response, DispatchUnit, fifo, max_throughput, self_deadlock, enabled, loaded, onnx_runtime,
  ModelState, success, ongoing, done, request_id, model_state_eq,
}
use gip.Operations.Updates.{UpdateResult, updater_update-UpdateResult}
use gip.Operations.{OpRepository, get_operation, update_operation}
use gip.Backends.{backend_type_from_string}
use gip.Backends.Onnx.{OnnxBackend, onnx_backend}
use gip.ModelManager.Invariants.{Usable}
use gip.ModelManager.Soundness.{IsSound, SoundRegistry, apply-IsSound}
use gip.ModelManager.{enable_model}
use gip.ModelManager.Lifecycle.{apply, enable}
use gip.Batch.Revocation.{pending_tasks}
use gip.Strategy.Revocation.{waiting}
use gip.Scheduler.State.{Scheduler, new_scheduler, tracked_task, forget_task, set_operation}
use gip.Scheduler.Admission
use gip.Scheduler.Cancellation.{Others, after_miss, set_flag, cancel_task}
use gip.Scheduler.Cancellation.Search.{all_waiting}
use gip.Scheduler.Cancellation.Verdict.{IsKeyed, IsState, CancelResult, cancel_task-Result}
use gip.Scheduler.Cancellation.Race.{IsStranded, cancel_task-IsStranded}
use gip.Scheduler.Execution.{execute, execute_task}
use gip.Scheduler.Execution.Conclusion.{Finished}
use gip.Scheduler.Execution.Completion.{Responds, HasSoundModels, execute-Completes}
use gip.Scheduler.Accounting.{CountsOn, execute_task-CountsOn}
use gip.Strategy.{strategy_fifo, strategy_batch}
use gip.Scheduler.Dispatch.{dispatch_round, refuse_tasks}
use gip.Scheduler.Dispatch.{dispatch_wait}
use gip.Scheduler.Dispatch.Sleep.{dispatch_wait_sleeps}
use gip.Scheduler.Dispatch.Lock.{dispatch_round_deadlocks}
use gip.Scheduler.Dispatch.Refusal.{refuse_tasks-Finished}
use gip.Tests.Fixtures.{
  operation_in, echo_ort, conf_files, resnet_conf, resnet, sessions, manager, first_task,
  second_task, idle, busy,
}

abbrev unit_of_two : DispatchUnit
unit_of_two = record {
  model_name = "resnet";
  strategy = fifo;
  tasks = first_task ∷ second_task ∷ [];
}

pub always-Responds : Responds (onnx_backend {S = ℕ} ⦃ort = echo_ort⦄)
always-Responds request response backend = (_, refl)

lookup_one :
    {V : Type 0} (j k : String) (v w : V) → lookup k ((j, v) ∷ []) ≡ some w → (j ≡ k) × (v ≡ w)
unfolding lookup
lookup_one j k v w e = elim (Bool-cases (j == k)) [
  | inl hit ↦ (eq_of_beq j k hit, ground (arith, hit))
  | inr miss ↦ ground (arith, miss)
]

usable : (st : ModelState) → Usable (resnet st)
unfolding backend_type_from_string
usable st = (resnet_conf, onnx_runtime, refl, refl)

resnet_sound : (st : ModelState) → SoundRegistry (("resnet", resnet st) ∷ [])
resnet_sound st name meta e past =
    subst Usable (lookup_one "resnet" name (resnet st) meta e).1 (usable st)

pub idle_models : HasSoundModels idle
unfolding new_scheduler
idle_models = resnet_sound enabled

execute-Completes_example :
    ((execute (λ s. s) unit_of_two busy).1 ≡ done tt)
    × All
        (λ t. Finished (request_id t) (execute (λ s. s) unit_of_two busy).0)
        (first_task ∷ second_task ∷ [])
execute-Completes_example =
    execute-Completes (λ s. s) always-Responds unit_of_two busy idle_models (λ s h. h) (λ j s h. h)

pub busy-IsKeyed : IsKeyed busy
unfolding tracked_task lookup
busy-IsKeyed id t e =
    let (same_id, same) = lookup_one "a" id first_task t e in
    subst (λ u. request_id u ≡ id) same same_id

-- The other threads do nothing.
abbrev pub calm : Others (OnnxBackend ℕ)
calm gap s = s

cancel_task-Result_example : CancelResult calm "a" busy (cancel_task calm "a" busy)
cancel_task-Result_example = cancel_task-Result calm "a" busy busy-IsKeyed

-- What the worker does when the task has succeeded.
abbrev finish : Scheduler (OnnxBackend ℕ) → Scheduler (OnnxBackend ℕ)
finish s = forget_task "a" (set_operation "a" success (s.cells 1).response none s)

-- It does so after the search.
abbrev finish_late : Others (OnnxBackend ℕ)
finish_late after_miss s = finish s
finish_late gap s = s

busy_ongoing : IsState "a" ongoing busy
unfolding get_operation lookup
busy_ongoing = record { operation = _; stored = refl; state = refl }

finished : Finished "a" (finish (set_flag first_task busy))
unfolding forget_task tracked_task lookup erase set_operation get_operation update_operation insert
finished = record { operation = _; stored = refl; final = inl refl; released = refl }

cancel_task-IsStranded_example :
    ((cancel_task finish_late "a" busy).1 ≡ true)
    × IsStranded "a" (cancel_task finish_late "a" busy).0
unfolding tracked_task lookup all_waiting waiting pending_tasks new_scheduler
cancel_task-IsStranded_example =
    cancel_task-IsStranded finish_late "a" first_task busy busy_ongoing refl tt finished

-- A cancellation while the worker is inside `infer`.
abbrev canceling : Scheduler (OnnxBackend ℕ) → Scheduler (OnnxBackend ℕ)
canceling s = set_flag first_task s

execute_task-CountsOn_example :
    ((execute_task canceling first_task busy).1 ≡ done tt)
    × CountsOn canceling first_task busy (execute_task canceling first_task busy).0
execute_task-CountsOn_example =
    execute_task-CountsOn always-Responds canceling first_task busy idle_models

apply-IsSound_example : IsSound (manager enabled sessions)
unfolding apply enable_model lookup insert
apply-IsSound_example =
    apply-IsSound conf_files enable "resnet" (manager loaded sessions) (manager enabled sessions)
      true (resnet_sound loaded) refl

dispatch_round_deadlocks_example : dispatch_round true 0 idle ≡ self_deadlock
unfolding new_scheduler
dispatch_round_deadlocks_example =
    dispatch_round_deadlocks true 0 idle fifo (strategy_fifo [])
      ((max_throughput, strategy_batch []) ∷ []) refl refl refl

-- The first task waits.
abbrev one_waits : Scheduler (OnnxBackend ℕ)
one_waits = record busy { strategies = (fifo, strategy_fifo (first_task ∷ [])) ∷ [] }

refuse_tasks-Finished_example :
    All
      (λ t. Finished (request_id t) (refuse_tasks (first_task ∷ second_task ∷ []) busy))
      (first_task ∷ second_task ∷ [])
refuse_tasks-Finished_example = refuse_tasks-Finished (first_task ∷ second_task ∷ []) busy

abbrev one_operation : OpRepository
one_operation = ("a", operation_in "a" ongoing) ∷ []

-- Another thread removes the operation meanwhile.
updater_update-UpdateResult_example :
    UpdateResult (λ r. []) "a" success empty_response none (some one_operation)
updater_update-UpdateResult_example =
    updater_update-UpdateResult (λ r. []) "a" success empty_response none (some one_operation)

-- A notification after five milliseconds, when a task waits.
dispatch_wait_sleeps_example :
    dispatch_wait 0 ((0, idle) ∷ (5000000, one_waits) ∷ []) idle ≡ 86400000000000
unfolding new_scheduler
dispatch_wait_sleeps_example =
    dispatch_wait_sleeps 0 ((0, idle) ∷ (5000000, one_waits) ∷ []) idle refl (refl, (refl, tt))
