-- ===== src/InferService/Results.antt =====
-- What a client reads of its operation after the scheduler has executed its task.
use gip.Prelude.{String, ◌≡◌, refl, ◌⊎◌, inl, inr, none, List, ◌∷◌, All, string_eq}
use gip.Prelude.Entries.{All-map}
use gip.Prelude.Dict.{lookup-erase_self}
use gip.Models.{
  Task, DispatchUnit, OperationInfo, ScheduleStrategy, success, failure, canceled,
  operation_state_eq, request_id,
}
use gip.Json.{JsonLibrary, got}
use gip.Convertors.{response_to_json}
use gip.Operations.{get_operation, remove_operation}
use gip.Backends.{IBackend}
use gip.Scheduler.Cancellation.{Others}
use gip.Scheduler.State.{Scheduler}
use gip.Scheduler.Execution.{execute}
use gip.Scheduler.Execution.Conclusion.{Finished, IsFinal, Respects}
use gip.Scheduler.Execution.Completion.{
  Responds, HasSoundModels, KeepsModelsSound, execute-Completes,
}
use gip.InferService.{
  Answer, ok, conflict, bad_request, not_found, dumped, get_operation_result, get_operation_status,
  result_of, delete_operation, cancel_inference, dumped_operation,
}

-- A unit of a model and a strategy.
abbrev pub unit_with : String → ScheduleStrategy → List Task → DispatchUnit
unit_with name strategy tasks = record { model_name = name; strategy = strategy; tasks = tasks }

module _ {J O : Type 0} (json : JsonLibrary J O) where
  -- The answer for an operation that has ended: the response, or why there is none.
  abbrev pub EndAnswer : OperationInfo → Answer → Type 0
  EndAnswer op_info answer =
      ((op_info.state ≡ success)
        × (answer ≡ dumped json ok (json.of_object (response_to_json json op_info.response))))
      ⊎ ((op_info.state ≡ canceled) × (answer ≡ got (conflict, "inference was canceled")))
      ⊎ ((op_info.state ≡ failure)
          × (answer ≡ got (bad_request, "inference failed, no result available")))

  result_of-EndAnswer :
      (op_info : OperationInfo) → IsFinal op_info.state → EndAnswer op_info (result_of json op_info)
  unfolding result_of
  result_of-EndAnswer op_info (inl e) = inl (e, rw (e, result_of) refl)
  result_of-EndAnswer op_info (inr (inl e)) = inr (inr (e, rw (e, result_of) refl))
  result_of-EndAnswer op_info (inr (inr e)) = inr (inl (e, rw (e, result_of) refl))

  module _ {B : Type 0} where
    -- The operation is stored, and its result is the answer of an end.
    pub record IsSettled (id : String) (s : Scheduler B) : Type 0 where
      pub operation : OperationInfo
      pub status : get_operation_status json id s ≡ dumped_operation json ok operation
      pub result : EndAnswer operation (get_operation_result json id s)

    Finished-IsSettled : (id : String) (s : Scheduler B) → Finished id s → IsSettled id s
    unfolding get_operation_status get_operation_result
    Finished-IsSettled id s f = record {
      operation = f.operation;
      status = rw (f.stored, get_operation_status) refl;
      result = rw (f.stored, get_operation_result) (result_of-EndAnswer f.operation f.final);
    }

  module _ {B : Type 0} ⦃i : IBackend B⦄ (during : Scheduler B → Scheduler B) (r : Responds i) where
    -- With a backend whose `infer` throws no exception, and a sound registry that the other threads
    -- keep sound while they leave finished operations finished, a worker that executes a unit leaves,
    -- for every task of it, an operation for which the service answers its status, and for its
    -- result `ok` with the response if it has succeeded, `conflict` if it is canceled, and
    -- `bad_request` if it has failed: a client that polls is not told to wait any longer.
    pub execute-IsSettled :
        (unit : DispatchUnit) (s : Scheduler B)
        → HasSoundModels s
        → KeepsModelsSound during
        → Respects during
        → All (λ t. IsSettled (request_id t) (execute during unit s).0) unit.tasks
    execute-IsSettled unit s h k f =
        All-map (λ t fin. Finished-IsSettled (request_id t) _ fin) unit.tasks
          (execute-Completes during r unit s h k f).1

    -- Under the same conditions, an operation that is deleted while its task is the first of a unit
    -- that waits for a worker is not found and can no longer be canceled, but its task is executed
    -- all the same, and the operation is stored again, settled.
    pub delete_operation-IsUndone :
        (t : Task) (rest : List Task) (name : String) (strategy : ScheduleStrategy)
        (between : Others B) (later : Scheduler B → Scheduler B) (s : Scheduler B)
        → HasSoundModels s
        → KeepsModelsSound during
        → Respects during
        → let deleted = delete_operation (request_id t) s in
          (get_operation_status json (request_id t) deleted
            ≡ got (not_found, "Operation not found"))
          × (cancel_inference json between later (request_id t) deleted
              ≡ (deleted, got (not_found, "Operation not found")))
          × IsSettled (request_id t) (execute during (unit_with name strategy (t ∷ rest)) deleted).0
    unfolding delete_operation remove_operation get_operation_status cancel_inference get_operation
    delete_operation-IsUndone t rest name strategy between later s h k f =
        let deleted = delete_operation (request_id t) s in
        let gone : get_operation (request_id t) deleted.op_repository ≡ none =
          lookup-erase_self (request_id t) s.op_repository in
        (
          rw (gone, get_operation_status) refl,
          rw (gone, cancel_inference) refl,
          (execute-IsSettled (unit_with name strategy (t ∷ rest)) deleted h k f).0,
        )
