-- ===== src/Platform/Places.antt =====
-- Submissions and cancellations leave every tracked task in its place.
use gip.Prelude.{
  ◌≡◌, Bool-cases, none, some, refl, inl, inr, sym, subst, List, ℕ, String, Bool, true, false, ◌||◌,
  ◌==◌, string_eq, Option-cases,
}
use gip.Models.{RequestInfo, Task, operation_state_eq, canceled, success, failure}
use gip.Json.{JsonLibrary}
use gip.Prelude.Dict.{lookup, lookup-erase}
use gip.Operations.{get_operation, remove_operation}
use gip.InferService.{generate_operation_id}
use gip.InferService.Preparation.{task_for, refused}
use gip.Scheduler.State.{Scheduler, tracked_task}
use gip.Scheduler.Cancellation.{Others, before_call, cancel_task}
use gip.Scheduler.Execution.Completion.{HasSoundModels}
use gip.Scheduler.Places.Operations.{Owes}
use gip.Scheduler.Places.Fit.{IsFit}
use gip.Scheduler.Places.Arrivals.{Admitted-IsFit, Refused-IsFit}
use gip.Scheduler.Places.Cancellation.{OthersKeepFit, cancel_task-IsFit, either}
use gip.InferService.{Answer, after_cancel, cancel_inference, delete_operation}
use gip.InferService.Submission.{SubmitResult, submit_inference_request-Result}
use gip.Platform.Models.{submit_inference_request_sound}
use gip.Platform.Commands.{IsKept, KeepsTrue}

module _ {J O B : Type 0} (json : JsonLibrary J O) (taken : List Task) where
  SubmitResult-IsFit :
      (ticks : String) (address built now : ℕ) (request_info : RequestInfo) (s : Scheduler B)
      (r : Scheduler B × Answer)
      → HasSoundModels r.0
      → IsFit taken s
      → SubmitResult json ticks address built now request_info s r
      → IsFit taken r.0
  unfolding get_operation
  SubmitResult-IsFit ticks address built now request_info s r sound h (inl (e, same)) =
      subst (λ q. IsFit taken q.0) (sym same) h
  SubmitResult-IsFit ticks address built now request_info s r sound h (inr (inl (e, same))) =
      subst (λ q. IsFit taken q.0) (sym same) h
  SubmitResult-IsFit ticks address built now request_info s r sound h (inr (inr (inl (on, a)))) =
      let id = generate_operation_id ticks in
      Admitted-IsFit taken s r.0 (task_for id address built request_info) a.admitted sound a.others
        h
  SubmitResult-IsFit ticks address built now request_info s r sound h (inr (inr (inr (on, a)))) =
      let id = generate_operation_id ticks in
      Refused-IsFit taken s r.0 id (refused id) a.unchanged sound a.operation refl a.others h

  after_cancel-IsFit :
      (id : String) (q : Scheduler B × Bool)
      → IsFit taken q.0
      → IsFit taken (after_cancel json id q).0
  unfolding after_cancel
  after_cancel-IsFit id (s, false) h = h
  after_cancel-IsFit id (s, true) h = elim (Option-cases (get_operation id s.op_repository)) [
    | inl e ↦ rw (e, after_cancel) h
    | inr (op_info, e) ↦ rw (e, after_cancel) h
  ]

  module _ (between : Others B) (later : Scheduler B → Scheduler B) (id : String)
      (b : OthersKeepFit between) (l : KeepsTrue (IsFit taken) later) where
    cancel_inference-IsFit :
        (s : Scheduler B) → IsFit taken s → IsFit taken (cancel_inference json between later id s).0
    unfolding cancel_inference
    cancel_inference-IsFit s h =
        let choose = either taken between b id in
        elim (Option-cases (get_operation id s.op_repository)) [
          | inl e ↦ rw (e, cancel_inference) h
          | inr (op_info, e) ↦
              rw (e, cancel_inference)
                (choose (op_info.state == canceled) _ _ h (
                  choose (op_info.state == success || op_info.state == failure) _ _ h (
                    after_cancel-IsFit id
                      (
                        later (cancel_task between id (between before_call s)).0,
                        (cancel_task between id (between before_call s)).1,
                      )
                      (l _ (
                        cancel_task-IsFit taken between b id (between before_call s)
                          (b before_call taken s h))))))
        ]

  deleted-Owes : (id : String) (s : Scheduler B) → Owes taken s → Owes taken (delete_operation id s)
  unfolding delete_operation remove_operation get_operation
  deleted-Owes id s h j op_info e is = elim (Bool-cases (id == j)) [
    | inl same ↦
        let gone : none ≡ some op_info = rw (lookup-erase id j s.op_repository, same) at e in cc
    | inr other ↦
        let kept : lookup j s.op_repository ≡ some op_info =
          rw (lookup-erase id j s.op_repository, other) at e in
        h j op_info kept is
  ]

  pub IsFit-IsKept : IsKept {B = B} json (IsFit taken) OthersKeepFit
  unfolding delete_operation remove_operation get_operation tracked_task
  IsFit-IsKept = record {
    sound = λ s h. h.0;
    managed = λ m s sound h. (sound, h.1, h.2);
    deleted = λ id s h. (h.0, h.1, deleted-Owes id s h.2);
    submitted = λ at request_info s h.
        SubmitResult-IsFit at.ticks at.address at.built at.now request_info s _
          (submit_inference_request_sound json at.ticks at.address at.built at.now request_info s
            h.0)
          h
          (submit_inference_request-Result json at.ticks at.address at.built at.now request_info s);
    canceled = λ between later id s b l h. cancel_inference-IsFit between later id b l s h;
  }
