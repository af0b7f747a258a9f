-- ===== src/Platform/Models.antt =====
-- What submissions and cancellations leave of the registry of models.
use gip.Prelude.{
  ℕ, String, ◌≡◌, refl, inl, inr, Bool, true, false, ◌||◌, Option, none, some, ◌==◌, string_eq,
  Bool-cases, Option-cases, if◌then◌else◌,
}
use gip.Models.{
  RequestInfo, Task, ScheduleStrategy, OperationInfo, operation_state_eq, model_state_eq, enabled,
  canceled, success, failure,
}
use gip.Json.{JsonLibrary}
use gip.Operations.{get_operation}
use gip.Policy.{SchedulingContext}
use gip.Strategy
use gip.Strategy.{Strategy}
use gip.ModelManager.{resolve_model}
use gip.Scheduler.State.{
  Scheduler, tracked_task, track_task, forget_task, set_operation, finalize_canceled_task,
}
use gip.Scheduler.Stats.{admit_model_stat}
use gip.Scheduler.Admission.{
  admit, route, drop_task, enter_strategy, choose_strategy, submit_task, must_drop,
}
use gip.Scheduler.Cancellation.{
  Gap, Others, before_call, before_lookup, before_flag, before_search, after_hit, after_miss,
  cancel_task, cancel_tracked, revoke_all,
}
use gip.Scheduler.Cancellation.Verdict.{sought}
use gip.Scheduler.Execution.Completion.{HasSoundModels, KeepsModelsSound}
use gip.InferService.{after_submit, submit_inference_request, after_cancel, cancel_inference}

module _ {B : Type 0} where
  -- The manager of the models is not touched.
  abbrev SameModels : Scheduler B → Scheduler B → Type 0
  SameModels s s' = s'.model_manager ≡ s.model_manager

  drop_task-SameModels : (t : Task) (s : Scheduler B) → SameModels s (drop_task t s)
  unfolding drop_task set_operation
  drop_task-SameModels t s = refl

  enter_strategy-SameModels :
      (t : Task) (context : SchedulingContext) (key : ScheduleStrategy) (strat : Strategy)
      (s : Scheduler B)
      → SameModels s (enter_strategy t context key strat s).0
  unfolding enter_strategy track_task forget_task admit_model_stat
  enter_strategy-SameModels t context key strat s =
      elim (Bool-cases (Strategy.admit (some t) context strat).1) [
        | inl e ↦ simp e
        | inr e ↦ simp e
      ]

  route-SameModels :
      (t : Task) (context : SchedulingContext) (found : Option (ScheduleStrategy × Strategy))
      (s : Scheduler B)
      → SameModels s (route t context found s).0
  unfolding route
  route-SameModels t context none s = refl
  route-SameModels t context (some (key, strat)) s = elim (Bool-cases (must_drop context strat)) [
    | inl full ↦ simp full (drop_task-SameModels t s)
    | inr room ↦ simp room (enter_strategy-SameModels t context key strat s)
  ]

  admit-SameModels : (now : ℕ) (t : Task) (s : Scheduler B) → SameModels s (admit now (some t) s).0
  unfolding admit choose_strategy
  admit-SameModels now t s = elim (Bool-cases s.stop_requested) [
    | inl e ↦ simp e
    | inr e ↦ simp e (route-SameModels t _ _ _)
  ]

  cancel_tracked_sound :
      (between : Others B) (id : String) (t : Task) (s : Scheduler B)
      → ((gap : Gap) → KeepsModelsSound (between gap))
      → HasSoundModels s
      → HasSoundModels (cancel_tracked between id t s).0
  unfolding cancel_tracked finalize_canceled_task forget_task set_operation
  cancel_tracked_sound between id t s keeps h =
      let start = sought between t s in
      let begun = keeps before_search _ (keeps before_flag s h) in
      elim (Bool-cases (revoke_all id start.strategies start.cells).2) [
        | inl e ↦ rw (e, cancel_tracked) (keeps after_hit _ begun)
        | inr e ↦ rw (e, cancel_tracked) (keeps after_miss _ begun)
      ]

  -- What holds of both branches holds of the choice.
  either {ℓ} :
      {A : Type ℓ} (b : Bool) (x y : Scheduler B × A)
      → HasSoundModels x.0
      → HasSoundModels y.0
      → HasSoundModels (if b then x else y).0
  either true x y h k = h
  either false x y h k = k

  cancel_task_sound :
      (between : Others B) (id : String) (s : Scheduler B)
      → ((gap : Gap) → KeepsModelsSound (between gap))
      → HasSoundModels s
      → HasSoundModels (cancel_task between id s).0
  unfolding cancel_task
  cancel_task_sound between id s keeps h = elim (Option-cases (get_operation id s.op_repository)) [
    | inl e ↦ rw (e, cancel_task) h
    | inr (op_info, e) ↦ elim (Option-cases (tracked_task id (between before_lookup s))) [
      | inl f ↦
          rw (e, cancel_task)
            (rw f (
              either (op_info.state == canceled) _ _ h (
                either (op_info.state == success || op_info.state == failure) _ _ h
                  (keeps before_lookup s h))))
      | inr (t, f) ↦
          rw (e, cancel_task)
            (rw f (
              either (op_info.state == canceled) _ _ h (
                either (op_info.state == success || op_info.state == failure) _ _ h
                  (cancel_tracked_sound between id t _ keeps (keeps before_lookup s h)))))
    ]
  ]

module _ {J O B : Type 0} (json : JsonLibrary J O) where
  after_submit_sound :
      (op_info : OperationInfo) (q : Scheduler B × Bool)
      → HasSoundModels q.0
      → HasSoundModels (after_submit json op_info q).0
  unfolding after_submit
  after_submit_sound op_info (s, true) h = h
  after_submit_sound op_info (s, false) h = h

  pub submit_inference_request_sound :
      (ticks : String) (address built now : ℕ) (request_info : RequestInfo) (s : Scheduler B)
      → HasSoundModels s
      → HasSoundModels (submit_inference_request json ticks address built now request_info s).0
  unfolding submit_inference_request submit_task
  submit_inference_request_sound ticks address built now request_info s h =
      elim (Option-cases (resolve_model request_info.model_name s.model_manager).conf) [
        | inl e ↦ rw (e, submit_inference_request) h
        | inr (conf, e) ↦
            rw (e, submit_inference_request)
              (either ((resolve_model request_info.model_name s.model_manager).state == enabled) _ _
                (after_submit_sound _ _ (rw (admit-SameModels now _ _) h)) h)
      ]

  after_cancel_sound :
      (id : String) (q : Scheduler B × Bool)
      → HasSoundModels q.0
      → HasSoundModels (after_cancel json id q).0
  unfolding after_cancel
  after_cancel_sound id (s, false) h = h
  after_cancel_sound id (s, true) h = elim (Option-cases (get_operation id s.op_repository)) [
    | inl e ↦ rw (e, after_cancel) h
    | inr (op_info, e) ↦ rw (e, after_cancel) h
  ]

  pub cancel_inference_sound :
      (between : Others B) (later : Scheduler B → Scheduler B) (id : String) (s : Scheduler B)
      → ((gap : Gap) → KeepsModelsSound (between gap))
      → KeepsModelsSound later
      → HasSoundModels s
      → HasSoundModels (cancel_inference json between later id s).0
  unfolding cancel_inference
  cancel_inference_sound between later id s keeps keeps_later h =
      elim (Option-cases (get_operation id s.op_repository)) [
        | inl e ↦ rw (e, cancel_inference) h
        | inr (op_info, e) ↦
            rw (e, cancel_inference)
              (either (op_info.state == canceled) _ _ h (
                either (op_info.state == success || op_info.state == failure) _ _ h (
                  after_cancel_sound id
                    (
                      later (cancel_task between id (between before_call s)).0,
                      (cancel_task between id (between before_call s)).1,
                    )
                    (keeps_later _ (
                      cancel_task_sound between id (between before_call s) keeps
                        (keeps before_call s h))))))
      ]
