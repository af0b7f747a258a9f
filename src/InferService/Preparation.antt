-- ===== src/InferService/Preparation.antt =====
-- What a submission writes: the operation that is added first, and what `admit` does after that.
use gip.Prelude.{
  ℕ, String, ◌≡◌, refl, ◌≢◌, ◌∙◌, ◌⊎◌, inl, inr, Bool, false, Option, none, some, ◌==◌, string_eq,
  Bool-cases, beq_of_ne, if◌then◌else◌,
}
use gip.Prelude.Dict.{lookup-insert}
use gip.Models.{
  RequestInfo, Task, ScheduleStrategy, OperationInfo, failure, model_state_eq, request_id, new_cell,
}
use gip.Operations.{get_operation, add_operation}
use gip.Policy.{SchedulingContext}
use gip.Strategy
use gip.Strategy.{Strategy}
use gip.Scheduler.State.{
  Scheduler, put_cell, build_admission_context, runtime_snapshot, tracked_task, track_task,
  forget_task,
}
use gip.Scheduler.Stats.{admit_model_stat}
use gip.Scheduler.Execution.Conclusion.{get-set_operation}
use gip.Scheduler.Admission.{admit, route, drop_task, enter_strategy, choose_strategy, must_drop}
use gip.Scheduler.Admission.Acceptance.{Admitted, Refused, is_welcome}
use gip.InferService.{submitted}

-- The operation of a submission that the scheduler refuses.
abbrev pub refused : String → OperationInfo
refused id = record (submitted id) {
  state = failure;
  message = some "Failed to submit inference request";
}

-- The task that is made of a request, with the id of its operation.
abbrev pub task_for : String → ℕ → ℕ → RequestInfo → Task
task_for id address built request_info = record {
  address = address;
  request = record request_info { request_id = id };
  enqueued_at = built;
}

module _ {B : Type 0} where
  abbrev pub operation_in : String → Scheduler B → Option OperationInfo
  operation_in id s = get_operation id s.op_repository

  -- The operations but that of an id are as they were.
  abbrev pub KeepsOthers : String → Scheduler B → Scheduler B → Type 0
  KeepsOthers id s s' = (j : String) → id ≢ j → operation_in j s' ≡ operation_in j s

  -- Who is accepted leaves the operations alone, and who is refused all but its own.
  abbrev pub WritesOwn : Task → Scheduler B → Scheduler B × Bool → Type 0
  WritesOwn t s r =
      (r.0.op_repository ≡ s.op_repository) ⊎ ((r.1 ≡ false) × KeepsOthers (request_id t) s r.0)

  drop_task-KeepsOthers :
      (t : Task) (s : Scheduler B) → KeepsOthers (request_id t) s (drop_task t s)
  unfolding drop_task
  drop_task-KeepsOthers t s j h =
      rw (get-set_operation (request_id t) j failure _ _ _, beq_of_ne (request_id t) j h) refl

  enter_strategy-operations :
      (t : Task) (context : SchedulingContext) (key : ScheduleStrategy) (strat : Strategy)
      (s : Scheduler B)
      → (enter_strategy t context key strat s).0.op_repository ≡ s.op_repository
  unfolding enter_strategy track_task forget_task admit_model_stat
  enter_strategy-operations t context key strat s =
      elim (Bool-cases (Strategy.admit (some t) context strat).1) [
        | inl e ↦ simp e
        | inr e ↦ simp e
      ]

  route-WritesOwn :
      (t : Task) (context : SchedulingContext) (found : Option (ScheduleStrategy × Strategy))
      (s : Scheduler B)
      → WritesOwn t s (route t context found s)
  unfolding route
  route-WritesOwn t context none s = inl refl
  route-WritesOwn t context (some (key, strat)) s = elim (Bool-cases (must_drop context strat)) [
    | inl full ↦ simp full (inr (refl, drop_task-KeepsOthers t s))
    | inr room ↦ simp room (inl (enter_strategy-operations t context key strat s))
  ]

  pub admit-WritesOwn :
      (now : ℕ) (t : Task) (s : Scheduler B) → WritesOwn t s (admit now (some t) s)
  unfolding admit choose_strategy
  admit-WritesOwn now t s = elim (Bool-cases s.stop_requested) [
    | inl e ↦ simp e (inl refl)
    | inr e ↦ simp e (route-WritesOwn t _ _ _)
  ]

  -- The scheduler after the operation of a submission is added, and its task is made.
  abbrev pub prepared : String → Task → Scheduler B → Scheduler B
  prepared id t s =
      put_cell t new_cell
        (record s { op_repository = add_operation (submitted id) s.op_repository })

  pub prepared-operations :
      (id j : String) (t : Task) (s : Scheduler B)
      → operation_in j (prepared id t s)
        ≡ (if id == j then some (submitted id) else operation_in j s)
  unfolding get_operation add_operation
  prepared-operations id j t s = lookup-insert id j (submitted id) s.op_repository

  pub prepared-Admitted :
      (id : String) (t : Task) (s s' : Scheduler B)
      → Admitted t (prepared id t s) s'
      → Admitted t s s'
  unfolding tracked_task
  prepared-Admitted id t s s' a = record {
    waits = a.waits;
    jobs = a.jobs;
    tracked = a.tracked;
    others = a.others;
    counted = a.counted;
  }

  pub prepared-Refused :
      (id : String) (t : Task) (s s' : Scheduler B) → Refused (prepared id t s) s' → Refused s s'
  prepared-Refused id t s s' a = record {
    waits = a.waits;
    jobs = a.jobs;
    tracked = a.tracked;
    counted = a.counted;
  }

  pub prepared-is_welcome :
      (now : ℕ) (id : String) (t : Task) (s : Scheduler B)
      → is_welcome now t (prepared id t s) ≡ is_welcome now t s
  unfolding build_admission_context runtime_snapshot
  prepared-is_welcome now id t s = refl

  pub others_of :
      (id : String) (t : Task) (s : Scheduler B) (q : Scheduler B × Bool)
      → request_id t ≡ id
      → WritesOwn t (prepared id t s) q
      → KeepsOthers id s q.0
  others_of id t s q same (inl e) j h =
      rw e (prepared-operations id j t s ∙ rw (beq_of_ne id j h) refl)
  others_of id t s q same (inr (declined, keeps)) j h =
      keeps j (rw same h) ∙ prepared-operations id j t s ∙ rw (beq_of_ne id j h) refl
