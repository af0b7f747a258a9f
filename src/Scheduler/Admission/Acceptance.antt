-- ===== src/Scheduler/Admission/Acceptance.antt =====
-- What `admit` does to the scheduler, whether it accepts a task or refuses it.
use mathlib.Core.List.{Perm}
use gip.Prelude.{
  ℕ, String, ◌≡◌, refl, ◌∙◌, ◌≢◌, not, ◌&&◌, Option, none, some, Bool, true, false, ◌⊎◌, inl, inr,
  ◌==◌, if◌then◌else◌, string_eq, beq_of_ne, beq_of_eq, nat_eq, Bool-cases, ◌∷◌,
}
use gip.Prelude.Dict.{lookup, lookup-insert_self, lookup-insert, get_or-update, get_or}
use gip.Operations.{get_operation}
use gip.Scheduler.Execution.Conclusion.{operation_of, get-set_operation}
use gip.Models.{
  failure, ResponseInfo, Task, ScheduleStrategy, schedule_strategy_eq, request_id, model_name,
}
use gip.Policy.{SchedulingContext}
use gip.Strategy
use gip.Strategy.{Strategy}
use gip.Strategy.Laws.{admit-accepts}
use gip.Strategy.Conservation.{admit-perm}
use gip.Scheduler.Cancellation.Search.{all_waiting}
use gip.Scheduler.State.{
  Scheduler, no_stats, build_admission_context, find_strategy, track_task, tracked_task,
  set_operation, cell_of, set_error,
}
use gip.Scheduler.Stats.{count_admitted, admit_model_stat}
use gip.Scheduler.Admission.Entry.{
  find_strategy-lookup, waiting-insert, welcomes, welcomes-must_drop,
}
use gip.Scheduler.Admission.{must_drop, drop_task, enter_strategy, choose_strategy, route, admit}

module _ {B : Type 0} where
  -- The task waits in a strategy, is tracked and is counted; the other tasks that wait or are
  -- tracked are as before.
  pub record Admitted (t : Task) (s s' : Scheduler B) : Type 0 where
    pub waits : Perm (all_waiting s'.strategies) (t ∷ all_waiting s.strategies)
    pub jobs : s'.thread_pool ≡ s.thread_pool
    pub tracked : tracked_task (request_id t) s' ≡ some t
    pub others : (j : String) → request_id t ≢ j → tracked_task j s' ≡ tracked_task j s
    pub counted :
        (name : String)
        → get_or name no_stats s'.model_stats ≡ (
            if model_name t == name
            then count_admitted (get_or name no_stats s.model_stats)
            else get_or name no_stats s.model_stats)

  -- Nothing that waits, is tracked or is counted has changed.
  pub record Refused (s s' : Scheduler B) : Type 0 where
    pub waits : s'.strategies ≡ s.strategies
    pub jobs : s'.thread_pool ≡ s.thread_pool
    pub tracked : s'.tracked_tasks ≡ s.tracked_tasks
    pub counted : s'.model_stats ≡ s.model_stats

  -- The operation of a task that a full queue turns away has failed, with that reason; the other
  -- operations are as before.
  pub record Dropped (t : Task) (s s' : Scheduler B) : Type 0 where
    pub response : ResponseInfo
    pub reason : response.error_message ≡ some "scheduler queue is full"
    pub reads :
        (j : String)
        → get_operation j s'.op_repository ≡ (
            if request_id t == j
            then some (operation_of (request_id t) failure response response.error_message)
            else get_operation j s.op_repository)

  -- What becomes of the operations when a task is refused.
  abbrev pub Reports : Task → Scheduler B → Scheduler B → Type 0
  Reports t s s' = (s'.op_repository ≡ s.op_repository) ⊎ Dropped t s s'

  -- Accepted, where `welcome` is true, or refused.
  abbrev pub ResultOf : Bool → Task → Scheduler B → Scheduler B × Bool → Type 0
  ResultOf welcome t s r =
      ((welcome ≡ true) × (r.1 ≡ true) × (r.0.op_repository ≡ s.op_repository) × Admitted t s r.0)
      ⊎ ((welcome ≡ false) × (r.1 ≡ false) × Reports t s r.0 × Refused s r.0)

  -- The scheduler does not stop, and a strategy has room for the task.
  abbrev pub is_welcome : ℕ → Task → Scheduler B → Bool
  is_welcome now t s =
      let context = build_admission_context now (model_name t) s in
      not s.stop_requested
      && welcomes context (find_strategy (s.policy_selector context) s.strategies)

  enter_strategy-Admitted :
      (t : Task) (context : SchedulingContext) (key : ScheduleStrategy) (strat : Strategy)
      (s : Scheduler B)
      → lookup key s.strategies ≡ some strat
      → ((enter_strategy t context key strat s).1 ≡ true)
        × ((enter_strategy t context key strat s).0.op_repository ≡ s.op_repository)
        × Admitted t s (enter_strategy t context key strat s).0
  unfolding enter_strategy track_task admit_model_stat tracked_task
  enter_strategy-Admitted t context key strat s found =
      let accepted = (admit-accepts t context strat).0 in
      simp accepted (
        refl,
        refl,
        record {
          waits =
              waiting-insert key t strat (Strategy.admit (some t) context strat).0 s.strategies
                found (admit-perm t context strat);
          jobs = refl;
          tracked = lookup-insert_self (request_id t) t s.tracked_tasks;
          others = λ j h.
              lookup-insert (request_id t) j t s.tracked_tasks
              ∙ rw (beq_of_ne (request_id t) j h) refl;
          counted = λ name. get_or-update count_admitted (model_name t) name no_stats s.model_stats;
        },
      )

  drop_task-Refused : (t : Task) (s : Scheduler B) → Refused s (drop_task t s)
  unfolding drop_task set_operation
  drop_task-Refused t s = record { waits = refl; jobs = refl; tracked = refl; counted = refl }

  set_error-message :
      (t : Task) (message : String) (s : Scheduler B)
      → (cell_of t (set_error t message s)).response.error_message ≡ some message
  set_error-message t message s = rw (beq_of_eq t.address t.address refl) refl

  drop_task-Dropped : (t : Task) (s : Scheduler B) → Dropped t s (drop_task t s)
  unfolding drop_task
  drop_task-Dropped t s =
      let s' = set_error t "scheduler queue is full" s in
      record {
        response = (cell_of t s').response;
        reason = set_error-message t "scheduler queue is full" s;
        reads = λ j.
            get-set_operation (request_id t) j failure (cell_of t s').response
              (cell_of t s').response.error_message s';
      }

  route-cases :
      (t : Task) (context : SchedulingContext) (chosen : Option (ScheduleStrategy × Strategy))
      (s : Scheduler B)
      → ((key : ScheduleStrategy) (strat : Strategy)
          → chosen ≡ some (key, strat)
          → lookup key s.strategies ≡ some strat)
      → ResultOf (welcomes context chosen) t s (route t context chosen s)
  unfolding route
  route-cases t context none s found =
      inr
        (refl, refl, inl refl, record { waits = refl; jobs = refl; tracked = refl; counted = refl })
  route-cases t context (some (key, strat)) s found =
      rw (welcomes-must_drop context key strat) (elim (Bool-cases (must_drop context strat)) [
        | inl full ↦
            simp full (inr (refl, refl, inr (drop_task-Dropped t s), drop_task-Refused t s))
        | inr room ↦
            let (accepted, operations, admitted) =
              enter_strategy-Admitted t context key strat s (found key strat refl) in
            simp room (inl (refl, accepted, operations, admitted))
      ])

  chosen-Admitted :
      (t : Task) (context : SchedulingContext) (s s' : Scheduler B)
      → Admitted t (choose_strategy t context s) s'
      → Admitted t s s'
  unfolding choose_strategy tracked_task
  chosen-Admitted t context s s' a = record {
    waits = a.waits;
    jobs = a.jobs;
    tracked = a.tracked;
    others = a.others;
    counted = a.counted;
  }

  chosen-Refused :
      (t : Task) (context : SchedulingContext) (s s' : Scheduler B)
      → Refused (choose_strategy t context s) s'
      → Refused s s'
  unfolding choose_strategy
  chosen-Refused t context s s' a = record {
    waits = a.waits;
    jobs = a.jobs;
    tracked = a.tracked;
    counted = a.counted;
  }

  chosen-Result :
      (t : Task) (context : SchedulingContext) (welcome : Bool) (s : Scheduler B)
      (r : Scheduler B × Bool)
      → ResultOf welcome t (choose_strategy t context s) r
      → ResultOf welcome t s r
  unfolding choose_strategy get_operation
  chosen-Result t context welcome s r (inl (w, a, o, p)) =
      inl (w, a, o, chosen-Admitted t context s _ p)
  chosen-Result t context welcome s r (inr (w, a, inl o, p)) =
      inr (w, a, inl o, chosen-Refused t context s _ p)
  chosen-Result t context welcome s r (inr (w, a, inr o, p)) = inr (
    w,
    a,
    inr (record { response = o.response; reason = o.reason; reads = o.reads }),
    chosen-Refused t context s _ p,
  )

  routed : ℕ → Task → Scheduler B → Scheduler B × Bool
  routed now t s =
      let context = build_admission_context now (model_name t) s in
      route t context (find_strategy (s.policy_selector context) s.strategies)
        (choose_strategy t context s)

  routed-Result :
      (now : ℕ) (t : Task) (s : Scheduler B)
      → let context = build_admission_context now (model_name t) s in
        ResultOf
          (welcomes context (find_strategy (s.policy_selector context) s.strategies))
          t
          s
          (routed now t s)
  unfolding routed
  routed-Result now t s =
      let context = build_admission_context now (model_name t) s in
      let chosen = find_strategy (s.policy_selector context) s.strategies in
      chosen-Result t context (welcomes context chosen) s _ (
        route-cases t context chosen (choose_strategy t context s) (
          unfold choose_strategy in λ key strat e. find_strategy-lookup _ key strat s.strategies e))

  pub admit-Result :
      (now : ℕ) (t : Task) (s : Scheduler B)
      → ResultOf (is_welcome now t s) t s (admit now (some t) s)
  unfolding admit routed
  admit-Result now t s = elim (Bool-cases s.stop_requested) [
    | inl stopping ↦ simp stopping (
        inr (
          refl,
          refl,
          inl refl,
          record { waits = refl; jobs = refl; tracked = refl; counted = refl },
        ))
    | inr running ↦ simp running (routed-Result now t s)
  ]
