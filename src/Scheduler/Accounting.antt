-- ===== src/Scheduler/Accounting.antt =====
-- The per-model counters across admissions and results.
use gip.Prelude.{
  String, ◌+◌, ◌<◌, ◌≡◌, refl, ap, subst, ◌∙◌, Option, some, none, ◌⊎◌, inl, inr, u64, ◌==◌,
  string_eq, Bool-cases, eq_of_beq, if◌then◌else◌, arith,
}
use gip.Prelude.Dict.{Dict, get_or, insert, get_or-insert}
use gip.Models.{
  Task, OperationState, success, failure, canceled, ongoing, OperationInfo, ResponseInfo, done,
  request_id, model_name,
}
use gip.Operations.{get_operation}
use gip.Backends.{IBackend}
use gip.Scheduler.State.{
  Scheduler, PerModelStats, no_stats, forget_task, set_operation, finalize_canceled_task, cell_of,
}
use gip.Scheduler.Stats.{count_admitted, count_result, record_model_result}
use gip.Scheduler.Execution.{
  report_failure, fail_task, report_canceled, report_success, execute_task,
}
use gip.Scheduler.Execution.Endings.{
  Ending, ends_canceled, ends_failed, ends_reported, ends_succeeded, ends_throwing, ends_null,
  ends_deadlocked, Reached, at_start, before_infer, in_infer, past_infer, execute_task-Ends,
}
use gip.Scheduler.Execution.Completion.{Responds, HasSoundModels, execute_task_returns}
use gip.Scheduler.Execution.Conclusion.{IsFinal, closed, operation_of, get-set_operation_self}

-- Every admitted task has succeeded, failed, been canceled, or is counted as in flight.
abbrev pub IsBalanced : PerModelStats → Type 0
IsBalanced s =
    u64 s.total_admitted
    ≡ u64 (s.total_succeeded + s.total_failed + s.total_canceled + s.current_inflight)

count_admitted-IsBalanced : (s : PerModelStats) → IsBalanced s → IsBalanced (count_admitted s)
unfolding count_admitted
count_admitted-IsBalanced s h = omega arith

count_result-IsBalanced :
    (st : OperationState) (s : PerModelStats)
    → IsFinal st
    → 0 < s.current_inflight
    → IsBalanced s
    → IsBalanced (count_result st s)
unfolding count_result
count_result-IsBalanced success s f h b = ground arith
count_result-IsBalanced failure s f h b = ground arith
count_result-IsBalanced canceled s f h b = ground arith
count_result-IsBalanced st s f h b = ground arith

-- A result that is counted before the admission that it belongs to, with nothing else in flight,
-- leaves one task in flight that has ended; counted in the other order, none is left.
pub early_result :
    (st : OperationState) (s : PerModelStats)
    → s.current_inflight ≡ 0
    → ((count_admitted (count_result st s)).current_inflight ≡ 1)
      × ((count_result st (count_admitted s)).current_inflight ≡ 0)
unfolding count_result count_admitted
early_result st s e = ground arith

counted-insert :
    (k name : String) (st : OperationState) (m m' : Dict String PerModelStats)
    → m ≡ m'
    → get_or name no_stats (insert k (count_result st (get_or k no_stats m)) m)
      ≡ (if k == name then count_result st (get_or name no_stats m') else get_or name no_stats m')
counted-insert k name st m m' e = elim (Bool-cases (k == name)) [
  | inl same ↦ get_or-insert k name no_stats _ m ∙ rw (same, eq_of_beq k name same, e) refl
  | inr other ↦ get_or-insert k name no_stats _ m ∙ rw (other, e) refl
]

module _ {B : Type 0} where
  abbrev pub stats_of : String → Scheduler B → PerModelStats
  stats_of name s = get_or name no_stats s.model_stats

  -- The operation of `t` has a final state, and that state is counted once, for the model of `t`.
  pub record CountsOnce (t : Task) (s s' : Scheduler B) : Type 0 where
    pub operation : OperationInfo
    pub stored : get_operation (request_id t) s'.op_repository ≡ some operation
    pub final : IsFinal operation.state
    pub counted :
        (name : String)
        → stats_of name s' ≡ (
            if model_name t == name
            then count_result operation.state (stats_of name s)
            else stats_of name s)

  closed-CountsOnce :
      (t : Task) (st : OperationState) (r : ResponseInfo) (m : Option String) (b s : Scheduler B)
      → b.model_stats ≡ s.model_stats
      → IsFinal st
      → CountsOnce t s (closed t st r m st b)
  closed-CountsOnce t st r m b s e h = record {
    operation = operation_of (request_id t) st r m;
    stored =
        unfold record_model_result forget_task in get-set_operation_self (request_id t) st r m b;
    final = h;
    counted = λ name.
        unfold record_model_result forget_task set_operation in
        counted-insert (model_name t) name st b.model_stats s.model_stats e;
  }

  Ending-CountsOnce :
      (t : Task) (b s s' : Scheduler B)
      → b.model_stats ≡ s.model_stats
      → Ending t b (s', done tt)
      → CountsOnce t s s'
  unfolding report_canceled finalize_canceled_task fail_task report_failure report_success
  Ending-CountsOnce t b s s' h (ends_canceled message e) =
      rw (ap (λ p. p.0) e) (closed-CountsOnce t canceled _ _ _ s h (inr (inr refl)))
  Ending-CountsOnce t b s s' h (ends_failed message e) =
      rw (ap (λ p. p.0) e) (closed-CountsOnce t failure _ _ _ s h (inr (inl refl)))
  Ending-CountsOnce t b s s' h (ends_reported e) =
      rw (ap (λ p. p.0) e) (closed-CountsOnce t failure _ _ _ s h (inr (inl refl)))
  Ending-CountsOnce t b s s' h (ends_succeeded e) =
      rw (ap (λ p. p.0) e) (closed-CountsOnce t success _ _ _ s h (inl refl))
  Ending-CountsOnce t b s s' h (ends_throwing message e) = cc
  Ending-CountsOnce t b s s' h (ends_null e) = cc
  Ending-CountsOnce t b s s' h (ends_deadlocked e) = cc

  -- The state as the other threads leave it while the worker is inside `infer`.
  abbrev pub after_others : (Scheduler B → Scheduler B) → Task → Scheduler B → Scheduler B
  after_others during t s =
      during (set_operation (request_id t) ongoing (cell_of t s).response none s)

  -- The result is counted on top of the counters of the start, or of those that the other threads
  -- have left.
  pub record CountsOn (during : Scheduler B → Scheduler B) (t : Task) (s s' : Scheduler B)
      : Type 0 where
    pub base : Scheduler B
    pub is_base : (base ≡ s) ⊎ (base ≡ after_others during t s)
    pub counts : CountsOnce t base s'

  Reached-CountsOn :
      (during : Scheduler B → Scheduler B) (t : Task) (s b s' : Scheduler B)
      → Reached during t s b
      → Ending t b (s', done tt)
      → CountsOn during t s s'
  unfolding set_operation
  Reached-CountsOn during t s b s' reached ending = on_base reached
    where
      from_base :
          (base : Scheduler B)
          → (base ≡ s) ⊎ (base ≡ after_others during t s)
          → b.model_stats ≡ base.model_stats
          → CountsOn during t s s'
      from_base base is e = record {
        base = base;
        is_base = is;
        counts = Ending-CountsOnce t b base s' e ending;
      }

      on_base : Reached during t s b → CountsOn during t s s'
      on_base (at_start e) = from_base s (inl refl) (ap (λ (x : Scheduler B). x.model_stats) e)
      on_base (before_infer e) = from_base s (inl refl) (ap (λ (x : Scheduler B). x.model_stats) e)
      on_base (in_infer e) =
          from_base (after_others during t s) (inr refl) (ap (λ (x : Scheduler B). x.model_stats) e)
      on_base (past_infer c e) =
          from_base (after_others during t s) (inr refl) (ap (λ (x : Scheduler B). x.model_stats) e)

-- With a sound registry and a backend whose `infer` throws no exception, whatever other threads do
-- while the worker is inside `infer`: a round on a task returns, leaves the operation of the task in
-- a final state, and counts exactly that state for the model of the task, on top of the counters as
-- they were at its start or as the other threads have left them; the counters of every other model
-- are as they were there.
pub execute_task-CountsOn :
    {B : Type 0} ⦃i : IBackend B⦄
    → Responds i
    → (during : Scheduler B → Scheduler B) (t : Task) (s : Scheduler B) → HasSoundModels s
    → ((execute_task during t s).1 ≡ done tt) × CountsOn during t s (execute_task during t s).0
execute_task-CountsOn r during t s h =
    let (b, reached, ending) = execute_task-Ends during t s in
    let returned = execute_task_returns during r t s h in
    (
      returned,
      Reached-CountsOn during t s b (execute_task during t s).0 reached
          (subst (λ o. Ending t b ((execute_task during t s).0, o)) returned ending),
    )
