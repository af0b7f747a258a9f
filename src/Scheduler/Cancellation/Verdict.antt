-- ===== src/Scheduler/Cancellation/Verdict.antt =====
-- What `cancelTask` answers, and what it leaves behind.
use gip.Prelude.{
  String, ◌≡◌, refl, subst, ◌⊎◌, inl, inr, Bool, true, false, ◌||◌, Option, none, some, ◌==◌,
  if◌then◌else◌, Bool-cases, eq_of_beq, string_eq,
}
use gip.Prelude.Dict.{lookup-erase_self}
use gip.Models.{
  Task, OperationState, operation_state_eq, success, failure, canceled, cancel_requested,
  OperationInfo, ResponseInfo, request_id, RemovesFirst, Absent,
}
use gip.Operations.{get_operation}
use gip.Scheduler.State.{
  Scheduler, tracked_task, set_operation, forget_task, finalize_canceled_task,
}
use gip.Scheduler.Cancellation.{
  Others, before_lookup, before_flag, before_search, after_hit, revoke_all, set_flag,
  cancel_tracked, cancel_task,
}
use gip.Scheduler.Cancellation.Search.{all_waiting, RevokedSomewhere, revoke_all-RevokedSomewhere}
use gip.Scheduler.Execution.Conclusion.{get-set_operation_self, operation_of}

module _ {B : Type 0} where
  abbrev pub operation_at : String → Scheduler B → Option OperationInfo
  operation_at id s = get_operation id s.op_repository

  -- The state of the operation, where there is one.
  pub record IsState (id : String) (st : OperationState) (s : Scheduler B) : Type 0 where
    pub operation : OperationInfo
    pub stored : operation_at id s ≡ some operation
    pub state : operation.state ≡ st

  -- The state in which the strategies are locked.
  abbrev pub sought : Others B → Task → Scheduler B → Scheduler B
  sought between t s = between before_search (set_flag t (between before_flag s))

  -- The search leaves `hit`, without the first waiting task with the request id; the operation is
  -- canceled, and the task is no longer tracked; the strategies and the counters are those that the
  -- other threads have made of `hit`.
  pub record Withdrawn (between : Others B) (id : String) (s s' : Scheduler B) : Type 0 where
    pub task : Task
    pub hit : Scheduler B
    pub removed : RemovesFirst id (all_waiting s.strategies) (all_waiting hit.strategies) task
    pub counted : hit.model_stats ≡ s.model_stats
    pub canceled_state : IsState id canceled s'
    pub released : tracked_task id s' ≡ none
    pub waiting_left : s'.strategies ≡ (between after_hit hit).strategies
    pub counters : s'.model_stats ≡ (between after_hit hit).model_stats

  -- No task with the request id waits, and the operation is marked.
  pub record Marked (id : String) (s s' : Scheduler B) : Type 0 where
    pub absent : Absent id (all_waiting s.strategies)
    pub marked : IsState id cancel_requested s'

  abbrev pub TrackedResult : Others B → String → Task → Scheduler B → Scheduler B × Bool → Type 0
  TrackedResult between id t s r =
      (r.1 ≡ true)
      × (Withdrawn between id (sought between t s) r.0 ⊎ Marked id (sought between t s) r.0)

  pub marked_now :
      (id : String) (r : ResponseInfo) (m : Option String) (s : Scheduler B)
      → IsState id cancel_requested (set_operation id cancel_requested r m s)
  marked_now id r m s = record {
    operation = operation_of id cancel_requested r m;
    stored = get-set_operation_self id cancel_requested r m s;
    state = refl;
  }

  strategies-finalize :
      (t : Task) (m : Option String) (s : Scheduler B)
      → (finalize_canceled_task t m s).strategies ≡ s.strategies
  unfolding finalize_canceled_task forget_task set_operation
  strategies-finalize t m s = refl

  model_stats-finalize :
      (t : Task) (m : Option String) (s : Scheduler B)
      → (finalize_canceled_task t m s).model_stats ≡ s.model_stats
  unfolding finalize_canceled_task forget_task set_operation
  model_stats-finalize t m s = refl

  finalize-IsState :
      (t : Task) (m : Option String) (s : Scheduler B)
      → IsState (request_id t) canceled (finalize_canceled_task t m s)
  unfolding finalize_canceled_task forget_task
  finalize-IsState t m s = record {
    operation = operation_of (request_id t) canceled _ _;
    stored = get-set_operation_self (request_id t) canceled _ _ _;
    state = refl;
  }

  tracked-finalize :
      (t : Task) (m : Option String) (s : Scheduler B)
      → tracked_task (request_id t) (finalize_canceled_task t m s) ≡ none
  unfolding finalize_canceled_task forget_task tracked_task
  tracked-finalize t m s = lookup-erase_self (request_id t) _

  finalize-Withdrawn :
      (between : Others B) (id : String) (t u : Task) (m : Option String) (s hit : Scheduler B)
      → request_id t ≡ id
      → RemovesFirst id (all_waiting s.strategies) (all_waiting hit.strategies) u
      → hit.model_stats ≡ s.model_stats
      → Withdrawn between id s (finalize_canceled_task t m (between after_hit hit))
  finalize-Withdrawn between id t u m s hit e removed stats =
      let x = between after_hit hit in
      record {
        task = u;
        hit = hit;
        removed = removed;
        counted = stats;
        canceled_state =
            subst (λ j. IsState j canceled (finalize_canceled_task t m x)) e
              (finalize-IsState t m x);
        released =
            subst (λ j. tracked_task j (finalize_canceled_task t m x) ≡ none) e
              (tracked-finalize t m x);
        waiting_left = strategies-finalize t m x;
        counters = model_stats-finalize t m x;
      }

  cancel_tracked-Result :
      (between : Others B) (id : String) (t : Task) (s : Scheduler B)
      → request_id t ≡ id
      → RevokedSomewhere id
          (sought between t s).strategies
          (sought between t s).cells
          (revoke_all id (sought between t s).strategies (sought between t s).cells)
      → TrackedResult between id t s (cancel_tracked between id t s)
  unfolding cancel_tracked
  cancel_tracked-Result between id t s e (inl (u, hit, removed)) =
      rw (hit, cancel_tracked)
        (
          refl,
          inl (
              finalize-Withdrawn between id t u (some "request canceled before execution")
                (sought between t s) _ e removed refl),
        )
  cancel_tracked-Result between id t s e (inr (absent, same)) =
      rw (same, cancel_tracked)
        (refl, inr (record { absent = absent; marked = marked_now id _ _ _ }))

  -- There is no operation, or it has succeeded or failed.
  abbrev pub HasEnded : String → Scheduler B → Type 0
  HasEnded id s = (operation_at id s ≡ none) ⊎ IsState id success s ⊎ IsState id failure s

  abbrev pub CancelResult : Others B → String → Scheduler B → Scheduler B × Bool → Type 0
  CancelResult between id s r =
      let looked = between before_lookup s in
      ((r ≡ (s, false)) × HasEnded id s)
      ⊎ ((r ≡ (s, true)) × IsState id canceled s)
      ⊎ ((r ≡ (looked, false)) × (tracked_task id looked ≡ none))
      ⊎ ((t : Task) × (tracked_task id looked ≡ some t) × TrackedResult between id t looked r)

  abbrev after_checks : Others B → String → OperationInfo → Scheduler B → Scheduler B × Bool
  after_checks between id op_info s =
      if op_info.state == canceled
      then (s, true)
      else if op_info.state == success || op_info.state == failure
      then (s, false)
      else elim (tracked_task id (between before_lookup s)) [
        | none ↦ (between before_lookup s, false)
        | some t ↦ cancel_tracked between id t (between before_lookup s)
      ]

  -- Every tracked task is stored under its own request id.
  abbrev pub IsKeyed : Scheduler B → Type 0
  IsKeyed s = (id : String) (t : Task) → tracked_task id s ≡ some t → request_id t ≡ id

  checks-Result :
      (between : Others B) (id : String) (op_info : OperationInfo) (s : Scheduler B)
      → IsKeyed (between before_lookup s)
      → operation_at id s ≡ some op_info
      → CancelResult between id s (after_checks between id op_info s)
  checks-Result between id op_info s keyed e = elim (Bool-cases (op_info.state == canceled)) [
    | inl gone ↦ simp gone (inr (inl (refl, at canceled gone)))
    | inr not_gone ↦ elim (Bool-cases (op_info.state == success)) [
      | inl won ↦ simp (not_gone, won) (inl (refl, inr (inl (at success won))))
      | inr not_won ↦ elim (Bool-cases (op_info.state == failure)) [
        | inl lost ↦ simp (not_gone, not_won, lost) (inl (refl, inr (inr (at failure lost))))
        | inr open_ ↦ simp (not_gone, not_won, open_) (on_task (tracked_task id looked) refl)
      ]
    ]
  ]
    where
      at : (st : OperationState) → (op_info.state == st) ≡ true → IsState id st s
      at st h = record { operation = op_info; stored = e; state = eq_of_beq op_info.state st h }

      looked : Scheduler B
      looked = between before_lookup s

      on_task :
          (found : Option Task)
          → tracked_task id looked ≡ found
          → CancelResult between id s
              (elim found [ none ↦ (looked, false) | some t ↦ cancel_tracked between id t looked ])
      on_task none h = inr (inr (inl (refl, h)))
      on_task (some t) h =
          let at_search = sought between t looked in
          inr (
            inr (
              inr (
                t,
                h,
                cancel_tracked-Result between id t looked (keyed id t h)
                    (revoke_all-RevokedSomewhere id at_search.strategies at_search.cells),
              )))

  -- Where every tracked task is stored under its own request id when `cancelTask` looks for the
  -- task, it ends in one of five ways, whatever other threads do in its gaps. It answers `false` and
  -- changes nothing: there is no operation, or it has succeeded or failed. It answers `true` and
  -- changes nothing: the operation is canceled already. It answers `false`, and changes nothing that
  -- the others leave: the task is not tracked when it is looked for. Or it answers `true`, a task is
  -- tracked then, and either the search takes the first waiting task with the request id out of its
  -- strategy, and in the end the operation is canceled, the task is no longer tracked, and the
  -- strategies and the counters are as the others have left them after the search; or no task with
  -- the request id waits at the search, and in the end the operation says that its cancellation is
  -- requested.
  pub cancel_task-Result :
      (between : Others B) (id : String) (s : Scheduler B)
      → IsKeyed (between before_lookup s)
      → CancelResult between id s (cancel_task between id s)
  unfolding cancel_task
  cancel_task-Result between id s keyed = on_operation (operation_at id s) refl
    where
      on_operation :
          (found : Option OperationInfo)
          → operation_at id s ≡ found
          → CancelResult between id s
              (elim found [ none ↦ (s, false) | some op_info ↦ after_checks between id op_info s ])
      on_operation none e = inl (refl, inl e)
      on_operation (some op_info) e = checks-Result between id op_info s keyed e
