-- ===== src/Platform/Runs.antt =====
-- Everything that the threads of the platform do to its scheduler, in any order: requests are
-- handled, the dispatcher makes its rounds, and the workers execute jobs. Where a call lets other
-- threads in before it has returned, what they do there is made of such steps again.
use gip.Prelude.{
  ℕ, String, ◌≡◌, subst, inl, inr, Bool, true, false, Bool-cases, Option-cases, string_eq, Option,
  none, some, List, [], ◌++◌,
}
use gip.Prelude.Dict.{lookup}
use gip.ModelManager.Lifecycle.{Returned}
use mathlib.Core.List.{Mem, not-mem-nil}
use gip.Models.{OperationInfo, Task, ModelConf, done, request_id}
use gip.Json.{JsonLibrary}
use gip.Backends.{IBackend}
use gip.Scheduler.State.{Scheduler, tracked_task, new_scheduler}
use gip.Scheduler.Dispatch.{after_wait, dispatch_round, stop}
use gip.Scheduler.Execution.{run_job}
use gip.Scheduler.Execution.Completion.{Responds}
use gip.Scheduler.Cancellation.{Gap}
use gip.Scheduler.Cancellation.Search.{all_waiting}
use gip.Operations.{get_operation}
use gip.Scheduler.Places.{job_tasks}
use gip.Scheduler.Places.Operations.{is_open}
use gip.Scheduler.Places.Fit.{IsFit}
use gip.Scheduler.Places.Dispatch.{after_wait-IsFit, dispatch_round-IsFit}
use gip.Scheduler.Places.Execution.{run_job-IsFit}
use gip.Scheduler.Places.Work.{Works, Works-IsFit}
use gip.InferService.{Answer}
use gip.HttpApi.{Request}
use gip.HttpApi.Routes.{Handler, handle}
use gip.Platform.{new_platform}
use gip.Platform.Commands.{Leaves, Moment, surroundings}
use gip.Platform.Handlers.{handle-Leaves}
use gip.Platform.Places.{IsFit-IsKept}
use gip.Platform.Soundness.{new_platform_sound}

module _ {J O B : Type 0} (json : JsonLibrary J O) ⦃i : IBackend B⦄
    (load_conf : String → Option ModelConf) where
  -- From one state of the scheduler, and of the tasks in the hands of the workers, to another. A
  -- request leads on if its handler returns, as a round of the dispatcher does. `selects` is a round
  -- that has given the mutex back before it selects, as the code does not: what holds of all runs does
  -- not rest on the deadlock of its rounds. A job is executed at once, with what happens meanwhile, or
  -- step by step.
  pub data Happens : List Task → Scheduler B → List Task → Scheduler B → Type 0 where
    rests : (taken : List Task) (s : Scheduler B) → Happens taken s taken s
    requests :
        (at : Moment B) (h : Handler) (request : Request) (taken taken' : List Task)
        (s s' s'' : Scheduler B) (answer : Answer)
        → ((gap : Gap) (hand : List Task) (x : Scheduler B)
            → Happens hand x hand (at.between gap x))
        → ((hand : List Task) (x : Scheduler B) → Happens hand x hand (at.later x))
        → handle json (surroundings json load_conf at) h request s ≡ done (s', answer)
        → Happens taken s' taken' s''
        → Happens taken s taken' s''
    dispatches :
        (enqueued : Bool) (now : ℕ) (taken taken' : List Task) (s s' s'' : Scheduler B)
        (ended : Bool)
        → dispatch_round enqueued now s ≡ done (s', ended)
        → Happens taken s' taken' s''
        → Happens taken s taken' s''
    selects :
        (enqueued : Bool) (now : ℕ) (taken taken' : List Task) (s s' s'' : Scheduler B)
        (ended : Bool)
        → after_wait enqueued now s ≡ done (s', ended)
        → Happens taken s' taken' s''
        → Happens taken s taken' s''
    executes :
        (during : Scheduler B → Scheduler B) (taken taken' : List Task) (s s'' : Scheduler B)
        → ((hand : List Task) (x : Scheduler B) → Happens hand x hand (during x))
        → Happens taken (run_job during s).0 taken' s''
        → Happens taken s taken' s''
    works :
        (taken taken' taken'' : List Task) (s s' s'' : Scheduler B)
        → Works taken s taken' s'
        → Happens taken' s' taken'' s''
        → Happens taken s taken'' s''
    stops :
        (taken taken' : List Task) (s s'' : Scheduler B)
        → Happens taken (stop s).0 taken' s''
        → Happens taken s taken' s''

  stop-IsFit : (taken : List Task) (s : Scheduler B) → IsFit taken s → IsFit taken (stop s).0
  unfolding stop tracked_task
  stop-IsFit taken s fit = elim (Bool-cases s.stop_requested) [
    | inl e ↦ simp e fit
    | inr e ↦ simp e fit
  ]

  module _ (r : Responds i) where
    Happens-IsFit :
        (taken taken' : List Task) (s s' : Scheduler B)
        → Happens taken s taken' s'
        → IsFit taken s
        → IsFit taken' s'
    Happens-IsFit taken _ s _ (rests _ _) fit = fit
    Happens-IsFit taken taken' s s'' (requests at h request _ _ _ s' _ answer b l e rest) fit =
        Happens-IsFit taken taken' s' s'' rest (
          subst (Leaves (IsFit taken)) e (
            handle-Leaves json load_conf (IsFit taken) (IsFit-IsKept json taken) at h request s
              (λ gap hand x. Happens-IsFit hand hand x (at.between gap x) (b gap hand x))
              (λ x. Happens-IsFit taken taken x (at.later x) (l taken x)) fit))
    Happens-IsFit taken taken' s s'' (dispatches enqueued now _ _ _ s' _ ended e rest) fit =
        Happens-IsFit taken taken' s' s'' rest (
          subst (Returned (λ q. IsFit taken q.0)) e (dispatch_round-IsFit taken enqueued now s fit))
    Happens-IsFit taken taken' s s'' (selects enqueued now _ _ _ s' _ ended e rest) fit =
        Happens-IsFit taken taken' s' s'' rest
          (subst (Returned (λ q. IsFit taken q.0)) e (after_wait-IsFit taken enqueued now s fit))
    Happens-IsFit taken taken' s s'' (executes during _ _ _ _ d rest) fit =
        Happens-IsFit taken taken' (run_job during s).0 s'' rest
          (run_job-IsFit r during (λ hand x. Happens-IsFit hand hand x (during x) (d hand x)) taken
            s fit).1
    Happens-IsFit taken taken'' s s'' (works _ taken' _ _ s' _ w rest) fit =
        Happens-IsFit taken' taken'' s' s'' rest (Works-IsFit taken taken' s s' w fit)
    Happens-IsFit taken taken' s s'' (stops _ _ _ _ rest) fit =
        Happens-IsFit taken taken' (stop s).0 s'' rest (stop-IsFit taken s fit)

    new_platform-IsFit :
        (onnx : B) (config_path : String) (hardware : ℕ)
        → IsFit [] (new_platform onnx config_path hardware)
    unfolding new_platform new_scheduler tracked_task get_operation lookup
    new_platform-IsFit onnx config_path hardware = (
      new_platform_sound json load_conf onnx config_path hardware,
      λ id t e. cc,
      λ id op_info e is. cc,
    )

    module _ (onnx : B) (config_path : String) (hardware : ℕ) (taken : List Task) (s : Scheduler B)
        (run : Happens [] (new_platform onnx config_path hardware) taken s) where
      fit : IsFit taken s
      fit =
          Happens-IsFit [] taken (new_platform onnx config_path hardware) s run
            (new_platform-IsFit onnx config_path hardware)

      -- With a backend whose `infer` throws no exception, whatever requests, rounds of the
      -- dispatcher, as in the code or with the mutex given back before the selection, executions of
      -- jobs at once or step by step, and stops a new platform has gone through, in any order, and
      -- with such steps again inside of a cancellation and of `infer`: a task that the scheduler
      -- tracks is stored under its request id, and it is in the hands of a worker, waits in a
      -- strategy, or belongs to a job that no worker has taken.
      pub Happens-Accounts :
          (id : String) (t : Task)
          → tracked_task id s ≡ some t
          → (request_id t ≡ id)
            × Mem t (taken ++ (all_waiting s.strategies ++ job_tasks s.thread_pool))
      Happens-Accounts = fit.1

      -- With a backend whose `infer` throws no exception, whatever requests, rounds of the
      -- dispatcher, as in the code or with the mutex given back before the selection, executions of
      -- jobs at once or step by step, and stops a new platform has gone through, in any order, and
      -- with such steps again inside of a cancellation and of `infer`: an operation that is pending
      -- or ongoing has a task with its id that is in the hands of a worker, waits in a strategy, or
      -- belongs to a job that no worker has taken.
      pub Happens-Owes :
          (id : String) (op_info : OperationInfo)
          → get_operation id s.op_repository ≡ some op_info
          → is_open op_info.state ≡ true
          → (t : Task) × (request_id t ≡ id)
            × Mem t (taken ++ (all_waiting s.strategies ++ job_tasks s.thread_pool))
      Happens-Owes = fit.2

      -- With a backend whose `infer` throws no exception, whatever requests, rounds of the
      -- dispatcher, as in the code or with the mutex given back before the selection, executions of
      -- jobs at once or step by step, and stops a new platform has gone through: once no worker has
      -- a task in hand, no task waits in a strategy and every job has been taken, an operation is
      -- neither pending nor ongoing, and the scheduler tracks no task with its id.
      pub Happens-settled :
          taken ≡ []
          → all_waiting s.strategies ≡ []
          → s.thread_pool ≡ []
          → (id : String) (op_info : OperationInfo)
          → get_operation id s.op_repository ≡ some op_info
          → (is_open op_info.state ≡ false) × (tracked_task id s ≡ none)
      unfolding job_tasks
      Happens-settled free idle empty id op_info stored = (closed, untracked)
        where
          nowhere :
              {t : Task}
              → Mem t (taken ++ (all_waiting s.strategies ++ job_tasks s.thread_pool))
              → ⊥
          nowhere place = not-mem-nil (rw (free, idle, empty) at place)

          closed : is_open op_info.state ≡ false
          closed = elim (Bool-cases (is_open op_info.state)) [
            | inl e ↦ absurd (nowhere (Happens-Owes id op_info stored e).2)
            | inr e ↦ e
          ]

          untracked : tracked_task id s ≡ none
          untracked = elim (Option-cases (tracked_task id s)) [
            | inl e ↦ e
            | inr (t, e) ↦ absurd (nowhere (Happens-Accounts id t e).1)
          ]

      -- With a backend whose `infer` throws no exception, whatever requests, rounds of the
      -- dispatcher, as in the code or with the mutex given back before the selection, executions of
      -- jobs at once or step by step, and stops a new platform has gone through: the next job of
      -- the thread pool, if there is one, returns without an exception, and so it does whatever
      -- such steps, from any tasks in hand back to these, are made while it is inside `infer`.
      pub Happens-run_job :
          (during : Scheduler B → Scheduler B)
          → ((hand : List Task) (x : Scheduler B) → Happens hand x hand (during x))
          → (run_job during s).1 ≡ done tt
      Happens-run_job during d =
          (run_job-IsFit r during (λ hand x. Happens-IsFit hand hand x (during x) (d hand x)) taken
            s fit).0
