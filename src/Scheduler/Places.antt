-- ===== src/Scheduler/Places.antt =====
-- Where the scheduler keeps the tasks of `tracked_tasks_` until they end: in a strategy, in a job
-- of the thread pool, or with a thread that has taken them out of there.
pub mod Arrivals
pub mod Operations
pub mod Fit
pub mod Cancellation
pub mod Dispatch
pub mod Execution
pub mod Work
pub mod Steps
use mathlib.Core.List.Perm
use mathlib.Core.List.{Perm, Mem, Mem-prop, Subset, mem-cons, append_assoc}
use mathlib.Core.Logic.Or
use gip.Prelude.{
  String, ◌≡◌, refl, sym, ap, ◌∙◌, ◌≢◌, inl, inr, Bool-cases, Option, some, none, List, [], ◌∷◌,
  ◌++◌, ◌==◌, string_eq, ne_of_beq, if◌then◌else◌, arith,
}
use gip.Prelude.Perms.{swap_front}
use gip.Prelude.Dict.{lookup-erase}
use gip.Models.{Task, DispatchUnit, request_id}
use gip.Scheduler.State.{Scheduler, tracked_task, forget_task}
use gip.Scheduler.Cancellation.Search.{all_waiting}

-- The tasks of all jobs.
unfoldable pub job_tasks : List DispatchUnit → List Task
job_tasks [] = []
job_tasks (unit ∷ rest) = unit.tasks ++ job_tasks rest

-- Tasks that leave `waits` or `jobs` and come into hand.
module _ (moved taken : List Task) where
  bring_front : (rest : List Task) → Perm (taken ++ (moved ++ rest)) ((moved ++ taken) ++ rest)
  bring_front rest = rw (append_assoc moved taken rest) (swap_front taken moved rest)

  pub take_waiting :
      (waits waits' jobs : List Task)
      → Perm waits (moved ++ waits')
      → Perm (taken ++ (waits ++ jobs)) ((moved ++ taken) ++ (waits' ++ jobs))
  take_waiting waits waits' jobs p =
      Perm.trans
        (Perm.append_left taken
          (Perm.trans (Perm.append_right jobs p) (rw (append_assoc moved waits' jobs) Perm.rfl)))
        (bring_front (waits' ++ jobs))

  pub take_jobs :
      (waits jobs jobs' : List Task)
      → Perm jobs (moved ++ jobs')
      → Perm (taken ++ (waits ++ jobs)) ((moved ++ taken) ++ (waits ++ jobs'))
  take_jobs waits jobs jobs' p =
      Perm.trans
        (Perm.append_left taken
          (Perm.trans (Perm.append_left waits p) (swap_front waits moved jobs')))
        (bring_front (waits ++ jobs'))

module _ {B : Type 0} where
  -- `taken` are the tasks in the hands of threads.
  abbrev pub places : List Task → Scheduler B → List Task
  places taken s = taken ++ (all_waiting s.strategies ++ job_tasks s.thread_pool)

  -- Every task that is tracked is tracked under its request id, and is in one of these places.
  abbrev pub Accounts : List Task → Scheduler B → Type 0
  Accounts taken s =
      (id : String) (t : Task)
      → tracked_task id s ≡ some t
      → (request_id t ≡ id) × Mem t (places taken s)

  -- The same tasks are tracked, and no place is lost.
  pub Accounts-moves :
      (taken taken' : List Task) (s s' : Scheduler B)
      → s'.tracked_tasks ≡ s.tracked_tasks
      → Subset (places taken s) (places taken' s')
      → Accounts taken s
      → Accounts taken' s'
  unfolding tracked_task
  Accounts-moves taken taken' s s' same moved h id t e =
      let old = h id t (rw (← same) e) in (old.0, moved t old.1)

  -- A task in hand may be given up with its request id.
  pub Accounts-forget :
      (id : String) (t : Task) (taken : List Task) (s : Scheduler B)
      → request_id t ≡ id
      → Accounts (t ∷ taken) s
      → Accounts taken (forget_task id s)
  unfolding tracked_task forget_task
  Accounts-forget id t taken s named h j u e = elim (Bool-cases (id == j)) [
    | inl same ↦ let gone : none ≡ some u = rw (lookup-erase id j s.tracked_tasks, same) at e in cc
    | inr other ↦
        let kept : tracked_task j s ≡ some u = rw (lookup-erase id j s.tracked_tasks, other) at e in
        let (owner, place) = h j u kept in
        (
          owner,
          Or.resolve_left Mem-prop (mem-cons.0 place)
              (λ same. ne_of_beq id j other (sym named ∙ ap request_id (sym same) ∙ owner)),
        )
  ]
