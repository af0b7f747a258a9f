-- ===== src/Scheduler/Cancellation/Race.antt =====
-- A cancellation that races with the end of the execution (`Scheduler::cancelTask` against
-- `Scheduler::execute`).
use gip.Prelude.{String, ◌≡◌, refl, inl, inr, true, false, Option, none, some}
use gip.Models.{
  Task, ongoing, cancel_requested, operation_state_eq, ResponseInfo, Absent, RemovesFirst-Absent,
}
use gip.Scheduler.State.{Scheduler, tracked_task, set_operation, cell_of}
use gip.Scheduler.Cancellation.{
  Others, before_lookup, after_miss, revoke_all, cancel_tracked, cancel_task,
}
use gip.Scheduler.Cancellation.Search.{all_waiting, RevokedSomewhere, revoke_all-RevokedSomewhere}
use gip.Scheduler.Cancellation.Verdict.{IsState, marked_now, sought}
use gip.Scheduler.Execution.Conclusion.{Finished}

module _ {B : Type 0} where
  -- The operation says that its cancellation is requested, no task stands behind it, and every
  -- further cancellation is refused and changes nothing, as long as no other thread tracks a task
  -- with that id after its first look.
  pub record IsStranded (id : String) (s : Scheduler B) : Type 0 where
    pub marked : IsState id cancel_requested s
    pub untracked : tracked_task id s ≡ none
    pub refused :
        (between : Others B)
        → tracked_task id (between before_lookup s) ≡ none
        → cancel_task between id s ≡ (between before_lookup s, false)

  refused_again :
      (between : Others B) (id : String) (s : Scheduler B)
      → IsState id cancel_requested s
      → tracked_task id (between before_lookup s) ≡ none
      → cancel_task between id s ≡ (between before_lookup s, false)
  unfolding cancel_task
  refused_again between id s m u = rw (m.stored, cancel_task) (rw m.state (rw u refl))

  tracked-mark :
      (id j : String) (s : Scheduler B) (r : ResponseInfo) (m : Option String)
      → tracked_task j (set_operation id cancel_requested r m s) ≡ tracked_task j s
  unfolding tracked_task set_operation
  tracked-mark id j s r m = refl

  -- What `cancel_task` leaves when no strategy holds the task.
  abbrev pub marked_late : Others B → String → Task → Scheduler B → Scheduler B
  marked_late between id t s =
      let later = between after_miss (sought between t s) in
      set_operation id cancel_requested (cell_of t later).response
        (some "cancel requested; waiting for in-flight execution to finish") later

  cancel_tracked-late :
      (between : Others B) (id : String) (t : Task) (s : Scheduler B)
      → Absent id (all_waiting (sought between t s).strategies)
      → RevokedSomewhere id
          (sought between t s).strategies
          (sought between t s).cells
          (revoke_all id (sought between t s).strategies (sought between t s).cells)
      → cancel_tracked between id t s ≡ (marked_late between id t s, true)
  unfolding cancel_tracked set_operation
  cancel_tracked-late between id t s absent (inl (u, hit, removed)) =
      absurd (RemovesFirst-Absent removed absent)
  cancel_tracked-late between id t s absent (inr (_, same)) = rw (same, cancel_tracked) refl

  cancel_task-late :
      (between : Others B) (id : String) (t : Task) (s : Scheduler B)
      → IsState id ongoing s
      → tracked_task id (between before_lookup s) ≡ some t
      → Absent id (all_waiting (sought between t (between before_lookup s)).strategies)
      → cancel_task between id s ≡ (marked_late between id t (between before_lookup s), true)
  unfolding cancel_task set_operation
  cancel_task-late between id t s o k absent =
      let at_search = sought between t (between before_lookup s) in
      rw (o.stored, cancel_task)
        (rw o.state (
          rw k (
            cancel_tracked-late between id t (between before_lookup s) absent
              (revoke_all-RevokedSomewhere id at_search.strategies at_search.cells))))

  -- A task is executing, it is tracked under the request id when `cancelTask` looks for it, and waits
  -- in no strategy when it searches, and while `cancelTask` is between its search and its mark, the
  -- execution finishes the task. Then `cancelTask` answers `true` and replaces the final state of the
  -- operation by a request for cancellation, with no task left that could ever answer it: it refuses
  -- all later cancellations.
  pub cancel_task-IsStranded :
      (between : Others B) (id : String) (t : Task) (s : Scheduler B)
      → IsState id ongoing s
      → tracked_task id (between before_lookup s) ≡ some t
      → Absent id (all_waiting (sought between t (between before_lookup s)).strategies)
      → Finished id (between after_miss (sought between t (between before_lookup s)))
      → ((cancel_task between id s).1 ≡ true) × IsStranded id (cancel_task between id s).0
  cancel_task-IsStranded between id t s o k absent f =
      rw (cancel_task-late between id t s o k absent) (refl, stranded)
    where
      looked : Scheduler B
      looked = between before_lookup s

      stranded : IsStranded id (marked_late between id t looked)
      stranded = record {
        marked = marked_now id _ _ _;
        untracked =
            rw (tracked-mark id id (between after_miss (sought between t looked)) _ _) f.released;
        refused = λ b u. refused_again b id _ (marked_now id _ _ _) u;
      }
