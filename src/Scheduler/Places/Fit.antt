-- ===== src/Scheduler/Places/Fit.antt =====
-- The invariant of the scheduler under all that its threads do.
use mathlib.Core.List.{Subset}
use gip.Prelude.{String, ◌≡◌, refl, false, Option, none, some, List, ◌∷◌}
use gip.Models.{Task, OperationState, canceled, ResponseInfo, request_id}
use gip.Scheduler.State.{
  Scheduler, set_operation, forget_task, tracked_task, finalize_canceled_task, set_error, cell_of,
}
use gip.Scheduler.Execution.Completion.{HasSoundModels}
use gip.Scheduler.Places.{places, Accounts, Accounts-moves, Accounts-forget}
use gip.Scheduler.Places.Operations.{is_open, Owes, Owes-moves, Owes-marks, Owes-closes, Owes-keeps}

module _ {B : Type 0} where
  -- The registry of models is fit for `execute`, and every task that is tracked, and every
  -- operation that is open, has its place.
  abbrev pub IsFit : List Task → Scheduler B → Type 0
  IsFit taken s = HasSoundModels s × Accounts taken s × Owes taken s

  -- What other threads do keeps it so, whatever the other tasks in hand are.
  abbrev pub KeepsFit : (Scheduler B → Scheduler B) → Type 0
  KeepsFit during = (taken : List Task) (s : Scheduler B) → IsFit taken s → IsFit taken (during s)

  -- Only places change, and none is lost.
  pub IsFit-moves :
      (taken taken' : List Task) (s s' : Scheduler B)
      → s'.model_manager ≡ s.model_manager
      → s'.tracked_tasks ≡ s.tracked_tasks
      → s'.op_repository ≡ s.op_repository
      → Subset (places taken s) (places taken' s')
      → IsFit taken s
      → IsFit taken' s'
  IsFit-moves taken taken' s s' models tracked operations moved h = (
    rw models h.0,
    Accounts-moves taken taken' s s' tracked moved h.1,
    Owes-moves taken taken' s s' operations moved h.2,
  )

  module _ (id : String) (st : OperationState) (r : ResponseInfo) (m : Option String)
      (taken : List Task) (s : Scheduler B) where
    -- A task in hand is given up: its operation is closed, and its request id forgotten.
    pub IsFit-closes :
        (t : Task)
        → request_id t ≡ id
        → is_open st ≡ false
        → IsFit (t ∷ taken) s
        → IsFit taken (forget_task id (set_operation id st r m s))
    unfolding forget_task set_operation tracked_task
    IsFit-closes t named shut h = (
      h.0,
      Accounts-forget id t taken s named h.1,
      Owes-closes id st r m taken s t named shut h.2,
    )

    -- The operation of a task in hand changes.
    pub IsFit-keeps :
        (t : Task)
        → request_id t ≡ id
        → IsFit (t ∷ taken) s
        → IsFit (t ∷ taken) (set_operation id st r m s)
    unfolding set_operation tracked_task
    IsFit-keeps t named h = (h.0, h.1, Owes-keeps id st r m taken s t named h.2)

    -- An operation is closed, with no change to the tasks.
    pub IsFit-marks : is_open st ≡ false → IsFit taken s → IsFit taken (set_operation id st r m s)
    unfolding set_operation tracked_task
    IsFit-marks shut h = (h.0, h.1, Owes-marks id st r m taken s shut h.2)

  pub IsFit-finalize :
      (t u : Task) (message : Option String) (taken : List Task) (s : Scheduler B)
      → request_id u ≡ request_id t
      → IsFit (u ∷ taken) s
      → IsFit taken (finalize_canceled_task t message s)
  unfolding finalize_canceled_task tracked_task
  IsFit-finalize t u message taken s named h =
      let s' = set_error t "request canceled" s in
      IsFit-closes (request_id t) canceled (cell_of t s').response
        (elim message [ some m ↦ some m | none ↦ some "request canceled" ]) taken s' u named refl h
