-- ===== src/Scheduler/Places/Cancellation.antt =====
-- A cancellation takes a task out of its place only to let go of it.
use mathlib.Core.List.Perm
use gip.Prelude.{
  String, ◌≡◌, refl, sym, ◌∙◌, inl, inr, Bool, true, false, ◌||◌, Option, none, some, List, [], ◌∷◌,
  ◌==◌, string_eq, Option-cases, if◌then◌else◌,
}
use gip.Models.{
  cancel_requested, Task, OperationInfo, operation_state_eq, success, failure, canceled,
  RemovesFirst-perm, request_id,
}
use gip.Operations.{get_operation}
use gip.Scheduler.State.{cell_of, Scheduler, tracked_task}
use gip.Scheduler.Cancellation.{
  Gap, Others, before_lookup, before_flag, before_search, after_hit, after_miss, revoke_all,
  set_flag, cancel_tracked, cancel_task,
}
use gip.Scheduler.Cancellation.Verdict.{sought}
use gip.Scheduler.Cancellation.Search.{all_waiting, RevokedSomewhere, revoke_all-RevokedSomewhere}
use gip.Scheduler.Places.{job_tasks, take_waiting}
use gip.Scheduler.Places.Fit.{IsFit, IsFit-moves, IsFit-finalize, IsFit-marks}

-- What the other threads do in the gaps takes no task from its place, whoever else has some in hand.
abbrev pub OthersKeepFit : {B : Type 0} → Others B → Type 0
OthersKeepFit {B} between =
    (gap : Gap) (hand : List Task) (s : Scheduler B) → IsFit hand s → IsFit hand (between gap s)

module _ {B : Type 0} (taken : List Task) (between : Others B) (keeps : OthersKeepFit between)
    (id : String) where
  abbrev searched : Scheduler B → Scheduler B
  searched s = record s {
    strategies = (revoke_all id s.strategies s.cells).0;
    cells = (revoke_all id s.strategies s.cells).1;
  }

  sought-IsFit : (t : Task) (s : Scheduler B) → IsFit taken s → IsFit taken (sought between t s)
  unfolding tracked_task
  sought-IsFit t s h =
      keeps before_search taken (set_flag t (between before_flag s)) (keeps before_flag taken s h)

  -- From the state in which the strategies are locked on.
  cancel_tracked-IsFit :
      (t : Task) (s : Scheduler B)
      → request_id t ≡ id
      → IsFit taken (sought between t s)
      → RevokedSomewhere id
          (sought between t s).strategies
          (sought between t s).cells
          (revoke_all id (sought between t s).strategies (sought between t s).cells)
      → IsFit taken (cancel_tracked between id t s).0
  unfolding cancel_tracked tracked_task
  cancel_tracked-IsFit t s e h (inl (u, hit, removed)) =
      let start = sought between t s in
      let found = searched start in
      let in_hand : IsFit (u ∷ taken) found =
        IsFit-moves taken (u ∷ taken) start found refl refl refl
          (Perm.subset (
            take_waiting (u ∷ []) taken (all_waiting start.strategies)
              (all_waiting found.strategies) (job_tasks start.thread_pool)
              (RemovesFirst-perm removed)))
          h in
      rw (hit, cancel_tracked)
        (IsFit-finalize t u (some "request canceled before execution") taken
          (between after_hit found) (removed.same_id ∙ sym e)
          (keeps after_hit (u ∷ taken) found in_hand))
  cancel_tracked-IsFit t s e h (inr (absent, same)) =
      let later = between after_miss (sought between t s) in
      rw (same, cancel_tracked)
        (IsFit-marks id cancel_requested (cell_of t later).response
          (some "cancel requested; waiting for in-flight execution to finish") taken later refl
          (keeps after_miss taken (sought between t s) h))

  -- What holds of both branches holds of the choice.
  pub either {ℓ} :
      {A : Type ℓ} (b : Bool) (x y : Scheduler B × A)
      → IsFit taken x.0
      → IsFit taken y.0
      → IsFit taken (if b then x else y).0
  either true x y h k = h
  either false x y h k = k

  pub cancel_task-IsFit :
      (s : Scheduler B) → IsFit taken s → IsFit taken (cancel_task between id s).0
  unfolding cancel_task
  cancel_task-IsFit s h = elim (Option-cases (get_operation id s.op_repository)) [
    | inl e ↦ rw (e, cancel_task) h
    | inr (op_info, e) ↦ rw (e, cancel_task) (checked op_info)
  ]
    where
      looked : Scheduler B
      looked = between before_lookup s

      looked_fit : IsFit taken looked
      looked_fit = keeps before_lookup taken s h

      reached : Option Task → Scheduler B × Bool
      reached found = elim found [
        | none ↦ (looked, false)
        | some t ↦ cancel_tracked between id t looked
      ]

      tracked :
          (found : Option Task) → tracked_task id looked ≡ found → IsFit taken (reached found).0
      tracked none f = looked_fit
      tracked (some t) f =
          let at_search = sought between t looked in
          cancel_tracked-IsFit t looked (looked_fit.1 id t f).0 (sought-IsFit t looked looked_fit)
            (revoke_all-RevokedSomewhere id at_search.strategies at_search.cells)

      checked :
          (op_info : OperationInfo)
          → IsFit taken
              (if op_info.state == canceled
                then (s, true)
                else if op_info.state == success || op_info.state == failure
                then (s, false)
                else reached (tracked_task id looked)).0
      checked op_info = either (op_info.state == canceled) _ _ h (
          either (op_info.state == success || op_info.state == failure) _ _ h
            (tracked (tracked_task id looked) refl))
