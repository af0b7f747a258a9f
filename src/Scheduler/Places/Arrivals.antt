-- ===== src/Scheduler/Places/Arrivals.antt =====
-- What `admit` adds to the tracked tasks, it puts in a place; what it refuses is closed.
use mathlib.Core.List.Perm
use mathlib.Core.List.{
  Mem, Subset, mem-append_right, mem-append_left, mem-cons_self, mem-cons_of_mem,
}
use gip.Prelude.{
  String, sym, ◌∙◌, true, false, ◌≡◌, inl, inr, some, List, ◌==◌, string_eq, Bool-cases, eq_of_beq,
  ne_of_beq, subst,
}
use gip.Prelude.Perms.{Subset-append_left, Subset-append_right}
use gip.Models.{OperationInfo, Task, request_id}
use gip.Operations.{get_operation}
use gip.InferService.Preparation.{KeepsOthers}
use gip.Scheduler.Execution.Completion.{HasSoundModels}
use gip.Scheduler.Places.Operations.{is_open, Owes}
use gip.Scheduler.Places.Fit.{IsFit}
use gip.Scheduler.State.{Scheduler, tracked_task}
use gip.Scheduler.Cancellation.Search.{all_waiting}
use gip.Scheduler.Admission.Acceptance.{Admitted, Refused}
use gip.Scheduler.Places.{job_tasks, places, Accounts, Accounts-moves}
use mathlib.Core.Option.{some_inj}

module _ {B : Type 0} (taken : List Task) (s s' : Scheduler B) where
  -- A refusal closes one operation, and changes no other.
  module _ (id : String) (closed : OperationInfo) (a : Refused s s') where
    Refused-Owes :
        get_operation id s'.op_repository ≡ some closed
        → is_open closed.state ≡ false
        → KeepsOthers id s s'
        → Owes taken s
        → Owes taken s'
    Refused-Owes stored shut others h j op_info e is = elim (Bool-cases (id == j)) [
      | inl same ↦
          let here : get_operation j s'.op_repository ≡ some closed =
            subst (λ k. get_operation k s'.op_repository ≡ some closed) (eq_of_beq id j same)
              stored in
          let at : closed ≡ op_info = some_inj.0 (sym here ∙ e) in
          let still : is_open closed.state ≡ true = rw at is in cc
      | inr other ↦
          let old : get_operation j s.op_repository ≡ some op_info =
            sym (others j (ne_of_beq id j other)) ∙ e in
          rw (a.waits, a.jobs) (h j op_info old is)
    ]

    pub Refused-IsFit :
        HasSoundModels s'
        → get_operation id s'.op_repository ≡ some closed
        → is_open closed.state ≡ false
        → KeepsOthers id s s'
        → IsFit taken s
        → IsFit taken s'
    Refused-IsFit sound stored shut others h = (
      sound,
      Accounts-moves taken taken s s' a.tracked (rw (a.waits, a.jobs) (λ u m. m)) h.1,
      Refused-Owes stored shut others h.2,
    )

  module _ (t : Task) (a : Admitted t s s') where
    waiting-places : Subset (all_waiting s'.strategies) (places taken s')
    waiting-places u m = mem-append_right taken (mem-append_left (job_tasks s'.thread_pool) m)

    kept_place : Subset (places taken s) (places taken s')
    kept_place = rw (← a.jobs) (
        Subset-append_left taken (
          Subset-append_right (job_tasks s'.thread_pool)
            (λ u m. Perm.subset (Perm.symm a.waits) u (mem-cons_of_mem t m))))

    Admitted-Accounts : Accounts taken s → Accounts taken s'
    Admitted-Accounts h j u e = elim (Bool-cases (request_id t == j)) [
      | inl same ↦
          let at : request_id t ≡ j = eq_of_beq (request_id t) j same in
          let new : tracked_task j s' ≡ some t =
            subst (λ k. tracked_task k s' ≡ some t) at a.tracked in
          let is_t : t ≡ u = some_inj.0 (rw new at e) in
          subst (λ v. (request_id v ≡ j) × Mem v (places taken s')) is_t
            (at, waiting-places t (Perm.subset (Perm.symm a.waits) t mem-cons_self))
      | inr other ↦
          let old : tracked_task j s ≡ some u =
            rw (a.others j (ne_of_beq (request_id t) j other)) at e in
          let (owner, place) = h j u old in (owner, kept_place u place)
    ]

    Admitted-Owes : KeepsOthers (request_id t) s s' → Owes taken s → Owes taken s'
    Admitted-Owes others h j op_info e is = elim (Bool-cases (request_id t == j)) [
      | inl same ↦ (
        t,
        eq_of_beq (request_id t) j same,
        waiting-places t (Perm.subset (Perm.symm a.waits) t mem-cons_self),
      )
      | inr other ↦
          let old : get_operation j s.op_repository ≡ some op_info =
            sym (others j (ne_of_beq (request_id t) j other)) ∙ e in
          let (u, owner, place) = h j op_info old is in (u, owner, kept_place u place)
    ]

    pub Admitted-IsFit :
        HasSoundModels s' → KeepsOthers (request_id t) s s' → IsFit taken s → IsFit taken s'
    Admitted-IsFit sound others h = (sound, Admitted-Accounts h.1, Admitted-Owes others h.2)
