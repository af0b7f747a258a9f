-- ===== src/Batch/Conservation.antt =====
-- `StrategyBatch::admit` and `StrategyBatch::select` neither lose nor repeat a pending task.
use mathlib.Core.List.Perm
use mathlib.Core.List.{Perm, append_assoc, perm_middle, perm_append_singleton}
use gip.Prelude.{
  ℕ, String, ◌≡◌, refl, ap, inl, inr, Option, none, some, List, [], ◌∷◌, ◌++◌, ◌==◌, take, drop,
  take-append-drop, is_empty, nil_of_is_empty, string_eq, Bool-cases, arith,
}
use gip.Prelude.Perms.{swap_front}
use gip.Prelude.Dict.{lookup, insert, get_or, get_or-cons}
use gip.Models.{Task, DispatchUnit, ModelConf, model_name}
use gip.Policy.{SchedulingContext}
use gip.Batch.{
  ModelQueue, Windows, empty_queue, open_window, enqueue, admit, select, is_ready, batch_unit,
}
use gip.Batch.Selection.{fill_lem}
use gip.Batch.Revocation.{pending_tasks}

open_window-tasks :
    (conf : Option ModelConf) (q : ModelQueue) → (open_window conf q).tasks ≡ q.tasks
unfolding open_window
open_window-tasks none q = refl
open_window-tasks (some conf) q = ground arith

enqueue-tasks :
    (context : SchedulingContext) (t : Task) (q : ModelQueue)
    → (enqueue context t q).tasks ≡ q.tasks ++ t ∷ []
unfolding enqueue
enqueue-tasks context t q = ap (λ l. l ++ t ∷ []) (open_window-tasks context.model_meta.conf q)

-- One more task in the window of a name.
insert-perm :
    (name : String) (t : Task) (q' : ModelQueue) (queues : Windows)
    → q'.tasks ≡ (get_or name empty_queue queues).tasks ++ t ∷ []
    → Perm (pending_tasks (insert name q' queues)) (t ∷ pending_tasks queues)
unfolding insert pending_tasks get_or lookup
insert-perm name t q' [] h = rw h Perm.rfl
insert-perm name t q' ((key, q) ∷ rest) h = elim (Bool-cases (key == name)) [
  | inl hit ↦
      let more : q'.tasks ≡ q.tasks ++ t ∷ [] =
        rw (get_or-cons name key empty_queue q rest, hit) at h in
      rw (hit, more) (Perm.append_right (pending_tasks rest) (perm_append_singleton t q.tasks))
  | inr miss ↦
      let more : q'.tasks ≡ (get_or name empty_queue rest).tasks ++ t ∷ [] =
        rw (get_or-cons name key empty_queue q rest, miss) at h in
      rw miss (
        Perm.trans (Perm.append_left q.tasks (insert-perm name t q' rest more))
          (perm_middle q.tasks (pending_tasks rest)))
]

-- The windows hold one task more, the one admitted.
pub admit-perm :
    (t : Task) (context : SchedulingContext) (queues : Windows)
    → Perm (pending_tasks (admit (some t) context queues).0) (t ∷ pending_tasks queues)
unfolding admit
admit-perm t context queues =
    insert-perm (model_name t) t _ queues
      (enqueue-tasks context t (get_or (model_name t) empty_queue queues))

abbrev pub unit_tasks : Option DispatchUnit → List Task
unit_tasks none = []
unit_tasks (some unit) = unit.tasks

-- What is pending is afterwards in the unit, or still pending.
pub select-perm :
    (now : ℕ) (queues : Windows)
    → Perm
        (pending_tasks queues)
        (unit_tasks (select now queues).1 ++ pending_tasks (select now queues).0)
unfolding select pending_tasks batch_unit
select-perm now [] = Perm.rfl
select-perm now ((name, q) ∷ rest) =
    let m = q.max_batch_size in
    let behind = select now rest in
    let later : Perm (q.tasks ++ pending_tasks rest)
        (unit_tasks behind.1 ++ (q.tasks ++ pending_tasks behind.0)) =
      Perm.trans (Perm.append_left q.tasks (select-perm now rest))
        (swap_front q.tasks (unit_tasks behind.1) (pending_tasks behind.0)) in
    let split : Perm (q.tasks ++ pending_tasks rest)
        (take m q.tasks ++ (drop m q.tasks ++ pending_tasks rest)) =
      rw
        (
          ← append_assoc (take m q.tasks) (drop m q.tasks) (pending_tasks rest),
          take-append-drop m q.tasks,
        )
        Perm.rfl in
    elim (Bool-cases (is_ready now q)) [
      | inl r ↦ elim (Bool-cases (is_empty (take m q.tasks))) [
        | inl none_taken ↦
            let left : drop m q.tasks ≡ q.tasks =
              rw (nil_of_is_empty (take m q.tasks) none_taken) at (take-append-drop m q.tasks) in
            rw (r, fill_lem m q.tasks, none_taken, left) later
        | inr some_taken ↦ rw (r, fill_lem m q.tasks, some_taken) split
      ]
      | inr r ↦ rw r later
    ]
