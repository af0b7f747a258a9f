-- ===== src/Batch/Counts.antt =====
-- The number of pending tasks across the calls of `StrategyBatch`.
use gip.Prelude.{
  ℕ, String, ◌+◌, ◌≡◌, refl, ap, inl, inr, true, Option, none, some, List, [], ◌∷◌, take, drop,
  take-append-drop, length, length-append, is_empty, ◌==◌, string_eq, Bool-cases, arith,
}
use gip.Prelude.Dict.{get_or, insert, lookup, get_or-cons}
use gip.Models.{Task, DispatchUnit, model_name}
use gip.Policy.{SchedulingContext}
use gip.Batch.{
  ModelQueue, Windows, empty_queue, open_window, enqueue, admit, select, fill, pending_task_count,
  batch_unit,
}
use gip.Batch.Selection.{fill_lem}

pending-insert :
    (name : String) (q : ModelQueue) (queues : Windows)
    → pending_task_count (insert name q queues) + length (get_or name empty_queue queues).tasks
      ≡ pending_task_count queues + length q.tasks
unfolding pending_task_count insert get_or lookup
pending-insert name q [] = omega arith
pending-insert name q ((j, w) ∷ rest) = elim (Bool-cases (j == name)) [
  | inl hit ↦ rw (get_or-cons name j, hit) (omega arith)
  | inr miss ↦ rw (get_or-cons name j, miss) (omega (arith, pending-insert name q rest))
]

length-enqueue :
    (context : SchedulingContext) (t : Task) (q : ModelQueue)
    → length (enqueue context t q).tasks ≡ length q.tasks + 1
unfolding enqueue open_window
length-enqueue context t q = ground (arith, length-append q.tasks (t ∷ []))

pub pending-admit :
    (t : Task) (context : SchedulingContext) (queues : Windows)
    → pending_task_count (admit (some t) context queues).0 ≡ pending_task_count queues + 1
unfolding admit
pending-admit t context queues = omega (
  arith,
  pending-insert (model_name t) (enqueue context t (get_or (model_name t) empty_queue queues))
      queues,
  length-enqueue context t (get_or (model_name t) empty_queue queues),
)

abbrev pub unit_size : Option DispatchUnit → ℕ
unit_size none = 0
unit_size (some u) = length u.tasks

length-fill : (m : ℕ) (q : List Task) → length (fill m [] q).0 + length (fill m [] q).1 ≡ length q
length-fill m q =
    rw (fill_lem m q)
      (omega (arith, length-append (take m q) (drop m q), ap length (take-append-drop m q)))

empty-length : (xs : List Task) → is_empty xs ≡ true → length xs ≡ 0
empty-length [] e = refl
empty-length (x ∷ xs) e = cc

pub pending-select :
    (now : ℕ) (queues : Windows)
    → pending_task_count (select now queues).0 + unit_size (select now queues).1
      ≡ pending_task_count queues
unfolding pending_task_count select batch_unit
pending-select now [] = omega arith
pending-select now ((name, q) ∷ rest) = ground (
  arith,
  length-fill q.max_batch_size q.tasks,
  empty-length (fill q.max_batch_size [] q.tasks).0,
  pending-select now rest,
)
