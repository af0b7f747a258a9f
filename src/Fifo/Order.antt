-- ===== src/Fifo/Order.antt =====
-- What leaves the FIFO strategy, and in which order.
use mathlib.Core.List.{append_assoc, append-nil}
use gip.Prelude.{
  ◌≡◌, refl, sym, ap, ◌∙◌, ◌↔◌, Option, none, some, List, [], ◌∷◌, ◌++◌, length, arith,
}
use gip.Models.{Task, DispatchUnit}
use gip.Fifo.{FifoQueue, admit, select, next_ready_in}

-- The scheduler's calls that neither cancel nor clear: a task arrives, or a unit is asked for.
pub data Call : Type 0 where
  admits : Task → Call
  selects : Call

abbrev pub unit_tasks : Option DispatchUnit → List Task
unit_tasks none = []
unit_tasks (some u) = u.tasks

-- The queue after the calls, and the tasks of the units that were emitted, in order.
unfoldable pub run : List Call → FifoQueue → FifoQueue × List Task
run [] q = (q, [])
run (admits t ∷ cs) q = run cs (admit (some t) q).0
run (selects ∷ cs) q =
    let (q', unit) = select q in let (q'', later) = run cs q' in (q'', unit_tasks unit ++ later)

unfoldable pub arrivals : List Call → List Task
arrivals [] = []
arrivals (admits t ∷ cs) = t ∷ arrivals cs
arrivals (selects ∷ cs) = arrivals cs

select_split : (q : FifoQueue) → unit_tasks (select q).1 ++ (select q).0 ≡ q
unfolding select
select_split [] = refl
select_split (t ∷ ts) = refl

-- Over any calls without cancellation, the tasks that were emitted followed by those that are
-- still pending are the tasks pending at the start followed by those that arrived, in that order.
pub run_in_order :
    (cs : List Call) (q : FifoQueue) → (run cs q).1 ++ (run cs q).0 ≡ q ++ arrivals cs
unfolding run arrivals
run_in_order [] q = sym (append-nil q)
run_in_order (admits t ∷ cs) q =
    run_in_order cs (admit (some t) q).0 ∙ (unfold admit in append_assoc q (t ∷ []) (arrivals cs))
run_in_order (selects ∷ cs) q =
    append_assoc (unit_tasks (select q).1) _ _
    ∙ ap (◌++◌ (unit_tasks (select q).1)) (run_in_order cs (select q).0)
    ∙ sym (append_assoc (unit_tasks (select q).1) (select q).0 (arrivals cs))
    ∙ ap (λ l. l ++ arrivals cs) (select_split q)

-- `nextReadyIn` is 0 exactly when `select` emits a unit, and that unit holds one task.
pub next_ready_in-select :
    (q : FifoQueue) → (next_ready_in q ≡ 0) ↔ (length (unit_tasks (select q).1) ≡ 1)
unfolding next_ready_in select
next_ready_in-select [] = ground arith
next_ready_in-select (t ∷ ts) = ground arith
