-- ===== src/Batch/Invariant.antt =====
-- What holds of the windows of `StrategyBatch` between two calls, and how the calls change the
-- number of pending tasks.
use gip.Prelude.{
  ℕ, String, ◌<◌, ◌≡◌, refl, Option, none, some, List, [], ◌∷◌, ◌++◌, All, string_eq, arith,
}
use gip.Prelude.Entries.{All-append, Entries, Entries-insert, Entries-get_or}
use gip.Models.{Task, ModelConf, model_name}
use gip.Policy.{SchedulingContext}
use gip.Batch.{
  ModelQueue, Windows, empty_queue, open_window, enqueue, admit, select, fill, revoke_from, revoke,
}
use gip.Batch.Selection.{HasRoom}

-- A window makes room for at least one task in a batch, and holds tasks of its own model only.
pub record IsWindow (name : String) (q : ModelQueue) : Type 0 where
  pub room : 0 < q.max_batch_size
  pub own : All (λ t. model_name t ≡ name) q.tasks

abbrev pub AreWindows : Windows → Type 0
AreWindows = Entries IsWindow

pub AreWindows-room : (queues : Windows) → AreWindows queues → HasRoom queues
AreWindows-room [] h = tt
AreWindows-room ((name, q) ∷ rest) h = (h.0.room, AreWindows-room rest h.1)

open_window-room :
    (conf : Option ModelConf) (q : ModelQueue)
    → 0 < q.max_batch_size
    → 0 < (open_window conf q).max_batch_size
unfolding open_window
open_window-room conf q h = ground arith

tasks-open_window :
    (conf : Option ModelConf) (q : ModelQueue) → (open_window conf q).tasks ≡ q.tasks
unfolding open_window
tasks-open_window conf q = ground arith

enqueue-IsWindow :
    (context : SchedulingContext) (t : Task) (q : ModelQueue)
    → IsWindow (model_name t) q
    → IsWindow (model_name t) (enqueue context t q)
unfolding enqueue
enqueue-IsWindow context t q w = record {
  room = open_window-room context.model_meta.conf q w.room;
  own =
      rw (tasks-open_window context.model_meta.conf q)
        (All-append (λ u. model_name u ≡ model_name t) q.tasks (t ∷ []) w.own (refl, tt));
}

empty_queue-IsWindow : (name : String) → IsWindow name empty_queue
empty_queue-IsWindow name = record { room = omega arith; own = tt }

pub admit-AreWindows :
    (task : Option Task) (context : SchedulingContext) (queues : Windows)
    → AreWindows queues
    → AreWindows (admit task context queues).0
unfolding admit
admit-AreWindows none context queues h = h
admit-AreWindows (some t) context queues h =
    Entries-insert IsWindow (model_name t) _ queues
      (enqueue-IsWindow context t _ (
        Entries-get_or IsWindow (model_name t) empty_queue queues
          (empty_queue-IsWindow (model_name t)) h))
      h

All-fill : (P : Task → Type 0) (m : ℕ) (unit q : List Task) → All P q → All P (fill m unit q).1
unfolding fill
All-fill P m unit [] h = tt
All-fill P m unit (t ∷ ts) h = ground (arith, All-fill P m (unit ++ t ∷ []) ts h.1)

pub select-AreWindows :
    (now : ℕ) (queues : Windows) → AreWindows queues → AreWindows (select now queues).0
unfolding select
select-AreWindows now [] h = tt
select-AreWindows now ((name, q) ∷ rest) h = ground (
  arith,
  All-fill (λ t. model_name t ≡ name) q.max_batch_size [] q.tasks h.0.own,
  select-AreWindows now rest h.1,
)

All-revoke_from :
    (P : Task → Type 0) (id : String) (q : List Task) → All P q → All P (revoke_from id q).0
unfolding revoke_from
All-revoke_from P id [] h = tt
All-revoke_from P id (t ∷ ts) h = ground (arith, All-revoke_from P id ts h.1)

pub revoke-AreWindows :
    (id : String) (queues : Windows) → AreWindows queues → AreWindows (revoke id queues).0
unfolding revoke
revoke-AreWindows id [] h = tt
revoke-AreWindows id ((name, q) ∷ rest) h = ground (
  arith,
  All-revoke_from (λ t. model_name t ≡ name) id q.tasks h.0.own,
  revoke-AreWindows id rest h.1,
)
