-- ===== src/Batch/History.antt =====
-- The units that `StrategyBatch` emits after any history of calls.
use gip.Prelude.{
  ℕ, zero, suc, String, ◌≡◌, refl, ap, subst, inl, inr, Option, some, List, [], ◌∷◌, ◌++◌, All,
  take, is_empty, false,
}
use gip.Models.{Task, DispatchUnit, max_throughput, model_name}
use gip.Policy.{SchedulingContext}
use gip.Batch.{ModelQueue, Windows, admit, select, revoke, clear}
use gip.Batch.Selection.{Emits, Selected, select-Selected}
use gip.Batch.Invariant.{
  IsWindow, AreWindows, AreWindows-room, admit-AreWindows, select-AreWindows, revoke-AreWindows,
}

pub data Call : Type 0 where
  admits : Option Task → SchedulingContext → Call
  selects : ℕ → Call
  revokes : String → Call
  clears : Call

unfoldable pub step : Windows → Call → Windows
step queues (admits task context) = (admit task context queues).0
step queues (selects now) = (select now queues).0
step queues (revokes id) = (revoke id queues).0
step queues clears = clear queues

unfoldable pub run : Windows → List Call → Windows
run queues [] = queues
run queues (c ∷ cs) = run (step queues c) cs

step-AreWindows : (queues : Windows) (c : Call) → AreWindows queues → AreWindows (step queues c)
unfolding step
step-AreWindows queues (admits task context) h = admit-AreWindows task context queues h
step-AreWindows queues (selects now) h = select-AreWindows now queues h
step-AreWindows queues (revokes id) h = revoke-AreWindows id queues h
step-AreWindows queues clears h = unfold clear in tt

pub run-AreWindows :
    (queues : Windows) (cs : List Call) → AreWindows queues → AreWindows (run queues cs)
unfolding run
run-AreWindows queues [] h = h
run-AreWindows queues (c ∷ cs) h = run-AreWindows (step queues c) cs (step-AreWindows queues c h)

-- A unit holds tasks of the model that it names, and at least one.
pub record IsBatch (u : DispatchUnit) : Type 0 where
  pub own : All (λ t. model_name t ≡ u.model_name) u.tasks
  pub some_task : is_empty u.tasks ≡ false
  pub by_batching : u.strategy ≡ max_throughput

All-take : (P : Task → Type 0) (m : ℕ) (q : List Task) → All P q → All P (take m q)
All-take P zero q h = tt
All-take P (suc m) [] h = tt
All-take P (suc m) (t ∷ q) h = (h.0, All-take P m q h.1)

IsWindow-at :
    (before : Windows) (name : String) (q : ModelQueue) (after : Windows)
    → AreWindows (before ++ (name, q) ∷ after)
    → IsWindow name q
IsWindow-at [] name q after h = h.0
IsWindow-at (w ∷ before) name q after h = IsWindow-at before name q after h.1

Emits-IsBatch :
    (now : ℕ) (queues queues' : Windows) (u : DispatchUnit)
    → AreWindows queues
    → Emits now queues queues' u
    → IsBatch u
Emits-IsBatch now queues queues' u h e =
    let w = IsWindow-at e.before e.name e.q e.after (subst AreWindows e.window h) in
    rw e.unit (record {
      own = All-take (λ t. model_name t ≡ e.name) e.q.max_batch_size e.q.tasks w.own;
      some_task = subst (λ (x : DispatchUnit). is_empty x.tasks ≡ false) e.unit e.nonempty;
      by_batching = refl;
    })

emitted :
    (now : ℕ) (queues : Windows) (u : DispatchUnit)
    → AreWindows queues
    → (select now queues).1 ≡ some u
    → Selected now queues (select now queues)
    → IsBatch u
emitted now queues u h e (inl (u', hit, emits)) =
    let same : u' ≡ u = cc in subst IsBatch same (Emits-IsBatch now queues _ u' h emits)
emitted now queues u h e (inr (idle, same)) = cc (ap (λ r. r.1) same)

-- After any history of calls on an empty strategy, admissions, selections, revocations and clears
-- in any order, a unit that `select` emits is not empty, and every task of it is for the model that
-- the unit names.
pub select-IsBatch :
    (cs : List Call) (now : ℕ) (u : DispatchUnit) → (select now (run [] cs)).1 ≡ some u → IsBatch u
select-IsBatch cs now u e =
    let h = run-AreWindows [] cs tt in
    emitted now (run [] cs) u h e (select-Selected now (run [] cs) (AreWindows-room (run [] cs) h))
