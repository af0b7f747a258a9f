-- ===== src/ThreadPool/Progress.antt =====
-- That the workers of a `ThreadPool` get to every job, and that `stop` can join them.
use mathlib.Core.List.{append-nil}
use gip.Prelude.{
  ℕ, suc, ◌+◌, ◌*◌, ◌≤◌, ◌≡◌, refl, ap, sym, ◌∙◌, ◌⊎◌, inl, inr, Bool, true, false, Bool-cases,
  List, [], ◌∷◌, ◌++◌, map, length, arith,
}
use gip.ThreadPool.{
  Worker, idle, waiting, notified, running, exited, ThreadPool, new_pool, new_workers, enqueue,
  set_stop, notify_all, notify, look, Moves, here, there, NotifiesOne, notifies, nobody_waits,
  WorkerStep, looks, finishes, Reachable, starts, enqueues, stops, announces, works, wakes,
}
use gip.ThreadPool.Order.{Reachable-IsInOrder}
use gip.ThreadPool.Served.{Reachable-IsServed}
use gip.ThreadPool.Workers.{
  is_awake, has_awake, steps_left, all_steps_left, AllExited, moved-steps, find_awake, all_exited,
}

module _ {J : Type 0} where
  -- How many steps the workers still take at most, if no job comes and no worker wakes by itself.
  abbrev pub work_left : ThreadPool J → ℕ
  work_left p = 3 * length p.tasks + all_steps_left p.workers

  one_left : (w : Worker J) → (w ≡ idle) ⊎ (w ≡ notified) → steps_left w ≡ 1
  one_left w (inl e) = rw e refl
  one_left w (inr e) = rw e refl

  look-less :
      (stop : Bool) (tasks : List J) (w : Worker J) (ws ws' : List (Worker J))
      → (w ≡ idle) ⊎ (w ≡ notified)
      → Moves w (look stop tasks).0 ws ws'
      → suc (3 * length (look stop tasks).1 + all_steps_left ws')
        ≤ 3 * length tasks + all_steps_left ws
  unfolding look
  look-less false [] w ws ws' at m = omega (arith, one_left w at, moved-steps w waiting ws ws' m)
  look-less true [] w ws ws' at m = omega (arith, one_left w at, moved-steps w exited ws ws' m)
  look-less false (t ∷ ts) w ws ws' at m =
      omega (arith, one_left w at, moved-steps w (running t) ws ws' m)
  look-less true (t ∷ ts) w ws ws' at m =
      omega (arith, one_left w at, moved-steps w (running t) ws ws' m)

  step-less : (p p' : ThreadPool J) → WorkerStep p p' → suc (work_left p') ≤ work_left p
  step-less p _ (looks _ w ws at m) = look-less p.stop p.tasks w p.workers ws at m
  step-less p _ (finishes _ job ws m) = omega (arith, moved-steps (running job) idle p.workers ws m)

  -- A number of steps of workers, one after the other.
  pub data Runs : ℕ → ThreadPool J → ThreadPool J → Type 0 where
    stays : (p : ThreadPool J) → Runs 0 p p
    goes_on : (k : ℕ) (p q r : ThreadPool J) → Runs k p q → WorkerStep q r → Runs (suc k) p r

  -- Every worker is out of its loop, and has left no job behind.
  pub record IsDone (p : ThreadPool J) : Type 0 where
    pub joined : AllExited p.workers
    pub all_started : p.started ≡ p.accepted

  pub record CanStep (p : ThreadPool J) : Type 0 where
    pub next : ThreadPool J
    pub step : WorkerStep p next

  can_step : (p : ThreadPool J) → has_awake p.workers ≡ true → CanStep p
  can_step p h = let found = find_awake p.workers h in go found.worker found.awake found.goes
    where
      go :
          (w : Worker J)
          → is_awake w ≡ true
          → ((w' : Worker J) → (ws : List (Worker J)) × Moves w w' p.workers ws)
          → CanStep p
      go idle e goes =
          let (ws, m) = goes (look p.stop p.tasks).0 in
          record { next = _; step = looks p idle ws (inl refl) m }
      go notified e goes =
          let (ws, m) = goes (look p.stop p.tasks).0 in
          record { next = _; step = looks p notified ws (inr refl) m }
      go (running job) e goes =
          let (ws, m) = goes idle in record { next = _; step = finishes p job ws m }
      go waiting e goes = cc
      go exited e goes = cc

  step-announced : (p p' : ThreadPool J) → WorkerStep p p' → p'.announced ≡ p.announced
  step-announced p _ (looks _ w ws at m) = refl
  step-announced p _ (finishes _ job ws m) = refl

  run-announced : (k : ℕ) (p p' : ThreadPool J) → Runs k p p' → p'.announced ≡ p.announced
  run-announced _ p _ (stays _) = refl
  run-announced _ p r (goes_on k _ q _ run step) = step-announced q r step ∙ run-announced k p q run

  run-Reachable : (n k : ℕ) (p p' : ThreadPool J) → Reachable n p → Runs k p p' → Reachable n p'
  run-Reachable n _ p _ h (stays _) = h
  run-Reachable n _ p r h (goes_on k _ q _ run step) = works q r step (run-Reachable n k p q h run)

  run-less : (k : ℕ) (p p' : ThreadPool J) → Runs k p p' → k + work_left p' ≤ work_left p
  run-less _ p _ (stays _) = omega arith
  run-less _ p r (goes_on k _ q _ run step) = omega (arith, run-less k p q run, step-less q r step)

  IsDone-or_step :
      (n : ℕ) (p : ThreadPool J) → Reachable (suc n) p → p.announced ≡ true → IsDone p ⊎ CanStep p
  IsDone-or_step n p r stopped = elim (Bool-cases (has_awake p.workers)) [
    | inl e ↦ inr (can_step p e)
    | inr e ↦ elim (Reachable-IsServed n p r).served [
      | inr awake ↦ cc
      | inl none_left ↦ inl (record {
        joined = all_exited p.workers e ((Reachable-IsServed n p r).quiet stopped);
        all_started =
            sym (append-nil p.started)
            ∙ ap (◌++◌ p.started) (sym none_left)
            ∙ Reachable-IsInOrder (suc n) p r;
      })
    ]
  ]

  -- In a pool of at least one thread whose `stop` has come to its joins, the workers do what lets it
  -- join them. A run of their steps has at most three steps for each job in the queue, two for each
  -- worker in a job and one for each other worker that is awake; and a run that can not go on ends
  -- with every worker out of its loop, and with every job that was ever accepted taken by a worker.
  pub stop_joins :
      (n k : ℕ) (p p' : ThreadPool J)
      → Reachable (suc n) p
      → p.announced ≡ true
      → Runs k p p'
      → (k ≤ work_left p) × (IsDone p' ⊎ CanStep p')
  stop_joins n k p p' r stopped run = (
    omega (arith, run-less k p p' run),
    IsDone-or_step n p' (run-Reachable (suc n) k p p' r run) (run-announced k p p' run ∙ stopped),
  )

  -- While a job is in the queue of a pool of at least one thread, stopped or not, some worker can
  -- take a step: no notification is lost.
  pub waiting_job_moves :
      (n : ℕ) (p : ThreadPool J) (job : J) (rest : List J)
      → Reachable (suc n) p
      → p.tasks ≡ job ∷ rest
      → CanStep p
  waiting_job_moves n p job rest r e = elim (Reachable-IsServed n p r).served [
    | inl none_left ↦ cc
    | inr awake ↦ can_step p awake
  ]

  abbrev IsVoid : ThreadPool J → Type 0
  IsVoid p = (p.workers ≡ []) × (p.started ≡ [])

  nobody-Moves : (w w' : Worker J) (ws ws' : List (Worker J)) → ws ≡ [] → Moves w w' ws ws' → ⊥
  nobody-Moves w w' _ _ e (here ws) = cc
  nobody-Moves w w' _ _ e (there v ws ws' m) = cc

  step-IsVoid : (p p' : ThreadPool J) → WorkerStep p p' → IsVoid p → IsVoid p'
  step-IsVoid p _ (looks _ w ws at m) h = absurd (nobody-Moves w _ p.workers ws h.0 m)
  step-IsVoid p _ (finishes _ job ws m) h =
      absurd (nobody-Moves (running job) idle p.workers ws h.0 m)

  nobody_notified : (ws ws' : List (Worker J)) → ws ≡ [] → NotifiesOne ws ws' → ws' ≡ []
  nobody_notified _ _ e (notifies ws ws' m) = absurd (nobody-Moves waiting notified ws ws' e m)
  nobody_notified _ _ e (nobody_waits ws h) = e

  Reachable-IsVoid : (p : ThreadPool J) → Reachable 0 p → IsVoid p
  unfolding new_pool new_workers enqueue set_stop notify_all
  Reachable-IsVoid _ starts = (refl, refl)
  Reachable-IsVoid _ (enqueues p func choice picked r) =
      let (workers, started) = Reachable-IsVoid p r in
      elim (Bool-cases p.stop) [
        | inl e ↦ simp e (workers, started)
        | inr e ↦ simp e (nobody_notified p.workers (choice p.workers) workers picked, started)
      ]
  Reachable-IsVoid _ (stops p r) = Reachable-IsVoid p r
  Reachable-IsVoid _ (announces p stopped r) =
      let (workers, started) = Reachable-IsVoid p r in (ap (map notify) workers, started)
  Reachable-IsVoid p' (works p _ step r) = step-IsVoid p p' step (Reachable-IsVoid p r)
  Reachable-IsVoid _ (wakes p ws m r) =
      absurd (nobody-Moves waiting notified p.workers ws (Reachable-IsVoid p r).0 m)

  -- A pool of no threads takes no job, whatever is done with it.
  pub no_threads : (p : ThreadPool J) → Reachable 0 p → p.started ≡ []
  no_threads p r = (Reachable-IsVoid p r).1
