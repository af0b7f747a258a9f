-- ===== src/ThreadPool/Order.antt =====
-- In which order a `ThreadPool` runs its jobs.
use mathlib.Core.List.{append_assoc}
use gip.Prelude.{
  ℕ, ◌≡◌, refl, sym, ap, ◌∙◌, Bool, true, false, Bool-cases, inl, inr, List, [], ◌∷◌, ◌++◌,
}
use gip.ThreadPool.{
  ThreadPool, new_pool, enqueue, set_stop, notify_all, look, WorkerStep, looks, finishes, Reachable,
  starts, enqueues, stops, announces, works, wakes,
}

module _ {J : Type 0} where
  abbrev pub IsInOrder : ThreadPool J → Type 0
  IsInOrder p = p.started ++ p.tasks ≡ p.accepted

  look-split : (stop : Bool) (tasks : List J) → (look stop tasks).2 ++ (look stop tasks).1 ≡ tasks
  unfolding look
  look-split false [] = refl
  look-split true [] = refl
  look-split false (t ∷ ts) = refl
  look-split true (t ∷ ts) = refl

  step-IsInOrder : (p p' : ThreadPool J) → WorkerStep p p' → IsInOrder p → IsInOrder p'
  step-IsInOrder p _ (looks _ w ws at moves) h =
      append_assoc p.started (look p.stop p.tasks).2 (look p.stop p.tasks).1
      ∙ ap (◌++◌ p.started) (look-split p.stop p.tasks)
      ∙ h
  step-IsInOrder p _ (finishes _ job ws moves) h = h

  -- In every pool that is reached, whatever the number of threads, the jobs that workers have taken,
  -- followed by those in the queue, are the jobs that `enqueue` has accepted, in their order: each
  -- is taken at most once, first come first served, and none is lost.
  pub Reachable-IsInOrder : (n : ℕ) (p : ThreadPool J) → Reachable n p → IsInOrder p
  unfolding new_pool enqueue set_stop notify_all
  Reachable-IsInOrder n _ starts = refl
  Reachable-IsInOrder n _ (enqueues p func choice picked r) = elim (Bool-cases p.stop) [
    | inl stopped ↦ simp stopped (Reachable-IsInOrder n p r)
    | inr open_ ↦ simp open_ (
        sym (append_assoc p.started p.tasks (func ∷ []))
        ∙ ap (λ l. l ++ func ∷ []) (Reachable-IsInOrder n p r))
  ]
  Reachable-IsInOrder n _ (stops p r) = Reachable-IsInOrder n p r
  Reachable-IsInOrder n _ (announces p stopped r) = Reachable-IsInOrder n p r
  Reachable-IsInOrder n p' (works p _ step r) = step-IsInOrder p p' step (Reachable-IsInOrder n p r)
  Reachable-IsInOrder n _ (wakes p ws moves r) = Reachable-IsInOrder n p r
