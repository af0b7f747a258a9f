-- ===== src/Scheduler/Places/Steps.antt =====
-- The single steps of `Scheduler::execute`, against its definition in one piece.
use gip.Prelude.{
  String, ◌≡◌, ◌⊎◌, refl, none, sym, subst, inl, inr, List-cases, List, [], ◌∷◌, ◌++◌,
}
use gip.Models.{Task, Outcome, ongoing, done, throws, null_dereference, self_deadlock, request_id}
use gip.Backends.{IBackend}
use gip.Scheduler.State.{Scheduler, cell_of, set_operation, put_cell}
use gip.Scheduler.Execution.{execute_task, execute_tasks, execute, run_job}
use gip.Scheduler.Execution.Endings.{
  Ending, Reached, at_start, before_infer, in_infer, past_infer, execute_task-Ends,
}
use gip.Scheduler.Places.Work.{Works, takes, marks, answers, ends, counts}

Outcome-cases :
    (o : Outcome (Unit {0}))
    → (o ≡ done tt)
      ⊎ ((message : String) × (o ≡ throws message))
      ⊎ (o ≡ null_dereference)
      ⊎ (o ≡ self_deadlock)
Outcome-cases (done _) = inl refl
Outcome-cases (throws message) = inr (inl (message, refl))
Outcome-cases null_dereference = inr (inr (inl refl))
Outcome-cases self_deadlock = inr (inr (inr refl))

module _ {B : Type 0} (during : Scheduler B → Scheduler B) where
  -- Steps of a worker, between which the other threads may do `during`.
  pub data Walk : List Task → Scheduler B → List Task → Scheduler B → Type 0 where
    stays : (taken : List Task) (s : Scheduler B) → Walk taken s taken s
    walks :
        (taken taken' taken'' : List Task) (s s' s'' : Scheduler B)
        → Works taken s taken' s'
        → Walk taken' s' taken'' s''
        → Walk taken s taken'' s''
    meanwhile :
        (taken taken' : List Task) (s s' : Scheduler B)
        → Walk taken (during s) taken' s'
        → Walk taken s taken' s'

  reaches :
      (t : Task) (taken taken' : List Task) (s b s' : Scheduler B)
      → Reached during t s b
      → Walk (t ∷ taken) b taken' s'
      → Walk (t ∷ taken) s taken' s'
  reaches t taken taken' s b s' reached rest = reached_from reached
    where
      marked : Scheduler B
      marked = set_operation (request_id t) ongoing (cell_of t s).response none s

      marks_first : Walk (t ∷ taken) marked taken' s' → Walk (t ∷ taken) s taken' s'
      marks_first = walks (t ∷ taken) (t ∷ taken) taken' s marked s' (marks [] taken t s)

      there : (x : Scheduler B) → b ≡ x → Walk (t ∷ taken) x taken' s'
      there x e = subst (λ y. Walk (t ∷ taken) y taken' s') e rest

      reached_from : Reached during t s b → Walk (t ∷ taken) s taken' s'
      reached_from (at_start e) = there s e
      reached_from (before_infer e) = marks_first (there marked e)
      reached_from (in_infer e) =
          marks_first (meanwhile (t ∷ taken) taken' marked s' (there (during marked) e))
      reached_from (past_infer c e) = marks_first (
          meanwhile (t ∷ taken) taken' marked s' (
            walks (t ∷ taken) (t ∷ taken) taken' (during marked) (put_cell t c (during marked)) s'
              (answers [] taken t c (during marked)) (there (put_cell t c (during marked)) e)))

module _ {B : Type 0} ⦃i : IBackend B⦄ (during : Scheduler B → Scheduler B) where
  execute_task-Walk :
      (t : Task) (taken taken' : List Task) (s s' : Scheduler B)
      → (execute_task during t s).1 ≡ done tt
      → Walk during taken (execute_task during t s).0 taken' s'
      → Walk during (t ∷ taken) s taken' s'
  execute_task-Walk t taken taken' s s' e rest =
      let after = (execute_task during t s).0 in
      let (b, reached, ending) = execute_task-Ends during t s in
      reaches during t taken taken' s b s' reached (
        walks (t ∷ taken) taken taken' b after s'
          (ends [] taken t b after (subst (λ o. Ending t b (after, o)) e ending)) rest)

  first_returned :
      (t : Task) (ts : List Task) (s : Scheduler B)
      → (execute_tasks during (t ∷ ts) s).1 ≡ done tt
      → (execute_task during t s).1 ≡ done tt
  unfolding execute_tasks
  first_returned t ts s e = elim (Outcome-cases (execute_task during t s).1) [
    | inl returned ↦ returned
    | inr (inl (message, threw)) ↦ cc
    | inr (inr (inl null)) ↦ cc
    | inr (inr (inr locked)) ↦ cc
  ]

  execute_tasks-Walk :
      (ts taken taken' : List Task) (s s' : Scheduler B)
      → (execute_tasks during ts s).1 ≡ done tt
      → Walk during taken (execute_tasks during ts s).0 taken' s'
      → Walk during (ts ++ taken) s taken' s'
  unfolding execute_tasks
  execute_tasks-Walk [] taken taken' s s' e rest = rest
  execute_tasks-Walk (t ∷ ts) taken taken' s s' e rest =
      let first = first_returned t ts s e in
      execute_task-Walk t (ts ++ taken) taken' s s' first (
        execute_tasks-Walk ts taken taken' (execute_task during t s).0 s'
          (rw (first, execute_tasks) at e) (rw (first, execute_tasks) at rest))

  -- A job that is executed in one piece, and that throws nothing, is a sequence of single steps and
  -- of what happens meanwhile, after which no more tasks are in hand than before.
  run_job-Walk :
      (taken : List Task) (s : Scheduler B)
      → (run_job during s).1 ≡ done tt
      → Walk during taken s taken (run_job during s).0
  unfolding run_job execute
  run_job-Walk taken s e = elim (List-cases s.thread_pool) [
    | inl empty ↦
        let ran : run_job during s ≡ (s, done tt) = cc in
        subst (λ r. Walk during taken s taken r.0) (sym ran) (stays taken s)
    | inr (unit, rest, one) ↦
        let popped = record s { thread_pool = rest } in
        let ran = (execute_tasks during unit.tasks popped).0 in
        walks taken (unit.tasks ++ taken) taken s popped (run_job during s).0
          (takes taken unit rest s one)
          (rw (one, run_job)
            (execute_tasks-Walk unit.tasks taken taken popped _ (rw (one, run_job) at e)
              (walks taken taken taken ran _ _ (counts taken ran) (stays taken _))))
  ]
