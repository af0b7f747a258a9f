-- ===== src/Scheduler/Dispatch/Conservation.antt =====
-- The selection of a unit moves waiting tasks into the unit, and loses none.
use mathlib.Core.List.Perm
use mathlib.Core.List.{Perm, append_assoc}
use gip.Prelude.{
  ℕ, ◌≡◌, refl, sym, subst, inl, inr, Option, none, some, [], ◌∷◌, ◌++◌, is_empty, nil_of_is_empty,
  Bool-cases, false, if◌then◌else◌,
}
use gip.Prelude.Dict.{Dict}
use gip.Prelude.Perms.{swap_front}
use gip.Models.{DispatchUnit, ScheduleStrategy, Outcome, done, ◌>>=◌}
use gip.ModelManager.Lifecycle.{Returned}
use gip.Batch.Conservation.{unit_tasks}
use gip.Strategy
use gip.Strategy.{Strategy}
use gip.Strategy.Revocation.{waiting}
use gip.Strategy.Conservation.{select-perm}
use gip.Scheduler.State.{Scheduler}
use gip.Scheduler.Cancellation.Search.{all_waiting}
use gip.Scheduler.Dispatch.{lock_strategies, snapshot_in, select_from}

-- It returns, and what waited is afterwards in the unit, or still waits.
abbrev Moved :
    Dict ScheduleStrategy Strategy
    → Outcome (Dict ScheduleStrategy Strategy × Option DispatchUnit)
    → Type 0
Moved m o =
    (r : Dict ScheduleStrategy Strategy × Option DispatchUnit) × (o ≡ done r)
    × Perm (all_waiting m) (unit_tasks r.1 ++ all_waiting r.0)

module _ {B : Type 0} (now : ℕ) (s : Scheduler B) where
  -- After a strategy that emits nothing.
  passed_over :
      (kind : ScheduleStrategy) (strat : Strategy) (rest : Dict ScheduleStrategy Strategy)
      → Perm (waiting strat) (waiting (Strategy.select now strat).0)
      → Moved rest (select_from now s rest)
      → Moved ((kind, strat) ∷ rest) (
          select_from now s rest >>= (λ r. done ((kind, (Strategy.select now strat).0) ∷ r.0, r.1)))
  unfolding all_waiting
  passed_over kind strat rest same (r, e, moved) = (
    ((kind, (Strategy.select now strat).0) ∷ r.0, r.1),
    rw e refl,
    Perm.trans (Perm.append same moved)
        (swap_front (waiting (Strategy.select now strat).0) (unit_tasks r.1) (all_waiting r.0)),
  )

  select_from-Moved :
      s.strategies_mutex ≡ false
      → (m : Dict ScheduleStrategy Strategy) → Moved m (select_from now s m)
  unfolding select_from snapshot_in lock_strategies all_waiting
  select_from-Moved free [] = (([], none), refl, Perm.rfl)
  select_from-Moved free ((kind, strat) ∷ rest) =
      rw free (
        selected (select_from-Moved free rest) (Strategy.select now strat).1
          (select-perm now strat))
    where
      after : Strategy
      after = (Strategy.select now strat).0

      selected :
          Moved rest (select_from now s rest)
          → (unit : Option DispatchUnit) → Perm (waiting strat) (unit_tasks unit ++ waiting after)
          → Moved ((kind, strat) ∷ rest) (elim unit [
            | some u ↦
                if is_empty u.tasks
                then select_from now s rest >>= (λ r. done ((kind, after) ∷ r.0, r.1))
                else done ((kind, after) ∷ rest, some u)
            | none ↦ select_from now s rest >>= (λ r. done ((kind, after) ∷ r.0, r.1))
          ])
      selected other none p = passed_over kind strat rest p other
      selected other (some u) p = elim (Bool-cases (is_empty u.tasks)) [
        | inl e ↦
            let same : Perm (waiting strat) (waiting after) = rw (nil_of_is_empty u.tasks e) at p in
            rw e (passed_over kind strat rest same other)
        | inr e ↦ rw e (
          ((kind, after) ∷ rest, some u),
          refl,
          rw (← append_assoc u.tasks (waiting after) (all_waiting rest))
              (Perm.append_right (all_waiting rest) p),
        )
      ]

  -- Whether its thread holds the mutex or not: what a selection returns.
  pub select_from-perm :
      (m : Dict ScheduleStrategy Strategy)
      → Returned
          (λ r. Perm (all_waiting m) (unit_tasks r.1 ++ all_waiting r.0))
          (select_from now s m)
  unfolding select_from snapshot_in lock_strategies
  select_from-perm [] = Perm.rfl
  select_from-perm ((kind, strat) ∷ rest) = elim (Bool-cases s.strategies_mutex) [
    | inl held ↦ rw (held, select_from) tt
    | inr free ↦
        let (r, e, moved) = select_from-Moved free ((kind, strat) ∷ rest) in
        subst
          (Returned
            (λ q. Perm (all_waiting ((kind, strat) ∷ rest)) (unit_tasks q.1 ++ all_waiting q.0)))
          (sym e) moved
  ]
