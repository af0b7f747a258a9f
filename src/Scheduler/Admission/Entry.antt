-- ===== src/Scheduler/Admission/Entry.antt =====
-- Where `admit` puts a task: the strategy that is found, whether it welcomes the task, and what
-- waits when it has taken it.
use mathlib.Core.List.Perm
use mathlib.Core.List.{Perm, perm_middle}
use mathlib.Core.Option.{some_inj}
use gip.Prelude.{
  ◌≡◌, not, ◌||◌, nat_beq, ltb, Option, none, some, Bool, true, false, inl, inr, ◌==◌, string_eq,
  Bool-cases, arith, [], ◌∷◌,
}
use gip.Prelude.Dict.{Dict, lookup, insert}
use gip.Models.{Task, ScheduleStrategy, schedule_strategy_eq}
use gip.Policy.{SchedulingContext}
use gip.Strategy
use gip.Strategy.{Strategy}
use gip.Strategy.Revocation.{waiting}
use gip.Scheduler.Cancellation.Search.{all_waiting}
use gip.Scheduler.State.{find_strategy}
use gip.Scheduler.Admission.{must_drop}

pub find_strategy-lookup :
    (kind key : ScheduleStrategy) (strat : Strategy) (m : Dict ScheduleStrategy Strategy)
    → find_strategy kind m ≡ some (key, strat)
    → lookup key m ≡ some strat
unfolding find_strategy
find_strategy-lookup kind key strat m e = ground arith

-- A strategy in which one task more waits takes the place of the old one.
pub waiting-insert :
    (key : ScheduleStrategy) (t : Task) (old strat : Strategy) (m : Dict ScheduleStrategy Strategy)
    → lookup key m ≡ some old
    → Perm (waiting strat) (t ∷ waiting old)
    → Perm (all_waiting (insert key strat m)) (t ∷ all_waiting m)
unfolding lookup insert all_waiting
waiting-insert key t old strat [] e p = cc
waiting-insert key t old strat ((k, v) ∷ m) e p = elim (Bool-cases (k == key)) [
  | inl hit ↦
      let same : some v ≡ some old = rw hit at e in
      rw (hit, some_inj.0 same) (Perm.append_right (all_waiting m) p)
  | inr miss ↦
      let later : lookup key m ≡ some old = rw miss at e in
      rw miss (
        Perm.trans (Perm.append_left (waiting v) (waiting-insert key t old strat m later p))
          (perm_middle (waiting v) (all_waiting m)))
]

-- A strategy was found, and the configuration does not drop, sets no limit, or sets one that the
-- waiting tasks have not reached.
abbrev pub welcomes : SchedulingContext → Option (ScheduleStrategy × Strategy) → Bool
welcomes context none = false
welcomes context (some (key, strat)) = elim context.model_meta.conf [
  | none ↦ true
  | some conf ↦
      not conf.drop_if_queue_full
      || nat_beq conf.max_queue_size 0
      || ltb (Strategy.pending_task_count strat) conf.max_queue_size
]

pub welcomes-must_drop :
    (context : SchedulingContext) (key : ScheduleStrategy) (strat : Strategy)
    → welcomes context (some (key, strat)) ≡ not (must_drop context strat)
unfolding must_drop
welcomes-must_drop context key strat = ground arith
