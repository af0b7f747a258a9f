-- ===== src/Scheduler/Cancellation/Search.antt =====
-- The search of `cancelTask` through all strategies.
use gip.Prelude.{
  String, ◌≡◌, refl, ◌≢◌, ◌⊎◌, inl, inr, Bool, true, false, List, [], ◌∷◌, ◌++◌, arith,
}
use gip.Prelude.Dict.{Dict}
use gip.Prelude.Entries.{All-append}
use gip.Models.{
  Task, TaskCells, ScheduleStrategy, request_id, RemovesFirst, RemovesFirst-append,
  RemovesFirst-prepend, Absent,
}
use gip.Strategy
use gip.Strategy.{Strategy}
use gip.Strategy.Revocation.{waiting, RevokedIn, revoke-RevokedIn}
use gip.Scheduler.Cancellation.{revoke_all}

-- All tasks that wait, strategy after strategy.
unfoldable pub all_waiting : Dict ScheduleStrategy Strategy → List Task
all_waiting [] = []
all_waiting ((kind, strat) ∷ rest) = waiting strat ++ all_waiting rest

abbrev pub RevokedSomewhere :
    String
    → Dict ScheduleStrategy Strategy
    → TaskCells
    → Dict ScheduleStrategy Strategy × TaskCells × Bool
    → Type 0
RevokedSomewhere id m cells r =
    ((t : Task) × (r.2 ≡ true) × RemovesFirst id (all_waiting m) (all_waiting r.0) t)
    ⊎ (Absent id (all_waiting m) × (r ≡ (m, cells, false)))

search_step :
    (id : String) (kind : ScheduleStrategy) (strat : Strategy)
    (rest : Dict ScheduleStrategy Strategy) (cells : TaskCells)
    → RevokedIn id strat cells (Strategy.revoke id strat cells)
    → ((cells' : TaskCells) → RevokedSomewhere id rest cells' (revoke_all id rest cells'))
    → RevokedSomewhere id ((kind, strat) ∷ rest) cells (revoke_all id ((kind, strat) ∷ rest) cells)
unfolding revoke_all all_waiting
search_step id kind strat rest cells (inl (t, hit, removed)) other =
    rw (hit, revoke_all) (inl (t, refl, RemovesFirst-append (all_waiting rest) removed))
search_step id kind strat rest cells (inr (absent, same)) other =
    rw (same, revoke_all) (further (other cells))
  where
    further :
        RevokedSomewhere id rest cells (revoke_all id rest cells)
        → RevokedSomewhere id ((kind, strat) ∷ rest) cells (
          (kind, strat) ∷ (revoke_all id rest cells).0,
          (revoke_all id rest cells).1,
          (revoke_all id rest cells).2,
        )
    further (inl (t, hit, removed)) =
        inl (t, hit, RemovesFirst-prepend (waiting strat) absent removed)
    further (inr (others, unchanged)) = inr (
      All-append (λ u. request_id u ≢ id) (waiting strat) (all_waiting rest) absent others,
      ground arith,
    )

pub revoke_all-RevokedSomewhere :
    (id : String) (m : Dict ScheduleStrategy Strategy) (cells : TaskCells)
    → RevokedSomewhere id m cells (revoke_all id m cells)
unfolding revoke_all all_waiting
revoke_all-RevokedSomewhere id [] cells = inr (tt, refl)
revoke_all-RevokedSomewhere id ((kind, strat) ∷ rest) cells =
    search_step id kind strat rest cells (revoke-RevokedIn id strat cells)
      (revoke_all-RevokedSomewhere id rest)
