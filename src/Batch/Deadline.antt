-- ===== src/Batch/Deadline.antt =====
-- How `StrategyBatch::nextReadyIn` and `select` agree on when a window is ready.
use gip.Prelude.{ℕ, ◌+◌, ◌-◌, ◌*◌, ◌/◌, ◌≤◌, ◌<◌, ◌≡◌, ◌⊎◌, true, List, [], ◌∷◌, All, min}
use gip.Prelude.Int.{ℤ, pos}
use gip.Models.{Task}
use gip.Batch.{ModelQueue, Windows, is_ready}
use gip.Batch.Selection.{AllIdle}

-- Every task at the front of a window was built before the clock was read.
abbrev pub FrontBuilt : ℕ → List Task → Type 0
FrontBuilt now [] = Unit {0}
FrontBuilt now (t ∷ ts) = t.enqueued_at ≤ now

abbrev pub AllBuilt : ℕ → Windows → Type 0
AllBuilt now queues = All (λ w. FrontBuilt now w.1.tasks) queues

-- The least wait after a window that is not ready.
abbrev wait_after : ℕ → ModelQueue → ℕ → ℕ
wait_after now q w = elim q.tasks [
  | [] ↦ w
  | front ∷ rest ↦ min w (q.batch_timeout_ms - (now - front.enqueued_at) / 1000000)
]

abbrev pub SomeReady : ℕ → Windows → Type 0
SomeReady now [] = ⊥
SomeReady now ((name, q) ∷ rest) = (is_ready now q ≡ true) ⊎ SomeReady now rest

-- What a wait of `d` milliseconds means at the time `now`.
pub record Waits (now w : ℕ) (queues : Windows) (d : ℕ) : Type 0 where
  pub positive : 0 < d
  pub capped : d ≤ w
  pub idle : AllIdle now queues
  pub due : (d ≡ w) ⊎ SomeReady (now + d * 1000000) queues
  pub not_before :
      (now' : ℕ) → now ≤ now' → now' + 1000000 ≤ now + d * 1000000 → AllIdle now' queues

abbrev pub Answer : ℕ → ℕ → Windows → ℤ → Type 0
Answer now w queues r =
    ((r ≡ pos 0) × SomeReady now queues) ⊎ ((d : ℕ) × (r ≡ pos d) × Waits now w queues d)
