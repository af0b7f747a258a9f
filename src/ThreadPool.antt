-- ===== src/ThreadPool.antt =====
-- `ThreadPool` (include/common/ThreadPool.hpp, src/common/ThreadPool.cpp): a queue of jobs, and
-- workers that take from it. Every stretch of code under `queue_mutex_` is one step. A job may throw:
-- the worker catches that, and goes on as after a return.
pub mod Workers
pub mod Order
pub mod Served
pub mod Progress
use gip.Prelude.{
  ℕ, zero, suc, ◌≡◌, ◌⊎◌, Bool, true, false, ◌||◌, List, [], ◌∷◌, ◌++◌, map, if◌then◌else◌,
}

-- Where a worker is: before the mutex, inside of `wait`, inside of `wait` with a notification,
-- inside of a job, or out of its loop.
pub data Worker (J : Type 0) : Type 0 where
  idle : Worker J
  waiting : Worker J
  notified : Worker J
  running : J → Worker J
  exited : Worker J

-- `accepted`, `started` and `announced` are no members: they record the jobs that `enqueue` has
-- accepted and those that a worker has taken, in their order, and that `stop` has notified all.
pub record ThreadPool (J : Type 0) : Type 0 where
  pub workers : List (Worker J)
  pub tasks : List J
  pub stop : Bool
  pub accepted : List J
  pub started : List J
  pub announced : Bool

module _ {J : Type 0} where
  unfoldable pub new_workers : ℕ → List (Worker J)
  new_workers zero = []
  new_workers (suc n) = idle ∷ new_workers n

  unfoldable pub new_pool : ℕ → ThreadPool J
  new_pool num_threads = record {
    workers = new_workers num_threads;
    tasks = [];
    stop = false;
    accepted = [];
    started = [];
    announced = false;
  }

  -- `notify_one` is the choice that the condition variable makes.
  unfoldable pub enqueue :
      (List (Worker J) → List (Worker J)) → J → ThreadPool J → ThreadPool J × Bool
  enqueue notify_one func p = if p.stop then (p, false) else (
    record p {
      tasks = p.tasks ++ func ∷ [];
      workers = notify_one p.workers;
      accepted = p.accepted ++ func ∷ [];
    },
    true,
  )

  -- `notify_all`, on one worker.
  unfoldable pub notify : Worker J → Worker J
  notify waiting = notified
  notify idle = idle
  notify notified = notified
  notify (running j) = running j
  notify exited = exited

  -- The two parts of `stop` before the joins: the one under the mutex, and `notify_all` after it.
  unfoldable pub set_stop : ThreadPool J → ThreadPool J
  set_stop p = record p { stop = true }

  unfoldable pub notify_all : ThreadPool J → ThreadPool J
  unfolding notify
  notify_all p = record p { workers = map notify p.workers; announced = true }

  -- A worker with the mutex, before the test for an empty queue or on its return into `wait`: where
  -- it goes, the queue that it leaves, and the job that it takes.
  unfoldable pub look : Bool → List J → Worker J × List J × List J
  look false [] = (waiting, [], [])
  look true [] = (exited, [], [])
  look stop (task ∷ rest) = (running task, rest, task ∷ [])

  -- One worker of a list goes from one place to another.
  pub data Moves (w w' : Worker J) : List (Worker J) → List (Worker J) → Type 0 where
    here : (ws : List (Worker J)) → Moves w w' (w ∷ ws) (w' ∷ ws)
    there :
        (v : Worker J) (ws ws' : List (Worker J))
        → Moves w w' ws ws'
        → Moves w w' (v ∷ ws) (v ∷ ws')

  abbrev pub is_waiting : Worker J → Bool
  is_waiting idle = false
  is_waiting waiting = true
  is_waiting notified = false
  is_waiting (running j) = false
  is_waiting exited = false

  abbrev pub has_waiting : List (Worker J) → Bool
  has_waiting [] = false
  has_waiting (w ∷ ws) = is_waiting w || has_waiting ws

  -- What `notify_one` may do: it notifies one waiting worker, if there is one.
  pub data NotifiesOne : List (Worker J) → List (Worker J) → Type 0 where
    notifies : (ws ws' : List (Worker J)) → Moves waiting notified ws ws' → NotifiesOne ws ws'
    nobody_waits : (ws : List (Worker J)) → has_waiting ws ≡ false → NotifiesOne ws ws

  -- A step of a worker.
  pub data WorkerStep : ThreadPool J → ThreadPool J → Type 0 where
    looks :
        (p : ThreadPool J) (w : Worker J) (ws : List (Worker J))
        → (w ≡ idle) ⊎ (w ≡ notified)
        → Moves w (look p.stop p.tasks).0 p.workers ws
        → WorkerStep p (record p {
          workers = ws;
          tasks = (look p.stop p.tasks).1;
          started = p.started ++ (look p.stop p.tasks).2;
        })
    finishes :
        (p : ThreadPool J) (job : J) (ws : List (Worker J))
        → Moves (running job) idle p.workers ws
        → WorkerStep p (record p { workers = ws })

  -- The pools that a pool of some number of threads can become. A worker may also wake up from `wait`
  -- with no notification.
  pub data Reachable (num_threads : ℕ) : ThreadPool J → Type 0 where
    starts : Reachable num_threads (new_pool num_threads)
    enqueues :
        (p : ThreadPool J) (func : J) (notify_one : List (Worker J) → List (Worker J))
        → NotifiesOne p.workers (notify_one p.workers)
        → Reachable num_threads p
        → Reachable num_threads (enqueue notify_one func p).0
    stops : (p : ThreadPool J) → Reachable num_threads p → Reachable num_threads (set_stop p)
    announces :
        (p : ThreadPool J)
        → p.stop ≡ true
        → Reachable num_threads p
        → Reachable num_threads (notify_all p)
    works :
        (p p' : ThreadPool J) → WorkerStep p p' → Reachable num_threads p → Reachable num_threads p'
    wakes :
        (p : ThreadPool J) (ws : List (Worker J))
        → Moves waiting notified p.workers ws
        → Reachable num_threads p
        → Reachable num_threads (record p { workers = ws })
