-- ===== src/Batch/Selection.antt =====
-- What `StrategyBatch::select` emits.
use mathlib.Core.List.{append-nil, append_assoc}
use gip.Prelude.{
  ℕ, zero, suc, String, ◌+◌, ◌<◌, ◌≡◌, refl, ap, ◌∙◌, ◌⊎◌, inl, inr, true, false, Option, none,
  some, List, [], ◌∷◌, ◌++◌, length, length-append, take, drop, is_empty, lt→ltb, All, Bool-cases,
  u64, arith,
}
use gip.Models.{Task, DispatchUnit, max_throughput}
use gip.Batch.{ModelQueue, Windows, is_ready, fill, select, batch_unit}

-- The loop takes as many tasks from the front as the unit still has room for.
fill_room :
    (m k : ℕ) (unit q : List Task)
    → m ≡ length unit + k
    → fill m unit q ≡ (unit ++ take k q, drop k q)
unfolding fill
fill_room m zero unit [] e = ground (arith, append-nil unit)
fill_room m (suc k) unit [] e = ground (arith, append-nil unit)
fill_room m zero unit (t ∷ ts) e = ground (arith, append-nil unit)
fill_room m (suc k) unit (t ∷ ts) e = rw (lt→ltb (length unit) m (omega arith)) (
    fill_room m k (unit ++ t ∷ []) ts (omega (arith, length-append unit (t ∷ [])))
    ∙ ap (λ l. (l, drop k ts)) (append_assoc unit (t ∷ []) (take k ts)))

pub fill_lem : (m : ℕ) (q : List Task) → fill m [] q ≡ (take m q, drop m q)
fill_lem m q = fill_room m m [] q (omega arith)

abbrev pub dispatched : ModelQueue → ModelQueue
dispatched q = record q {
  tasks = drop q.max_batch_size q.tasks;
  total_dispatched = u64 (q.total_dispatched + length (take q.max_batch_size q.tasks));
}

abbrev pub AllIdle : ℕ → Windows → Type 0
AllIdle now queues = All (λ w. is_ready now w.1 ≡ false) queues

abbrev pub HasRoom : Windows → Type 0
HasRoom queues = All (λ w. 0 < w.1.max_batch_size) queues

-- `u` holds the oldest tasks of the first ready window, as many as a batch may hold, and only that
-- window changes.
pub record Emits (now : ℕ) (queues queues' : Windows) (u : DispatchUnit) : Type 0 where
  pub before : Windows
  pub name : String
  pub q : ModelQueue
  pub after : Windows
  pub window : queues ≡ before ++ (name, q) ∷ after
  pub idle : AllIdle now before
  pub ready : is_ready now q ≡ true
  pub nonempty : is_empty u.tasks ≡ false
  pub unit : u ≡ record {
    model_name = name;
    strategy = max_throughput;
    tasks = take q.max_batch_size q.tasks;
  }
  pub left : queues' ≡ before ++ (name, dispatched q) ∷ after

abbrev pub Selected : ℕ → Windows → Windows × Option DispatchUnit → Type 0
Selected now queues r =
    ((u : DispatchUnit) × (r.1 ≡ some u) × Emits now queues r.0 u)
    ⊎ (AllIdle now queues × (r ≡ (queues, none)))

take_pos : (m : ℕ) (ts : List Task) → 0 < m → is_empty ts ≡ false → is_empty (take m ts) ≡ false
take_pos zero ts h e = absurd (omega arith)
take_pos (suc m) [] h e = e
take_pos (suc m) (t ∷ ts) h e = refl

pub ready_nonempty : (now : ℕ) (q : ModelQueue) → is_ready now q ≡ true → is_empty q.tasks ≡ false
unfolding is_ready
ready_nonempty now q r = ground arith

take_nonempty :
    (now : ℕ) (q : ModelQueue)
    → 0 < q.max_batch_size
    → is_ready now q ≡ true
    → is_empty (take q.max_batch_size q.tasks) ≡ false
take_nonempty now q h r = take_pos q.max_batch_size q.tasks h (ready_nonempty now q r)

select_here :
    (now : ℕ) (name : String) (q : ModelQueue) (rest : Windows)
    → 0 < q.max_batch_size
    → is_ready now q ≡ true
    → Selected now ((name, q) ∷ rest) (select now ((name, q) ∷ rest))
unfolding select batch_unit
select_here now name q rest h r =
    rw (fill_lem q.max_batch_size q.tasks, r, take_nonempty now q h r)
      (inl (
        batch_unit name (take q.max_batch_size q.tasks),
        refl,
        record {
          before = [];
          name = name;
          q = q;
          after = rest;
          window = refl;
          idle = tt;
          ready = r;
          nonempty = take_nonempty now q h r;
          unit = refl;
          left = refl;
        },
      ))

Emits-cons :
    (now : ℕ) (name : String) (q : ModelQueue) {rest rest' : Windows} {u : DispatchUnit}
    → is_ready now q ≡ false
    → Emits now rest rest' u
    → Emits now ((name, q) ∷ rest) ((name, q) ∷ rest') u
Emits-cons now name q r e = record {
  before = (name, q) ∷ e.before;
  name = e.name;
  q = e.q;
  after = e.after;
  window = ap (◌∷◌ (name, q)) e.window;
  idle = (r, e.idle);
  ready = e.ready;
  nonempty = e.nonempty;
  unit = e.unit;
  left = ap (◌∷◌ (name, q)) e.left;
}

select_later :
    (now : ℕ) (name : String) (q : ModelQueue) (rest : Windows)
    → is_ready now q ≡ false
    → Selected now rest (select now rest)
    → Selected now ((name, q) ∷ rest) (select now ((name, q) ∷ rest))
unfolding select
select_later now name q rest r (inl (u, hit, e)) = rw r (inl (u, hit, Emits-cons now name q r e))
select_later now name q rest r (inr (idle, same)) = rw r (inr ((refl, idle), ground arith))

-- With room for at least one task in every batch, `select` emits the oldest tasks of the first
-- ready window, as many as a batch may hold and at least one, and leaves every other window as it
-- was; or no window is ready, it emits nothing, and changes nothing.
pub select-Selected :
    (now : ℕ) (queues : Windows) → HasRoom queues → Selected now queues (select now queues)
unfolding select
select-Selected now [] h = inr (tt, refl)
select-Selected now ((name, q) ∷ rest) h = elim (Bool-cases (is_ready now q)) [
  | inl r ↦ select_here now name q rest h.0 r
  | inr r ↦ select_later now name q rest r (select-Selected now rest h.1)
]
