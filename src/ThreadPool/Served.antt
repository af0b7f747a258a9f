-- ===== src/ThreadPool/Served.antt =====
-- An invariant of a `ThreadPool`: whoever has work to do is awake.
use gip.Prelude.{
  ℕ, zero, suc, ◌≡◌, refl, sym, subst, ◌⊎◌, inl, inr, Bool, true, false, Bool-cases, List, [], ◌∷◌,
  ◌++◌, map, arith,
}
use gip.ThreadPool.{
  Worker, idle, waiting, notified, running, exited, ThreadPool, new_pool, new_workers, enqueue,
  set_stop, notify_all, notify, look, Moves, here, there, has_waiting, NotifiesOne, notifies,
  nobody_waits, WorkerStep, looks, finishes, Reachable, starts, enqueues, stops, announces, works,
  wakes,
}
use gip.ThreadPool.Workers.{
  is_awake, has_awake, has_exited, moved-awake, moved-waiting, moved-exited, notify-waiting,
  notify-awake,
}

module _ {J : Type 0} where
  abbrev pub has_worker : List (Worker J) → Bool
  has_worker [] = false
  has_worker (w ∷ ws) = true

  -- A waiting job has a worker that is awake, no worker waits in a pool whose stop is announced, and
  -- none is out of its loop in one that is not stopped.
  pub record IsServed (workers : List (Worker J)) (tasks : List J) (stop announced : Bool)
      : Type 0 where
    pub served : (tasks ≡ []) ⊎ (has_awake workers ≡ true)
    pub quiet : announced ≡ true → has_waiting workers ≡ false
    pub present : stop ≡ false → has_exited workers ≡ false
    pub ordered : announced ≡ true → stop ≡ true
    pub crewed : has_worker workers ≡ true

  abbrev pub PoolServed : ThreadPool J → Type 0
  PoolServed p = IsServed p.workers p.tasks p.stop p.announced

  moved-crewed :
      (w w' : Worker J) (ws ws' : List (Worker J)) → Moves w w' ws ws' → has_worker ws' ≡ true
  moved-crewed w w' _ _ (here ws) = refl
  moved-crewed w w' _ _ (there v ws ws' m) = refl

  awake_move :
      (w w' : Worker J) (ws ws' : List (Worker J)) (before after : List J) (stop announced : Bool)
      → is_awake w' ≡ true
      → Moves w w' ws ws'
      → IsServed ws before stop announced
      → IsServed ws' after stop announced
  awake_move w w' ws ws' before after stop announced awake m h = record {
    served = inr (moved-awake w w' ws ws' awake m);
    quiet = λ e. moved-waiting w w' ws ws' (ground arith) m (h.quiet e);
    present = λ e. moved-exited w w' ws ws' (ground arith) m (h.present e);
    ordered = h.ordered;
    crewed = moved-crewed w w' ws ws' m;
  }

  look-IsServed :
      (stop announced : Bool) (tasks : List J) (w : Worker J) (ws ws' : List (Worker J))
      → Moves w (look stop tasks).0 ws ws'
      → IsServed ws tasks stop announced
      → IsServed ws' (look stop tasks).1 stop announced
  unfolding look
  look-IsServed false announced (t ∷ ts) w ws ws' m h =
      awake_move w (running t) ws ws' _ _ false announced refl m h
  look-IsServed true announced (t ∷ ts) w ws ws' m h =
      awake_move w (running t) ws ws' _ _ true announced refl m h
  look-IsServed false announced [] w ws ws' m h = record {
    served = inl refl;
    quiet = λ e. let stopped = h.ordered e in cc;
    present = λ e. moved-exited w waiting ws ws' refl m (h.present e);
    ordered = h.ordered;
    crewed = moved-crewed w waiting ws ws' m;
  }
  look-IsServed true announced [] w ws ws' m h = record {
    served = inl refl;
    quiet = λ e. moved-waiting w exited ws ws' refl m (h.quiet e);
    present = λ e. cc;
    ordered = h.ordered;
    crewed = moved-crewed w exited ws ws' m;
  }

  step-IsServed : (p p' : ThreadPool J) → WorkerStep p p' → PoolServed p → PoolServed p'
  step-IsServed p _ (looks _ w ws at m) h =
      look-IsServed p.stop p.announced p.tasks w p.workers ws m h
  step-IsServed p _ (finishes _ job ws m) h =
      awake_move (running job) idle p.workers ws p.tasks p.tasks p.stop p.announced refl m h

  someone_awake :
      (ws : List (Worker J))
      → has_waiting ws ≡ false
      → has_exited ws ≡ false
      → has_worker ws ≡ true
      → has_awake ws ≡ true
  someone_awake ws a b c = ground arith

  notified-IsServed :
      (ws ws' : List (Worker J)) (before after : List J) (stop announced : Bool)
      → stop ≡ false
      → NotifiesOne ws ws'
      → IsServed ws before stop announced
      → IsServed ws' after stop announced
  notified-IsServed _ _ before after stop announced e (notifies ws ws' m) h =
      awake_move waiting notified ws ws' before after stop announced refl m h
  notified-IsServed _ _ before after stop announced e (nobody_waits ws none_waits) h = record {
    served = inr (someone_awake ws none_waits (h.present e) h.crewed);
    quiet = λ t. let stopped = h.ordered t in cc;
    present = h.present;
    ordered = h.ordered;
    crewed = h.crewed;
  }

  enqueue-IsServed :
      (p : ThreadPool J) (func : J) (choice : List (Worker J) → List (Worker J))
      → NotifiesOne p.workers (choice p.workers)
      → PoolServed p
      → PoolServed (enqueue choice func p).0
  unfolding enqueue
  enqueue-IsServed p func choice picked h = elim (Bool-cases p.stop) [
    | inl e ↦ let same : (enqueue choice func p).0 ≡ p = simp e in subst PoolServed (sym same) h
    | inr e ↦
        let added : ThreadPool J = record p {
          tasks = p.tasks ++ func ∷ [];
          workers = choice p.workers;
          accepted = p.accepted ++ func ∷ [];
        } in
        let same : (enqueue choice func p).0 ≡ added = simp e in
        subst PoolServed (sym same)
          (notified-IsServed p.workers (choice p.workers) p.tasks _ p.stop p.announced e picked h)
  ]

  announced-IsServed :
      (ws : List (Worker J)) (tasks : List J) (stop announced : Bool)
      → stop ≡ true
      → IsServed ws tasks stop announced
      → IsServed (map notify ws) tasks stop true
  announced-IsServed ws tasks stop announced stopped h = record {
    served = elim h.served [ inl e ↦ inl e | inr e ↦ inr (notify-awake ws e) ];
    quiet = λ e. notify-waiting ws;
    present = λ e. cc;
    ordered = λ e. stopped;
    crewed = mapped-crewed ws h.crewed;
  }
    where
      mapped-crewed :
          (ws : List (Worker J)) → has_worker ws ≡ true → has_worker (map notify ws) ≡ true
      mapped-crewed [] c = c
      mapped-crewed (w ∷ ws) c = refl

  new-present : (n : ℕ) (ws : List (Worker J)) → ws ≡ new_workers n → has_exited ws ≡ false
  unfolding new_workers
  new-present zero ws e = rw e refl
  new-present (suc n) ws e = rw e (new-present n (new_workers n) refl)

  pub Reachable-IsServed : (n : ℕ) (p : ThreadPool J) → Reachable (suc n) p → PoolServed p
  unfolding new_pool new_workers enqueue set_stop notify_all
  Reachable-IsServed n _ starts = record {
    served = inl refl;
    quiet = λ e. cc;
    present = λ e. new-present n (new_workers n) refl;
    ordered = λ e. cc;
    crewed = refl;
  }
  Reachable-IsServed n _ (enqueues p func choice picked r) =
      enqueue-IsServed p func choice picked (Reachable-IsServed n p r)
  Reachable-IsServed n _ (stops p r) =
      let h = Reachable-IsServed n p r in
      record {
        served = h.served;
        quiet = h.quiet;
        present = λ e. cc;
        ordered = λ e. refl;
        crewed = h.crewed;
      }
  Reachable-IsServed n _ (announces p stopped r) =
      announced-IsServed p.workers p.tasks p.stop p.announced stopped (Reachable-IsServed n p r)
  Reachable-IsServed n p' (works p _ step r) = step-IsServed p p' step (Reachable-IsServed n p r)
  Reachable-IsServed n _ (wakes p ws m r) =
      awake_move waiting notified p.workers ws p.tasks p.tasks p.stop p.announced refl m
        (Reachable-IsServed n p r)
