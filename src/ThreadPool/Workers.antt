-- ===== src/ThreadPool/Workers.antt =====
-- Lists of workers: what a move, a notification and a stop change.
use gip.Prelude.{
  ℕ, ◌+◌, ◌≡◌, refl, inl, inr, Bool, true, false, ◌||◌, List, [], ◌∷◌, map, arith, Bool-cases,
}
use gip.ThreadPool.{
  Worker, idle, waiting, notified, running, exited, Moves, here, there, notify, is_waiting,
  has_waiting,
}

module _ {J : Type 0} where
  -- A worker that will come back to the mutex.
  abbrev pub is_awake : Worker J → Bool
  is_awake idle = true
  is_awake waiting = false
  is_awake notified = true
  is_awake (running j) = true
  is_awake exited = false

  abbrev pub has_awake : List (Worker J) → Bool
  has_awake [] = false
  has_awake (w ∷ ws) = is_awake w || has_awake ws

  abbrev pub is_exited : Worker J → Bool
  is_exited idle = false
  is_exited waiting = false
  is_exited notified = false
  is_exited (running j) = false
  is_exited exited = true

  abbrev pub has_exited : List (Worker J) → Bool
  has_exited [] = false
  has_exited (w ∷ ws) = is_exited w || has_exited ws

  -- How many steps a worker still takes by itself at most, with no job to come.
  abbrev pub steps_left : Worker J → ℕ
  steps_left idle = 1
  steps_left waiting = 0
  steps_left notified = 1
  steps_left (running j) = 2
  steps_left exited = 0

  abbrev pub all_steps_left : List (Worker J) → ℕ
  all_steps_left [] = 0
  all_steps_left (w ∷ ws) = steps_left w + all_steps_left ws

  -- Every worker is out of its loop, so that its thread can be joined.
  abbrev pub AllExited : List (Worker J) → Type 0
  AllExited [] = Unit
  AllExited (w ∷ ws) = (w ≡ exited) × AllExited ws

  pub moved-awake :
      (w w' : Worker J) (ws ws' : List (Worker J))
      → is_awake w' ≡ true
      → Moves w w' ws ws'
      → has_awake ws' ≡ true
  moved-awake w w' _ _ h (here ws) = rw h refl
  moved-awake w w' _ _ h (there v ws ws' m) = let rest = moved-awake w w' ws ws' h m in ground arith

  pub moved-waiting :
      (w w' : Worker J) (ws ws' : List (Worker J))
      → is_waiting w' ≡ false
      → Moves w w' ws ws'
      → has_waiting ws ≡ false
      → has_waiting ws' ≡ false
  moved-waiting w w' _ _ h (here ws) e = ground arith
  moved-waiting w w' _ _ h (there v ws ws' m) e =
      let rest : has_waiting ws ≡ false → has_waiting ws' ≡ false = moved-waiting w w' ws ws' h m in
      ground arith

  pub moved-exited :
      (w w' : Worker J) (ws ws' : List (Worker J))
      → is_exited w' ≡ false
      → Moves w w' ws ws'
      → has_exited ws ≡ false
      → has_exited ws' ≡ false
  moved-exited w w' _ _ h (here ws) e = ground arith
  moved-exited w w' _ _ h (there v ws ws' m) e =
      let rest : has_exited ws ≡ false → has_exited ws' ≡ false = moved-exited w w' ws ws' h m in
      ground arith

  pub moved-steps :
      (w w' : Worker J) (ws ws' : List (Worker J))
      → Moves w w' ws ws'
      → all_steps_left ws' + steps_left w ≡ all_steps_left ws + steps_left w'
  moved-steps w w' _ _ (here ws) = omega arith
  moved-steps w w' _ _ (there v ws ws' m) = omega (arith, moved-steps w w' ws ws' m)

  pub notify-waiting : (ws : List (Worker J)) → has_waiting (map notify ws) ≡ false
  unfolding notify
  notify-waiting [] = refl
  notify-waiting (idle ∷ ws) = notify-waiting ws
  notify-waiting (waiting ∷ ws) = notify-waiting ws
  notify-waiting (notified ∷ ws) = notify-waiting ws
  notify-waiting (running j ∷ ws) = notify-waiting ws
  notify-waiting (exited ∷ ws) = notify-waiting ws

  pub notify-awake : (ws : List (Worker J)) → has_awake ws ≡ true → has_awake (map notify ws) ≡ true
  unfolding notify
  notify-awake [] h = h
  notify-awake (idle ∷ ws) h = refl
  notify-awake (waiting ∷ ws) h = refl
  notify-awake (notified ∷ ws) h = refl
  notify-awake (running j ∷ ws) h = refl
  notify-awake (exited ∷ ws) h = notify-awake ws h

  -- An awake worker of a list, and that it can go anywhere.
  pub record AwakeIn (ws : List (Worker J)) : Type 0 where
    pub worker : Worker J
    pub awake : is_awake worker ≡ true
    pub goes : (w' : Worker J) → (ws' : List (Worker J)) × Moves worker w' ws ws'

  pub find_awake : (ws : List (Worker J)) → has_awake ws ≡ true → AwakeIn ws
  find_awake [] h = cc
  find_awake (w ∷ ws) h = elim (Bool-cases (is_awake w)) [
    | inl e ↦ record { worker = w; awake = e; goes = λ w'. (w' ∷ ws, here ws) }
    | inr e ↦
        let found = find_awake ws (rw e at h) in
        record {
          worker = found.worker;
          awake = found.awake;
          goes = λ w'. let (ws', m) = found.goes w' in (w ∷ ws', there w ws ws' m);
        }
  ]

  pub all_exited :
      (ws : List (Worker J)) → has_awake ws ≡ false → has_waiting ws ≡ false → AllExited ws
  all_exited [] a w = tt
  all_exited (exited ∷ ws) a w = (refl, all_exited ws a w)
  all_exited (idle ∷ ws) a w = cc
  all_exited (waiting ∷ ws) a w = cc
  all_exited (notified ∷ ws) a w = cc
  all_exited (running j ∷ ws) a w = cc
