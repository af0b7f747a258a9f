-- ===== src/Batch/Revocation.antt =====
-- What `StrategyBatch::revoke` takes out of the windows.
use gip.Prelude.{
  String, ◌≡◌, refl, ◌≢◌, ◌⊎◌, inl, inr, Bool, true, false, List, [], ◌∷◌, ◌++◌, ◌==◌, string_eq,
  eq_of_beq, ne_of_beq, beq_of_ne, Bool-cases, arith,
}
use gip.Prelude.Entries.{All-append}
use gip.Models.{
  Task, request_id, RemovesFirst, RemovesFirst-cons, RemovesFirst-head, RemovesFirst-append,
  RemovesFirst-prepend, Absent,
}
use gip.Batch.{ModelQueue, Windows, revoke_from, revoke}

-- One window: the first task with the request id leaves it, or there is none.
abbrev Taken : String → List Task → List Task × Bool → Type 0
Taken id q r =
    ((t : Task) × (r.1 ≡ true) × RemovesFirst id q r.0 t) ⊎ (Absent id q × (r ≡ (q, false)))

Taken-later :
    (id : String) (t : Task) (ts : List Task)
    → request_id t ≢ id
    → Taken id ts (revoke_from id ts)
    → Taken id (t ∷ ts) (revoke_from id (t ∷ ts))
unfolding revoke_from
Taken-later id t ts h (inl (u, hit, removed)) =
    rw (beq_of_ne (request_id t) id h) (inl (u, hit, RemovesFirst-cons t h removed))
Taken-later id t ts h (inr (absent, same)) =
    rw (beq_of_ne (request_id t) id h) (inr ((h, absent), ground arith))

revoke_from-Taken : (id : String) (q : List Task) → Taken id q (revoke_from id q)
unfolding revoke_from
revoke_from-Taken id [] = inr (tt, refl)
revoke_from-Taken id (t ∷ ts) = elim (Bool-cases (request_id t == id)) [
  | inl e ↦ rw e (inl (t, refl, RemovesFirst-head id t ts (eq_of_beq (request_id t) id e)))
  | inr e ↦ Taken-later id t ts (ne_of_beq (request_id t) id e) (revoke_from-Taken id ts)
]

-- Every pending task, window after window.
unfoldable pub pending_tasks : Windows → List Task
pending_tasks [] = []
pending_tasks ((name, q) ∷ rest) = q.tasks ++ pending_tasks rest

-- A pending task was found and taken out; or nothing changed.
abbrev pub RevokedFrom : String → Windows → Windows × Bool → Type 0
RevokedFrom id queues r =
    ((t : Task) × (r.1 ≡ true) × RemovesFirst id (pending_tasks queues) (pending_tasks r.0) t)
    ⊎ (Absent id (pending_tasks queues) × (r ≡ (queues, false)))

revoke_window :
    (id name : String) (q : ModelQueue) (rest : Windows)
    → Taken id q.tasks (revoke_from id q.tasks)
    → RevokedFrom id rest (revoke id rest)
    → RevokedFrom id ((name, q) ∷ rest) (revoke id ((name, q) ∷ rest))
unfolding revoke pending_tasks
revoke_window id name q rest (inl (t, hit, removed)) other =
    rw (hit, revoke) (inl (t, refl, RemovesFirst-append (pending_tasks rest) removed))
revoke_window id name q rest (inr (absent, same)) (inl (t, hit, removed)) =
    rw (same, revoke) (inl (t, hit, RemovesFirst-prepend q.tasks absent removed))
revoke_window id name q rest (inr (absent, same)) (inr (others, unchanged)) =
    rw (same, revoke)
      (inr (
        All-append (λ u. request_id u ≢ id) q.tasks (pending_tasks rest) absent others,
        ground arith,
      ))

-- `revoke` takes out the first pending task with the request id, whichever window holds it, and
-- reports success; or no window holds one, nothing changes, and it reports failure.
pub revoke-RevokedFrom : (id : String) (queues : Windows) → RevokedFrom id queues (revoke id queues)
unfolding revoke pending_tasks
revoke-RevokedFrom id [] = inr (tt, refl)
revoke-RevokedFrom id ((name, q) ∷ rest) =
    revoke_window id name q rest (revoke_from-Taken id q.tasks) (revoke-RevokedFrom id rest)
