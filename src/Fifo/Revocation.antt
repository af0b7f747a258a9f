-- ===== src/Fifo/Revocation.antt =====
-- What `revoke` takes out of the FIFO queue.
use gip.Prelude.{
  String, ◌≡◌, refl, ◌≢◌, ◌⊎◌, inl, inr, Bool, true, false, [], ◌∷◌, ◌==◌, string_eq, Bool-cases,
  eq_of_beq, ne_of_beq, beq_of_ne, arith,
}
use gip.Models.{
  Task, TaskCells, request_id, set_cell, RemovesFirst, RemovesFirst-cons, RemovesFirst-head, Absent,
}
use gip.Fifo.{FifoQueue, revoke}

-- A task was found and taken out, with its flag set; or nothing changed.
abbrev pub Revoked : String → FifoQueue → TaskCells → FifoQueue × TaskCells × Bool → Type 0
Revoked id q cells r =
    ((t : Task) × (r.2 ≡ true)
      × RemovesFirst id q r.0 t
      × (r.1 ≡ set_cell t (record (cells t.address) { cancel_requested = true }) cells))
    ⊎ (Absent id q × (r ≡ (q, cells, false)))

revoke_later :
    (id : String) (t : Task) (ts : FifoQueue) (cells : TaskCells)
    → request_id t ≢ id
    → Revoked id ts cells (revoke id ts cells)
    → Revoked id (t ∷ ts) cells (revoke id (t ∷ ts) cells)
unfolding revoke
revoke_later id t ts cells h (inl (u, hit, removed, flagged)) =
    rw (beq_of_ne (request_id t) id h) (inl (u, hit, RemovesFirst-cons t h removed, flagged))
revoke_later id t ts cells h (inr (absent, same)) =
    rw (beq_of_ne (request_id t) id h) (inr ((h, absent), ground arith))

-- `revoke` finds a task with the request id, takes the first one out, sets its cancellation flag
-- and reports success; or there is none, nothing changes, and it reports failure.
pub revoke-Revoked :
    (id : String) (q : FifoQueue) (cells : TaskCells) → Revoked id q cells (revoke id q cells)
unfolding revoke
revoke-Revoked id [] cells = inr (tt, refl)
revoke-Revoked id (t ∷ ts) cells = elim (Bool-cases (request_id t == id)) [
  | inl e ↦ rw e (inl (t, refl, RemovesFirst-head id t ts (eq_of_beq (request_id t) id e), refl))
  | inr e ↦ revoke_later id t ts cells (ne_of_beq (request_id t) id e) (revoke-Revoked id ts cells)
]
