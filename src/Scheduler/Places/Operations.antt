-- ===== src/Scheduler/Places/Operations.antt =====
-- The operations that wait for an outcome: each belongs to a task that has its place.
use mathlib.Core.List.{Mem, Mem-prop, Subset, mem-cons, mem-cons_self}
use mathlib.Core.Logic.Or
use mathlib.Core.Option.{some_inj}
use gip.Prelude.{
  String, ◌≡◌, sym, ap, ◌∙◌, inl, inr, Bool, true, false, Option, some, List, ◌∷◌, Bool-cases, ◌==◌,
  string_eq, eq_of_beq, ne_of_beq,
}
use gip.Models.{Task, OperationState, pending, ongoing, OperationInfo, ResponseInfo, request_id}
use gip.Operations.{get_operation}
use gip.Scheduler.State.{Scheduler, set_operation}
use gip.Scheduler.Execution.Conclusion.{get-set_operation, operation_of}
use gip.Scheduler.Places.{places}

-- The outcome is still to come.
abbrev pub is_open : OperationState → Bool
is_open pending = true
is_open ongoing = true
is_open _ = false

module _ {B : Type 0} where
  -- Every operation that is open belongs to a task in one of the places.
  abbrev pub Owes : List Task → Scheduler B → Type 0
  Owes taken s =
      (id : String) (op_info : OperationInfo)
      → get_operation id s.op_repository ≡ some op_info
      → is_open op_info.state ≡ true
      → (t : Task) × (request_id t ≡ id) × Mem t (places taken s)

  pub Owes-moves :
      (taken taken' : List Task) (s s' : Scheduler B)
      → s'.op_repository ≡ s.op_repository
      → Subset (places taken s) (places taken' s')
      → Owes taken s
      → Owes taken' s'
  Owes-moves taken taken' s s' same moved h id op_info e is =
      let (t, owner, place) = h id op_info (rw (← same) e) is in (t, owner, moved t place)

  module _ (id : String) (st : OperationState) (r : ResponseInfo) (m : Option String)
      (taken : List Task) (s : Scheduler B) where
    abbrev written : Scheduler B
    written = set_operation id st r m s

    -- What an operation is after the write.
    written_here :
        (j : String) (op_info : OperationInfo)
        → (id == j) ≡ true
        → get_operation j written.op_repository ≡ some op_info
        → st ≡ op_info.state
    written_here j op_info same e =
        let at : some (operation_of id st r m) ≡ some op_info =
          rw same at (sym (get-set_operation id j st r m s) ∙ e) in
        ap (λ o. o.state) (some_inj.0 at)

    written_elsewhere :
        (j : String) (op_info : OperationInfo)
        → (id == j) ≡ false
        → get_operation j written.op_repository ≡ some op_info
        → get_operation j s.op_repository ≡ some op_info
    written_elsewhere j op_info other e = rw other at (sym (get-set_operation id j st r m s) ∙ e)

    -- An operation is closed.
    pub Owes-marks : is_open st ≡ false → Owes taken s → Owes taken written
    unfolding set_operation
    Owes-marks shut h j op_info e is = elim (Bool-cases (id == j)) [
      | inl same ↦ let still : is_open st ≡ true = rw (written_here j op_info same e) is in cc
      | inr other ↦ h j op_info (written_elsewhere j op_info other e) is
    ]

    module _ (t : Task) (named : request_id t ≡ id) where
      -- An operation is closed, and its task is given up.
      pub Owes-closes : is_open st ≡ false → Owes (t ∷ taken) s → Owes taken written
      unfolding set_operation
      Owes-closes shut h j op_info e is = elim (Bool-cases (id == j)) [
        | inl same ↦ let still : is_open st ≡ true = rw (written_here j op_info same e) is in cc
        | inr other ↦
            let (u, owner, place) = h j op_info (written_elsewhere j op_info other e) is in
            (
              u,
              owner,
              Or.resolve_left Mem-prop (mem-cons.0 place)
                  (λ same. ne_of_beq id j other (sym named ∙ ap request_id (sym same) ∙ owner)),
            )
      ]

      -- The operation of a task in hand changes.
      pub Owes-keeps : Owes (t ∷ taken) s → Owes (t ∷ taken) written
      unfolding set_operation
      Owes-keeps h j op_info e is = elim (Bool-cases (id == j)) [
        | inl same ↦ (t, named ∙ eq_of_beq id j same, mem-cons_self)
        | inr other ↦ h j op_info (written_elsewhere j op_info other e) is
      ]
