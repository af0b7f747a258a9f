-- ===== src/InferService/Cancellation.antt =====
-- A cancellation from end to end: `InferService::cancelInference` over `Scheduler::cancelTask`.
use gip.Prelude.{
  String, ◌≡◌, refl, ◌⊎◌, inl, inr, Bool, ◌||◌, Option-cases, true, false, none, some, ◌==◌,
  string_eq, Bool-cases, eq_of_beq, if◌then◌else◌, subst,
}
use gip.Models.{
  OperationInfo, OperationState, success, failure, canceled, cancel_requested, operation_state_eq,
}
use gip.Json.{JsonLibrary, got}
use gip.Scheduler.State.{Scheduler}
use gip.Scheduler.Cancellation.{Others, before_call, before_lookup, cancel_task}
use gip.Scheduler.Cancellation.Verdict.{
  IsKeyed, IsState, CancelResult, cancel_task-Result, operation_at,
}
use gip.InferService.{
  Answer, ok, accepted, conflict, not_found, dumped_operation, after_cancel, cancel_inference,
}

-- An operation that is open: neither canceled, nor ended.
pub record IsOpen (op_info : OperationInfo) : Type 0 where
  pub not_canceled : (op_info.state == canceled) ≡ false
  pub not_success : (op_info.state == success) ≡ false
  pub not_failure : (op_info.state == failure) ≡ false

module _ {J O : Type 0} (json : JsonLibrary J O) {B : Type 0} where
  -- The operation has ended with success or with failure.
  abbrev pub HasRun : String → Scheduler B → Type 0
  HasRun id s = IsState id success s ⊎ IsState id failure s

  -- What the answer shows of the state at the second look: `accepted` and the operation, where its
  -- cancellation is requested; `ok` and the operation in any other state; or that there is none.
  abbrev pub Shows : String → Scheduler B → Answer → Type 0
  Shows id s answer =
      ((operation_at id s ≡ none) × (answer ≡ got (ok, "Operation canceled")))
      ⊎ ((operation : OperationInfo) × (operation_at id s ≡ some operation)
          × (((operation.state ≡ cancel_requested)
                × (answer ≡ dumped_operation json accepted operation))
              ⊎ (((operation.state == cancel_requested) ≡ false)
                  × (answer ≡ dumped_operation json ok operation))))

  -- The call of `cancelTask`, in the state that it starts from, and the answer after it.
  pub record Canceled (between : Others B) (later : Scheduler B → Scheduler B) (id : String)
      (s : Scheduler B) (r : Scheduler B × Answer) : Type 0 where
    pub operation : OperationInfo
    pub stored : operation_at id s ≡ some operation
    pub is_open : IsOpen operation
    pub after : Scheduler B × Bool
    pub ended : CancelResult between id (between before_call s) after
    pub left : r.0 ≡ later after.0
    pub answered :
        ((after.1 ≡ false) × (r.1 ≡ got (conflict, "Operation could not be canceled")))
        ⊎ ((after.1 ≡ true) × Shows id (later after.0) r.1)

  abbrev pub CancelAnswer :
      Others B → (Scheduler B → Scheduler B) → String → Scheduler B → Scheduler B × Answer → Type 0
  CancelAnswer between later id s r =
      ((operation_at id s ≡ none) × (r ≡ (s, got (not_found, "Operation not found"))))
      ⊎ ((op_info : OperationInfo) × (operation_at id s ≡ some op_info)
          × (op_info.state ≡ canceled)
          × (r ≡ (s, dumped_operation json ok op_info)))
      ⊎ (HasRun id s
          × (r ≡ (s, got (conflict, "Operation already finished and cannot be canceled"))))
      ⊎ Canceled between later id s r

  after_cancel-Shows :
      (id : String) (s : Scheduler B)
      → ((after_cancel json id (s, true)).0 ≡ s) × Shows id s (after_cancel json id (s, true)).1
  unfolding after_cancel
  after_cancel-Shows id s = elim (Option-cases (operation_at id s)) [
    | inl e ↦ rw (e, after_cancel) (refl, inl (refl, refl))
    | inr (op_info, e) ↦ rw (e, after_cancel) (refl, inr (op_info, refl, shown op_info))
  ]
    where
      shown :
          (o : OperationInfo)
          → let answer =
              if o.state == canceled
              then dumped_operation json ok o
              else if o.state == cancel_requested
              then dumped_operation json accepted o
              else dumped_operation json ok o in
            ((o.state ≡ cancel_requested) × (answer ≡ dumped_operation json accepted o))
            ⊎ (((o.state == cancel_requested) ≡ false) × (answer ≡ dumped_operation json ok o))
      shown o = elim (Bool-cases (o.state == cancel_requested)) [
        | inl asked ↦ let is = eq_of_beq o.state cancel_requested asked in inl (is, simp (is))
        | inr not_asked ↦ inr (
          not_asked,
          elim (Bool-cases (o.state == canceled)) [
            | inl gone ↦ simp gone
            | inr there ↦ simp (there, not_asked)
          ],
        )
      ]

  after_cancel-Canceled :
      (between : Others B) (later : Scheduler B → Scheduler B) (id : String)
      (op_info : OperationInfo) (s : Scheduler B) (q : Scheduler B × Bool)
      → operation_at id s ≡ some op_info
      → IsOpen op_info
      → CancelResult between id (between before_call s) q
      → Canceled between later id s (after_cancel json id (later q.0, q.1))
  unfolding after_cancel
  after_cancel-Canceled between later id op_info s (s', true) e o c =
      let (same, shows) = after_cancel-Shows id (later s') in
      record {
        operation = op_info;
        stored = e;
        is_open = o;
        after = (s', true);
        ended = c;
        left = same;
        answered = inr (refl, shows);
      }
  after_cancel-Canceled between later id op_info s (s', false) e o c = record {
    operation = op_info;
    stored = e;
    is_open = o;
    after = (s', false);
    ended = c;
    left = refl;
    answered = inl (refl, refl);
  }

  -- Where every tracked task is stored under its own request id when `cancelTask` looks for the task,
  -- a cancellation is answered in one of these ways, whatever other threads do in its gaps. It
  -- changes nothing if there is no operation at its first look (`not_found`), if that is canceled
  -- already (`ok`, with the operation), or if it has succeeded or failed (`conflict`). Otherwise it
  -- calls `cancelTask`, which ends in one of its five ways; if that answers `false`, the answer is
  -- `conflict`; if `true`, the answer shows the operation as it is at the second look, with
  -- `accepted` where its cancellation is requested and `ok` in any other state, or is `ok` with no
  -- operation, if there is none any more. The state is that which the other threads leave in the end.
  pub cancel_inference-Answer :
      (between : Others B) (later : Scheduler B → Scheduler B) (id : String) (s : Scheduler B)
      → IsKeyed (between before_lookup (between before_call s))
      → CancelAnswer between later id s (cancel_inference json between later id s)
  unfolding cancel_inference
  cancel_inference-Answer between later id s keyed = elim (Option-cases (operation_at id s)) [
    | inl e ↦ rw (e, cancel_inference) (inl (refl, refl))
    | inr (op_info, e) ↦
        subst (CancelAnswer between later id s) (opened op_info e) (on_operation op_info e)
  ]
    where
      q : Scheduler B × Bool
      q = cancel_task between id (between before_call s)

      choice : OperationInfo → Scheduler B × Answer
      choice op_info =
          if op_info.state == canceled
          then (s, dumped_operation json ok op_info)
          else if op_info.state == success || op_info.state == failure
          then (s, got (conflict, "Operation already finished and cannot be canceled"))
          else after_cancel json id (later q.0, q.1)

      opened :
          (op_info : OperationInfo)
          → operation_at id s ≡ some op_info
          → choice op_info ≡ cancel_inference json between later id s
      opened op_info e = rw (e, cancel_inference) refl

      is_state :
          (op_info : OperationInfo)
          → operation_at id s ≡ some op_info
          → (st : OperationState) → (op_info.state == st) ≡ true
          → IsState id st s
      is_state op_info e st h = record {
        operation = op_info;
        stored = e;
        state = eq_of_beq op_info.state st h;
      }

      on_operation :
          (op_info : OperationInfo)
          → operation_at id s ≡ some op_info
          → CancelAnswer between later id s (choice op_info)
      on_operation op_info e = elim (Bool-cases (op_info.state == canceled)) [
        | inl gone ↦ simp gone (inr (inl (op_info, e, eq_of_beq op_info.state canceled gone, refl)))
        | inr open_ ↦ elim (Bool-cases (op_info.state == success)) [
          | inl won ↦
              simp (open_, won) (inr (inr (inl (inl (is_state op_info e success won), refl))))
          | inr not_won ↦ elim (Bool-cases (op_info.state == failure)) [
            | inl lost ↦
                simp (open_, not_won, lost)
                  (inr (inr (inl (inr (is_state op_info e failure lost), refl))))
            | inr not_lost ↦
                simp (open_, not_won, not_lost)
                  (inr (
                    inr (
                      inr (
                        after_cancel-Canceled between later id op_info s q e
                          (record {
                            not_canceled = open_;
                            not_success = not_won;
                            not_failure = not_lost;
                          })
                          (cancel_task-Result between id (between before_call s) keyed)))))
          ]
        ]
      ]
