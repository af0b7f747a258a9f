-- ===== src/InferenceScenario.antt =====
-- `IScenario`, `InferenceScenario` and `InferencePreprocessor` (include/core/scenario/*.hpp,
-- src/core/scenario/*.cpp, src/core/preprocess/InferencePreprocessor.cpp): a request that goes
-- through a few steps to the scheduler, and can be stopped between them. The repository of the
-- updater is the scheduler's. `signal k` is what the k-th test of `stop_signal_` reads.
pub mod Outcomes
pub mod Runs
use gip.Prelude.{
  ℕ, zero, suc, ◌+◌, String, Bool, true, false, ◌&&◌, not, has_value, Option, none, some, is_empty,
  leb, ◌==◌, string_eq, if◌then◌else◌,
}
use mathlib.Core.Option.{map}
use gip.Models.{RequestInfo, ResponseInfo, empty_response, failure}
use gip.Json.{JsonLibrary, Read, got, exception}
use gip.Operations.{update_found}
use gip.Scheduler.State.{Scheduler}
use gip.InferService.{
  Code, ok, accepted, bad_request, internal_server_error, service_unavailable, Answer, dumped,
}

pub data Step : Type 0 where
  validating : Step
  preprocessing : Step
  dispatching : Step
  finalizing : Step
  finished : Step
  failed : Step

-- The pointers to the scheduler and to the updater may be null; the constructor replaces a null
-- preprocessor.
pub record InferenceScenario : Type 0 where
  pub has_scheduler : Bool
  pub has_updater : Bool
  pub request : RequestInfo
  pub current_step : Step
  pub terminal_code : Code
  pub terminal_message : String

unfoldable pub new_scenario : Bool → Bool → RequestInfo → InferenceScenario
new_scenario has_scheduler has_updater request_info = record {
  has_scheduler = has_scheduler;
  has_updater = has_updater;
  request = request_info;
  current_step = validating;
  terminal_code = accepted;
  terminal_message = "";
}

-- There is no input of any kind.
abbrev pub lacks_payload : RequestInfo → Bool
lacks_payload request =
    is_empty request.input_shapes
    && is_empty request.input_tensor_values
    && not (has_value request.payload)

-- `InferencePreprocessor::process`; `some` is an error message.
unfoldable pub preprocess_request : RequestInfo → Option String
preprocess_request request =
    if lacks_payload request then some "Inference request has no input payload" else none

unfoldable pub precheck : InferenceScenario → Code × String
precheck sc =
    if not sc.has_scheduler
    then (internal_server_error, "Scheduler is not initialized")
    else if sc.request.request_id == ""
    then (bad_request, "Missing request_id")
    else if sc.request.model_name == ""
    then (bad_request, "Missing model_name")
    else (ok, "")

module _ {B : Type 0} where
  -- What `fail` does to the repository.
  unfoldable pub report_failure : InferenceScenario → String → Scheduler B → Scheduler B
  unfolding update_found
  report_failure sc message s =
      let response : ResponseInfo = record empty_response {
        request_id = sc.request.request_id;
        error_message = some message;
      } in
      if sc.has_updater
      then record s {
        op_repository =
            (update_found (λ r. r) sc.request.request_id failure response (some message)
              s.op_repository).0;
      }
      else s

  -- `fail`, and the step to `Step::Failed` that follows each of its calls.
  unfoldable pub fail :
      Code → String → InferenceScenario → Scheduler B → InferenceScenario × Scheduler B
  fail code message sc s = (
    record sc { terminal_code = code; terminal_message = message; current_step = failed },
    report_failure sc message s,
  )

  unfoldable pub validate_step : InferenceScenario → Scheduler B → InferenceScenario × Scheduler B
  unfolding fail
  validate_step sc s =
      if lacks_payload sc.request
      then fail bad_request "Inference request has no input payload" sc s
      else (record sc { current_step = preprocessing }, s)

  unfoldable pub preprocess_step : InferenceScenario → Scheduler B → InferenceScenario × Scheduler B
  unfolding fail
  preprocess_step sc s = elim (preprocess_request sc.request) [
    | none ↦ (record sc { current_step = dispatching }, s)
    | some message ↦
        fail bad_request (if message == "" then "Inference preprocessing failed" else message) sc s
  ]

  -- `submit` is `Scheduler::submitTask` at the clocks and the address of the call.
  unfoldable pub dispatch_step :
      (RequestInfo → Scheduler B → Scheduler B × Bool)
      → InferenceScenario
      → Scheduler B
      → InferenceScenario × Scheduler B
  unfolding fail
  dispatch_step submit sc s =
      let (s', submitted) = submit sc.request s in
      if submitted
      then (record sc { current_step = finalizing }, s')
      else fail service_unavailable "Failed to submit inference request to scheduler" sc s'

module _ {J O : Type 0} (json : JsonLibrary J O) where
  unfoldable pub build_accepted_message : InferenceScenario → Read String
  build_accepted_message sc =
      let o₁ = json.set "request_id" (json.of_string sc.request.request_id) json.empty in
      let o₂ = json.set "model_name" (json.of_string sc.request.model_name) o₁ in
      let o₃ = json.set "stage" (json.of_string "submitted") o₂ in
      let o₄ = json.set "scenario" (json.of_string "InferenceScenario") o₃ in
      json.dump (json.of_object o₄)

-- The signal that `stopProcess` sets between the tests before the k-th and that.
abbrev pub stop_process : ℕ → ℕ → Bool
stop_process k test = leb k test

abbrev pub is_ok : Code → Bool
is_ok ok = true
is_ok _ = false

-- What an iteration of the loop does: it goes on, or `process` returns or throws.
pub data Next (B : Type 0) : Type 0 where
  goes_on : InferenceScenario × Scheduler B → Next B
  returns : InferenceScenario × Scheduler B → Answer → Next B

module _ {J O B : Type 0} (json : JsonLibrary J O)
    (submit : RequestInfo → Scheduler B → Scheduler B × Bool) where
  abbrev finalize_step : InferenceScenario → Scheduler B → Read String → Next B
  finalize_step sc s (got message) = goes_on (
    record sc { terminal_code = accepted; terminal_message = message; current_step = finished },
    s,
  )
  finalize_step sc s (exception e) =
      returns (record sc { terminal_code = accepted }, s) (exception e)

  -- The `switch`.
  unfoldable pub advance : Step → InferenceScenario → Scheduler B → Next B
  advance validating sc s = goes_on (validate_step sc s)
  advance preprocessing sc s = goes_on (preprocess_step sc s)
  advance dispatching sc s = goes_on (dispatch_step submit sc s)
  advance finalizing sc s = finalize_step sc s (build_accepted_message json sc)
  advance finished sc s = returns (sc, s) (got (ok, ""))
  advance failed sc s = returns (sc, s) (got (sc.terminal_code, sc.terminal_message))

  -- The loop from its k-th test on; `none` is a fuel that does not suffice.
  unfoldable pub process :
      ℕ
      → (ℕ → Bool)
      → ℕ
      → InferenceScenario × Scheduler B
      → Option (InferenceScenario × Scheduler B × Answer)
  process zero signal k (sc, s) = none
  process (suc fuel) signal k (sc, s) =
      if signal k
      then some (sc, s, got (service_unavailable, "Inference scenario stopped"))
      else elim (advance sc.current_step sc s) [
        | goes_on state ↦ process fuel signal (suc k) state
        | returns state answer ↦ some (state.0, state.1, answer)
      ]

  -- `run` after `process` has come back.
  unfoldable pub after_process : InferenceScenario × Scheduler B × Answer → Scheduler B × Answer
  after_process (sc, s, exception e) = (s, exception e)
  after_process (sc, s, got (code, message)) =
      if is_ok code
      then (s, got (sc.terminal_code, sc.terminal_message))
      else (s, got (code, message))

  unfoldable pub run :
      ℕ → (ℕ → Bool) → InferenceScenario → Scheduler B → Option (Scheduler B × Answer)
  run fuel signal sc s =
      let (code, message) = precheck sc in
      let processed = process fuel signal 0 (sc, s) in
      if is_ok code then map after_process processed else some (s, got (code, message))
