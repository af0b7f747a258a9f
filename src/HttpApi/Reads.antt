-- ===== src/HttpApi/Reads.antt =====
-- Which requests only read the state of the platform.
use gip.Prelude.{
  String, ◌≡◌, ◌≢◌, refl, none, some, Option, ◌==◌, string_eq, Bool-cases, Option-cases, inl, inr,
}
use gip.Models.{Outcome, done}
use gip.Json.{JsonLibrary}
use gip.Backends.{IBackend}
use gip.Scheduler.State.{Scheduler}
use gip.InferService.{Answer, get_model_state, get_operation_status, get_operation_result}
use gip.HttpApi.{
  Request, get_query_field, get_path_param, on_field, on_operation_id, model_load_check_handler,
  model_unload_check_handler, model_state_handler, inference_state_handler,
  inference_submit_check_handler, inference_submit_result_handler,
}
use gip.HttpApi.Routes.{
  Handler, model_register, model_unregister, model_load, model_load_check, model_load_delete,
  model_unload, model_unload_check, model_unload_delete, model_enable, model_disable, model_state,
  inference_state, inference_submit, inference_submit_check, inference_submit_result,
  inference_submit_delete, inference_cancel, Surroundings, handle, route_of, get,
}

-- The call returns, and leaves the state as it was.
abbrev pub OnlyReads : {B : Type 0} → Scheduler B → Outcome (Scheduler B × Answer) → Type 0
OnlyReads s r = (answer : Answer) × (r ≡ done (s, answer))

module _ {B : Type 0} (s : Scheduler B) (reading : String → Answer) where
  on_field-OnlyReads :
      (missing : String) (field : Option String)
      → OnlyReads s (on_field missing field s (λ value. done (s, reading value)))
  on_field-OnlyReads missing none = (_, refl)
  on_field-OnlyReads missing (some value) = elim (Bool-cases (value == "")) [
    | inl e ↦ rw e (_, refl)
    | inr e ↦ rw e (_, refl)
  ]

  on_operation_id-OnlyReads :
      (request : Request) → OnlyReads s (on_operation_id request s (λ id. done (s, reading id)))
  on_operation_id-OnlyReads request = elim (Option-cases (request.param ":operation_id")) [
    | inl e ↦ rw (e, on_operation_id) (_, refl)
    | inr (id, e) ↦
        rw (e, on_operation_id)
          (elim (Bool-cases (id == "")) [ inl h ↦ rw h (_, refl) | inr h ↦ rw h (_, refl) ])
  ]

module _ {J O : Type 0} (json : JsonLibrary J O) {B : Type 0} ⦃i : IBackend B⦄
    (around : Surroundings B) where
  abbrev HandlerReads : Handler → Type 0
  HandlerReads h =
      (request : Request) (s : Scheduler B) → OnlyReads s (handle json around h request s)

  load_check-reads : HandlerReads model_load_check
  unfolding handle model_load_check_handler get_path_param
  load_check-reads request s =
      on_field-OnlyReads s (λ id. get_operation_status json id s)
        "Missing or invalid operation_id parameter" (request.param ":operation_id")

  unload_check-reads : HandlerReads model_unload_check
  unfolding handle model_unload_check_handler get_path_param
  unload_check-reads request s =
      on_field-OnlyReads s (λ id. get_operation_status json id s)
        "Missing or invalid operation_id parameter" (request.param ":operation_id")

  state-reads : HandlerReads model_state
  unfolding handle model_state_handler get_query_field
  state-reads request s =
      on_field-OnlyReads s (λ name. get_model_state json name s)
        "Missing model_name query parameter" (request.query "model_name")

  inference_state-reads : HandlerReads inference_state
  unfolding handle inference_state_handler get_query_field
  inference_state-reads request s =
      on_field-OnlyReads s (λ id. get_operation_status json id s)
        "Missing operation_id query parameter" (request.query "operation_id")

  submit_check-reads : HandlerReads inference_submit_check
  unfolding handle inference_submit_check_handler
  submit_check-reads request s =
      on_operation_id-OnlyReads s (λ id. get_operation_status json id s) request

  submit_result-reads : HandlerReads inference_submit_result
  unfolding handle inference_submit_result_handler
  submit_result-reads request s =
      on_operation_id-OnlyReads s (λ id. get_operation_result json id s) request

  -- Every route for the method GET but that of the cancellation only reads: for any request its
  -- handler returns with an answer, and the state is as it was.
  pub handle-OnlyReads :
      (h : Handler)
      → (route_of h).method ≡ get
      → h ≢ inference_cancel
      → (request : Request) (s : Scheduler B) → OnlyReads s (handle json around h request s)
  unfolding route_of
  handle-OnlyReads model_register e other = cc
  handle-OnlyReads model_unregister e other = cc
  handle-OnlyReads model_load e other = cc
  handle-OnlyReads model_load_check e other = load_check-reads
  handle-OnlyReads model_load_delete e other = cc
  handle-OnlyReads model_unload e other = cc
  handle-OnlyReads model_unload_check e other = unload_check-reads
  handle-OnlyReads model_unload_delete e other = cc
  handle-OnlyReads model_enable e other = cc
  handle-OnlyReads model_disable e other = cc
  handle-OnlyReads model_state e other = state-reads
  handle-OnlyReads inference_state e other = inference_state-reads
  handle-OnlyReads inference_submit e other = cc
  handle-OnlyReads inference_submit_check e other = submit_check-reads
  handle-OnlyReads inference_submit_result e other = submit_result-reads
  handle-OnlyReads inference_submit_delete e other = cc
  handle-OnlyReads inference_cancel e other = absurd (other refl)
