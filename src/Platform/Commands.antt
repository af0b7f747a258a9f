-- ===== src/Platform/Commands.antt =====
-- What the parts of the HTTP handlers keep true of the scheduler, by what the calls below them
-- keep.
use gip.Prelude.{
  ℕ, String, ◌≡◌, refl, Bool, true, false, Option, none, some, ◌==◌, string_eq, Bool-cases,
  Option-cases, inl, inr, if◌then◌else◌,
}
use gip.Models.{ModelConf, RequestInfo, Outcome, done}
use gip.Json.{JsonLibrary, Read, got, exception}
use gip.Backends.{IBackend}
use gip.ModelManager
use gip.ModelManager.{ModelManager}
use gip.ModelManager.Lifecycle.{
  Command, register, unregister, load, unload, enable, disable, apply, Returned,
}
use gip.ModelManager.Invariants.{Returned-then}
use gip.ModelManager.Soundness.{IsSound, apply-IsSound}
use gip.Scheduler.State.{Scheduler}
use gip.Scheduler.Execution.Completion.{HasSoundModels}
use gip.Scheduler.Cancellation.{Others}
use gip.InferService
use gip.InferService.{
  Answer, by_manager, submit_inference_request, cancel_inference, delete_operation,
}
use gip.HttpApi.{Request, on_field, on_body_field, on_operation_id, answer_error, submit_parsed}
use gip.HttpApi.Routes.{Handler, Surroundings, handle}
use gip.HttpApi.Reads.{OnlyReads}

-- What holds of the scheduler that a handler leaves, where it returns.
abbrev pub Leaves : {B : Type 0} → (Scheduler B → Type 0) → Outcome (Scheduler B × Answer) → Type 0
Leaves P o = Returned (λ r. P r.0) o

abbrev pub KeepsTrue : {B : Type 0} → (Scheduler B → Type 0) → (Scheduler B → Scheduler B) → Type 0
KeepsTrue {B} P f = (s : Scheduler B) → P s → P (f s)

module _ {B : Type 0} (P : Scheduler B → Type 0) (s : Scheduler B)
    (next : String → Outcome (Scheduler B × Answer)) (sound : P s)
    (h : (value : String) → Leaves P (next value)) where
  pub on_field-Leaves :
      (missing : String) (field : Option String) → Leaves P (on_field missing field s next)
  on_field-Leaves missing none = sound
  on_field-Leaves missing (some value) = elim (Bool-cases (value == "")) [
    | inl e ↦ rw e sound
    | inr e ↦ rw e (h value)
  ]

  pub on_body_field-Leaves :
      (missing : String) (field : Read (Option String))
      → Leaves P (on_body_field missing field s next)
  on_body_field-Leaves missing (got field) = on_field-Leaves missing field
  on_body_field-Leaves missing (exception e) = sound

  pub on_operation_id-Leaves : (request : Request) → Leaves P (on_operation_id request s next)
  on_operation_id-Leaves request = elim (Option-cases (request.param ":operation_id")) [
    | inl e ↦ rw (e, on_operation_id) sound
    | inr (id, e) ↦ rw (e, on_operation_id) (on_id id)
  ]
    where
      on_id :
          (id : String)
          → Leaves P (
              if id == ""
              then done (s, got (InferService.bad_request, "Missing request_id parameter"))
              else next id)
      on_id id = elim (Bool-cases (id == "")) [ inl e ↦ rw e sound | inr e ↦ rw e (h id) ]

-- What a request finds outside of the state: the clock's count as a text, the address of a new
-- task, two readings of the clock, and what other threads do during a cancellation.
pub record Moment (B : Type 0) : Type 0 where
  pub ticks : String
  pub address : ℕ
  pub built : ℕ
  pub now : ℕ
  pub between : Others B
  pub later : Scheduler B → Scheduler B

module _ {J O B : Type 0} (json : JsonLibrary J O) ⦃i : IBackend B⦄
    (load_conf : String → Option ModelConf) where
  abbrev pub surroundings : Moment B → Surroundings B
  surroundings at = record {
    load_conf = load_conf;
    submit = submit_inference_request json at.ticks at.address at.built at.now;
    between = at.between;
    later = at.later;
  }

-- What the calls that the handlers make must keep of a scheduler with a sound registry, where what
-- other threads do in the gaps of a cancellation is harmless.
pub record IsKept {J O B : Type 0} (json : JsonLibrary J O) (P : Scheduler B → Type 0)
    (IsHarmless : Others B → Type 0) : Type 0 where
  pub sound : (s : Scheduler B) → P s → HasSoundModels s
  pub managed :
      (m : ModelManager B) (s : Scheduler B) → IsSound m → P s → P (record s { model_manager = m })
  pub deleted : (id : String) (s : Scheduler B) → P s → P (delete_operation id s)
  pub submitted :
      (at : Moment B) (request_info : RequestInfo) (s : Scheduler B)
      → P s
      → P (submit_inference_request json at.ticks at.address at.built at.now request_info s).0
  pub canceled :
      (between : Others B) (later : Scheduler B → Scheduler B) (id : String) (s : Scheduler B)
      → IsHarmless between
      → KeepsTrue P later
      → P s
      → P (cancel_inference json between later id s).0

module _ {J O B : Type 0} (json : JsonLibrary J O) ⦃i : IBackend B⦄
    (load_conf : String → Option ModelConf) (P : Scheduler B → Type 0)
    {IsHarmless : Others B → Type 0} (k : IsKept json P IsHarmless) where
  by_manager-kept :
      (good bad : String) (r : ModelManager B × Bool) (s : Scheduler B)
      → P s
      → IsSound r.0
      → P (by_manager good bad r s).0
  by_manager-kept good bad (m, true) s p h = k.managed m s h p
  by_manager-kept good bad (m, false) s p h = k.managed m s h p

  command-IsSound :
      (c : Command) (name : String) (s : Scheduler B) (r : ModelManager B × Bool)
      → P s
      → apply load_conf c name s.model_manager ≡ done r
      → IsSound r.0
  command-IsSound c name s r sound e =
      apply-IsSound load_conf c name s.model_manager r.0 r.1 (k.sound s sound) e

  pub register-Leaves :
      (name : String) (s : Scheduler B) → P s → P (InferService.register_model load_conf name s).0
  unfolding InferService.register_model apply
  register-Leaves name s sound =
      by_manager-kept _ _ (ModelManager.register_model load_conf name s.model_manager) s sound
        (command-IsSound register name s _ sound refl)

  pub unregister-Leaves :
      (name : String) (s : Scheduler B) → P s → P (InferService.unregister_model name s).0
  unfolding InferService.unregister_model apply
  unregister-Leaves name s sound =
      by_manager-kept _ _ (ModelManager.unregister_model name s.model_manager) s sound
        (command-IsSound unregister name s _ sound refl)

  pub enable-Leaves :
      (name : String) (s : Scheduler B) → P s → P (InferService.enable_model name s).0
  unfolding InferService.enable_model apply
  enable-Leaves name s sound =
      by_manager-kept _ _ (ModelManager.enable_model name s.model_manager) s sound
        (command-IsSound enable name s _ sound refl)

  pub disable-Leaves :
      (name : String) (s : Scheduler B) → P s → P (InferService.disable_model name s).0
  unfolding InferService.disable_model apply
  disable-Leaves name s sound =
      by_manager-kept _ _ (ModelManager.disable_model name s.model_manager) s sound
        (command-IsSound disable name s _ sound refl)

  pub load-Leaves :
      (name : String) (s : Scheduler B) → P s → Leaves P (InferService.load_model name s)
  unfolding InferService.load_model apply
  load-Leaves name s sound =
      Returned-then (λ r. P r.0) (ModelManager.load_model name s.model_manager) _
        (λ r e. by_manager-kept _ _ r s sound (command-IsSound load name s r sound e))

  pub unload-Leaves :
      (name : String) (s : Scheduler B) → P s → Leaves P (InferService.unload_model name s)
  unfolding InferService.unload_model apply
  unload-Leaves name s sound =
      Returned-then (λ r. P r.0) (ModelManager.unload_model name s.model_manager) _
        (λ r e. by_manager-kept _ _ r s sound (command-IsSound unload name s r sound e))

  pub reads-Leaves :
      (at : Moment B) (h : Handler) (request : Request) (s : Scheduler B)
      → P s
      → OnlyReads s (handle json (surroundings json load_conf at) h request s)
      → Leaves P (handle json (surroundings json load_conf at) h request s)
  reads-Leaves at h request s sound (answer, e) = rw e sound

  answer_sound : (q : Scheduler B × Answer) → P q.0 → P (answer_error json q).0
  answer_sound (s, got r) h = h
  answer_sound (s, exception e) h = h

  pub parsed-Leaves :
      (submit : RequestInfo → Scheduler B → Scheduler B × Answer) (s : Scheduler B)
      → ((r : RequestInfo) → P (submit r s).0)
      → P s
      → (read : Read RequestInfo) → Leaves P (submit_parsed json submit read s)
  parsed-Leaves submit s h sound (got r) = answer_sound (submit r s) (h r)
  parsed-Leaves submit s h sound (exception e) = sound
