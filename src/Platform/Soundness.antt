-- ===== src/Platform/Soundness.antt =====
-- The platform under its HTTP interface: whatever is requested, the registry of models stays fit
-- for `Scheduler::execute`.
use gip.Prelude.{ℕ, String, ◌≡◌, subst, Option, string_eq}
use gip.Prelude.Dict.{lookup}
use gip.Models.{ModelConf, done}
use gip.Json.{JsonLibrary}
use gip.Backends.{IBackend}
use gip.Scheduler.State.{Scheduler, new_scheduler}
use gip.Scheduler.Execution.Completion.{HasSoundModels, KeepsModelsSound}
use gip.Scheduler.Cancellation.{Gap}
use gip.InferService.{Answer, delete_operation}
use gip.HttpApi.{Request}
use gip.HttpApi.Routes.{Handler, handle}
use gip.Platform.{new_platform}
use gip.Platform.Models.{submit_inference_request_sound, cancel_inference_sound}
use gip.Platform.Commands.{Leaves, IsKept, Moment, surroundings}
use gip.Platform.Handlers.{handle-Leaves}

module _ {J O B : Type 0} (json : JsonLibrary J O) ⦃i : IBackend B⦄
    (load_conf : String → Option ModelConf) where
  HasSoundModels-IsKept :
      IsKept {B = B} json HasSoundModels (λ between. (gap : Gap) → KeepsModelsSound (between gap))
  unfolding delete_operation
  HasSoundModels-IsKept = record {
    sound = λ s h. h;
    managed = λ m s h sound. h;
    deleted = λ id s h. h;
    submitted = λ at request_info s h.
        submit_inference_request_sound json at.ticks at.address at.built at.now request_info s h;
    canceled = λ between later id s b l h. cancel_inference_sound json between later id s b l h;
  }

  -- The states that requests lead to, those whose handlers return.
  pub data Serves (start : Scheduler B) : Scheduler B → Type 0 where
    opens : Serves start start
    answers :
        (at : Moment B) (h : Handler) (request : Request) (s s' : Scheduler B) (answer : Answer)
        → ((gap : Gap) → KeepsModelsSound (at.between gap))
        → KeepsModelsSound at.later
        → Serves start s
        → handle json (surroundings json load_conf at) h request s ≡ done (s', answer)
        → Serves start s'

  pub new_platform_sound :
      (onnx : B) (config_path : String) (hardware : ℕ)
      → HasSoundModels (new_platform onnx config_path hardware)
  unfolding new_platform new_scheduler lookup
  new_platform_sound onnx config_path hardware name meta e = cc

  -- A new platform that serves any requests, in any order and at any moments, while the other
  -- threads keep the registry sound during each cancellation, has a sound registry: a model that is
  -- past its registration has a configuration whose type of backend can be converted, which is what
  -- the execution of a task needs.
  pub Serves-HasSoundModels :
      (onnx : B) (config_path : String) (hardware : ℕ) (s : Scheduler B)
      → Serves (new_platform onnx config_path hardware) s
      → HasSoundModels s
  Serves-HasSoundModels onnx config_path hardware _ opens =
      new_platform_sound onnx config_path hardware
  Serves-HasSoundModels onnx config_path hardware s' (answers at h request s _ answer b l r e) =
      subst (Leaves HasSoundModels) e (
        handle-Leaves json load_conf HasSoundModels HasSoundModels-IsKept at h request s b l
          (Serves-HasSoundModels onnx config_path hardware s r))
