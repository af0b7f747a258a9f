-- ===== src/Tests/Models.antt =====
-- The model manager and the ONNX Runtime backend.
use gip.Prelude.Int.{ℤ, pos}
use gip.Prelude.{ℕ, ◌<◌, ◌%◌, List, [], ◌∷◌, Bool, ◌≡◌, refl, true, string_eq}
use gip.Prelude.Dict.{lookup, insert, contains}
use gip.Models.{empty_response, model_state_eq, backend_type_eq, enabled, loaded, registered, done}
use gip.Backends.{get_backend}
use gip.Backends.Onnx.{OnnxBackend, onnx_backend}
use gip.Backends.Onnx.{infer, tensor_element_count}
use gip.Backends.Onnx.Count.{exact_count, tensor_element_count-wraps}
use gip.Backends.Onnx.Answers.{InferResult, infer-InferResult}
use gip.ModelManager.{ModelManager, register_model, unregister_model, enable_model}
use gip.ModelManager.Lifecycle.{apply, Answer, register, load, enable}
use gip.ModelManager.Lifecycle.Steps.{apply-FollowsLifecycle}
use gip.ModelManager.Leak.{IsStuck, unregister_model-IsStuck, apply-IsStuck}
use gip.Tests.Fixtures.{echo_ort, conf_files, resnet_conf, resnet, sessions, manager, request_for}

abbrev loaded_manager : ModelManager (OnnxBackend ℕ)
loaded_manager = manager loaded sessions

apply-FollowsLifecycle_example :
    Answer enable "resnet" loaded_manager (manager enabled sessions, true)
unfolding apply enable_model lookup insert
apply-FollowsLifecycle_example =
    apply-FollowsLifecycle conf_files enable "resnet" loaded_manager (manager enabled sessions) true
      refl

unregister_model-IsStuck_example :
    ((unregister_model "resnet" loaded_manager).1 ≡ true)
    × ((register_model conf_files "resnet" (unregister_model "resnet" loaded_manager).0).1 ≡ true)
    × IsStuck "resnet"
        (register_model conf_files "resnet" (unregister_model "resnet" loaded_manager).0).0
unfolding lookup get_backend contains
unregister_model-IsStuck_example =
    unregister_model-IsStuck conf_files "resnet" loaded_manager (resnet loaded) resnet_conf sessions
      refl refl refl refl refl refl refl

-- The session is there, and the model is only registered.
stuck : IsStuck "resnet" (manager registered sessions)
unfolding lookup get_backend contains
stuck = record {
  conf = resnet_conf;
  sessions = sessions;
  stored = refl;
  named = refl;
  typed = refl;
  backend = refl;
  held = refl;
}

apply-IsStuck_example :
    (m' : ModelManager (OnnxBackend ℕ)) × (ok : Bool) × (apply conf_files load "resnet"
        (manager registered sessions)
      ≡ done (m', ok))
    × IsStuck "resnet" m'
    × (ok ≡ true → (load ≡ register) × (m' ≡ manager registered sessions))
apply-IsStuck_example = apply-IsStuck conf_files load "resnet" (manager registered sessions) stuck

infer-InferResult_example :
    InferResult
      (request_for "a")
      empty_response
      sessions
      (infer (request_for "a") empty_response sessions)
infer-InferResult_example = infer-InferResult (request_for "a") empty_response sessions

-- The product of these dimensions is 2^64 + 2, and their count is 2.
abbrev wide : List ℤ
wide = pos 6148914691236517206 ∷ []

tensor_element_count-wraps_example :
    (tensor_element_count (pos 3 ∷ wide) < 18446744073709551616)
    × (tensor_element_count (pos 3 ∷ wide) ≡ exact_count (pos 3 ∷ wide) % 18446744073709551616)
tensor_element_count-wraps_example = tensor_element_count-wraps (pos 3) wide

wraps_to_two : tensor_element_count (pos 3 ∷ wide) ≡ 2
unfolding tensor_element_count
wraps_to_two = refl
