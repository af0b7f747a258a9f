-- ===== src/ModelManager/Leak.antt =====
-- What unregistering a loaded model leaves behind (`ModelManager::unregisterModel` with
-- `ONNXRuntimeBackend`, for every ONNX Runtime).
use Prim.Native.String.{◌++◌ as str_append}
use gip.Prelude.{String, ◌≡◌, refl, Bool, true, false, Option, none, some, ◌==◌, string_eq}
use gip.Prelude.Dict.{lookup, erase, contains, lookup-insert_self, lookup-erase_self}
use gip.Models.{
  backend_type_eq, onnx_runtime, model_state_eq, registered, ModelConf, ModelMeta, done,
}
use gip.Backends.{backend_type_from_string, get_backend}
use gip.Backends.Onnx
use gip.Backends.Onnx.{Ort, OnnxBackend, onnx_backend}
use gip.ModelManager.{
  ModelManager, register_model, unregister_model, enable_model, disable_model, load_registered,
  load_model, unload_model, put_backend,
}
use gip.ModelManager.Lifecycle.{Command, register, unregister, load, unload, enable, disable, apply}

module _ {S : Type 0} where
  -- The model is registered and not loaded, yet the backend still holds a session under its name.
  pub record IsStuck (name : String) (m : ModelManager (OnnxBackend S)) : Type 0 where
    pub conf : ModelConf
    pub sessions : OnnxBackend S
    pub stored :
        lookup name m.registry
        ≡ some (record { model_name = name; conf = some conf; state = registered })
    pub named : conf.model_name ≡ name
    pub typed : conf.backend_type ≡ "ONNXRuntime"
    pub backend : get_backend onnx_runtime m.backends ≡ some sessions
    pub held : contains name sessions ≡ true

  removed_entry :
      (name : String) (m : ModelManager (OnnxBackend S)) (meta : ModelMeta)
      → lookup name m.registry ≡ some meta
      → (meta.state == registered) ≡ false
      → unregister_model name m ≡ (record m { registry = erase name m.registry }, true)
  unfolding unregister_model
  removed_entry name m meta e state = rw (e, unregister_model) (rw state refl)

  registered_again :
      (load_conf : String → Option ModelConf) (name : String) (m : ModelManager (OnnxBackend S))
      (conf : ModelConf) (sessions : OnnxBackend S)
      → lookup name m.registry ≡ none
      → get_backend onnx_runtime m.backends ≡ some sessions
      → contains name sessions ≡ true
      → load_conf (str_append (str_append m.conf_path_prefix name) ".json") ≡ some conf
      → conf.model_name ≡ name
      → conf.backend_type ≡ "ONNXRuntime"
      → ((register_model load_conf name m).1 ≡ true)
        × IsStuck name (register_model load_conf name m).0
  unfolding register_model contains
  registered_again load_conf name m conf sessions e b h file named typed =
      rw (e, register_model)
        (rw file (
          refl,
          record {
            conf = conf;
            sessions = sessions;
            stored = lookup-insert_self name _ _;
            named = named;
            typed = typed;
            backend = b;
            held = h;
          },
        ))

  -- A model that is not merely registered, and whose session the backend holds, can be
  -- unregistered, and then registered again from a file that gives the same name and ONNX Runtime
  -- as its backend. After that it is stuck: it is registered and not loaded, while the backend
  -- still holds the session under its name.
  pub unregister_model-IsStuck :
      (load_conf : String → Option ModelConf) (name : String) (m : ModelManager (OnnxBackend S))
      (meta : ModelMeta) (conf : ModelConf) (sessions : OnnxBackend S)
      → lookup name m.registry ≡ some meta
      → (meta.state == registered) ≡ false
      → get_backend onnx_runtime m.backends ≡ some sessions
      → contains name sessions ≡ true
      → load_conf (str_append (str_append m.conf_path_prefix name) ".json") ≡ some conf
      → conf.model_name ≡ name
      → conf.backend_type ≡ "ONNXRuntime"
      → ((unregister_model name m).1 ≡ true)
        × ((register_model load_conf name (unregister_model name m).0).1 ≡ true)
        × IsStuck name (register_model load_conf name (unregister_model name m).0).0
  unregister_model-IsStuck load_conf name m meta conf sessions e state b h file named typed =
      let again =
        registered_again load_conf name (record m { registry = erase name m.registry }) conf
          sessions (lookup-erase_self name m.registry) b h file named typed in
      rw (removed_entry name m meta e state) (refl, again.0, again.1)

module _ {S : Type 0} ⦃ort : Ort S⦄ where
  refused_session :
      (conf : ModelConf) (sessions : OnnxBackend S)
      → contains conf.model_name sessions ≡ true
      → Onnx.load conf sessions ≡ done (sessions, false)
  unfolding Onnx.load contains
  refused_session conf sessions h = rw h refl

  refused_load :
      (name : String) (m : ModelManager (OnnxBackend S)) (k : IsStuck name m)
      → load_model name m ≡ done (put_backend onnx_runtime k.sessions m, false)
  unfolding load_model load_registered backend_type_from_string
  refused_load name m k =
      let again : Onnx.load k.conf k.sessions ≡ done (k.sessions, false) =
        refused_session k.conf k.sessions (rw k.named k.held) in
      rw (k.stored, load_model) (simp (k.typed, k.backend, again))

  put_back :
      (name : String) (m : ModelManager (OnnxBackend S)) (k : IsStuck name m)
      → IsStuck name (put_backend onnx_runtime k.sessions m)
  unfolding get_backend
  put_back name m k = record {
    conf = k.conf;
    sessions = k.sessions;
    stored = k.stored;
    named = k.named;
    typed = k.typed;
    backend = lookup-insert_self onnx_runtime k.sessions m.backends;
    held = k.held;
  }

  -- A model that is stuck, registered and not loaded while the backend holds a session under its
  -- name, stays so: every operation of the model manager on it returns and leaves it stuck, and
  -- only a further registration, which changes nothing, answers `true`.
  pub apply-IsStuck :
      (load_conf : String → Option ModelConf) (c : Command) (name : String)
      (m : ModelManager (OnnxBackend S))
      → IsStuck name m
      → (m' : ModelManager (OnnxBackend S)) × (ok : Bool) × (apply load_conf c name m
          ≡ done (m', ok))
        × IsStuck name m'
        × (ok ≡ true → (c ≡ register) × (m' ≡ m))
  unfolding apply register_model unregister_model enable_model disable_model unload_model contains
  apply-IsStuck load_conf register name m k =
      (m, true, rw (k.stored, register_model) refl, k, λ h. (refl, refl))
  apply-IsStuck load_conf unregister name m k =
      (m, false, rw (k.stored, unregister_model) refl, k, λ h. cc)
  apply-IsStuck load_conf load name m k = (
    put_backend onnx_runtime k.sessions m,
    false,
    refused_load name m k,
    put_back name m k,
    λ h. cc,
  )
  apply-IsStuck load_conf unload name m k = (m, false, rw (k.stored, unload_model) refl, k, λ h. cc)
  apply-IsStuck load_conf enable name m k = (m, false, rw (k.stored, enable_model) refl, k, λ h. cc)
  apply-IsStuck load_conf disable name m k =
      (m, false, rw (k.stored, disable_model) refl, k, λ h. cc)
