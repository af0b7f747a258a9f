-- ===== src/ModelManager.antt =====
-- `ModelManager` (include/model_manager/ModelManager.hpp, src/model_manager/ModelManager.cpp). The
-- backend manager, which the scheduler shares through a pointer, is a part of its state.
-- `load_conf` is `ConfigLoad::load`: the configuration in the file at a path, if there is a good one.
pub mod Lifecycle
pub mod Leak
pub mod Invariants
pub mod Soundness
use Prim.Native.String.{◌++◌ as str_append}
use gip.Prelude.{String, Bool, true, false, Option, none, some, ◌==◌, string_eq, if◌then◌else◌}
use gip.Prelude.Dict.{Dict, lookup, insert, erase, contains}
use gip.Models.{
  BackendType, backend_type_eq, model_state_eq, ModelState, registered, loaded, enabled, failed,
  ModelConf, ModelMeta, Outcome, done, null_dereference, ◌>>=◌,
}
use gip.Backends.{IBackend, BackendManager, backend_type_from_string, get_backend}

pub record ModelManager (B : Type 0) : Type 0 where
  pub conf_path_prefix : String
  pub registry : Dict String ModelMeta
  pub backends : BackendManager B

-- A pointer that is dereferenced.
abbrev pub deref {ℓ} : {A : Type ℓ} → Option A → Outcome A
deref none = null_dereference
deref (some a) = done a

module _ {B : Type 0} where
  -- `iter->second.state = state`
  abbrev pub set_state : String → ModelMeta → ModelState → ModelManager B → ModelManager B
  set_state name meta state m = record m {
    registry = insert name (record meta { state = state }) m.registry;
  }

  unfoldable pub register_model :
      (String → Option ModelConf) → String → ModelManager B → ModelManager B × Bool
  unfolding contains
  register_model load_conf name m =
      if contains name m.registry
      then (m, true)
      else elim (load_conf (str_append (str_append m.conf_path_prefix name) ".json")) [
        | none ↦ (m, false)
        | some conf ↦ (
          record m {
            registry =
                insert name (record { model_name = name; conf = some conf; state = registered })
                  m.registry;
          },
          true,
        )
      ]

  unfoldable pub unregister_model : String → ModelManager B → ModelManager B × Bool
  unregister_model name m = elim (lookup name m.registry) [
    | none ↦ (m, false)
    | some meta ↦
        if meta.state == registered
        then (m, false)
        else (record m { registry = erase name m.registry }, true)
  ]

  unfoldable pub enable_model : String → ModelManager B → ModelManager B × Bool
  enable_model name m = elim (lookup name m.registry) [
    | none ↦ (m, false)
    | some meta ↦ if meta.state == loaded then (set_state name meta enabled m, true) else (m, false)
  ]

  unfoldable pub disable_model : String → ModelManager B → ModelManager B × Bool
  disable_model name m = elim (lookup name m.registry) [
    | none ↦ (m, false)
    | some meta ↦ if meta.state == enabled then (set_state name meta loaded m, true) else (m, false)
  ]

  unfoldable pub resolve_model : String → ModelManager B → ModelMeta
  resolve_model name m = elim (lookup name m.registry) [
    | some meta ↦ meta
    | none ↦ record { model_name = name; conf = none; state = failed }
  ]

  -- The manager after a backend's method has changed the object under a type.
  abbrev pub put_backend : BackendType → B → ModelManager B → ModelManager B
  put_backend type backend m = record m { backends = insert type backend m.backends }

module _ {B : Type 0} ⦃i : IBackend B⦄ where
  -- The second operand of `&&`, and the body of the `if`.
  abbrev after_load :
      String → ModelMeta → BackendType → Bool → ModelManager B → B → Outcome (ModelManager B × Bool)
  after_load name meta type false m backend = done (m, false)
  after_load name meta type true m backend = do
    (backend', warm) ← i.warmup name backend
    let m' = put_backend type backend' m
    done (if warm then (set_state name meta loaded m', true) else (m', false))

  -- The branch of `loadModel` on a registered model: `load(conf) && warmup(name)`.
  unfoldable pub load_registered :
      String → ModelMeta → ModelManager B → Outcome (ModelManager B × Bool)
  load_registered name meta m = do
    conf ← deref meta.conf
    type ← backend_type_from_string conf.backend_type
    backend ← deref (get_backend type m.backends)
    (backend', was_loaded) ← i.load conf backend
    after_load name meta type was_loaded (put_backend type backend' m) backend'

  unfoldable pub load_model : String → ModelManager B → Outcome (ModelManager B × Bool)
  unfolding load_registered
  load_model name m = elim (lookup name m.registry) [
    | none ↦ done (m, false)
    | some meta ↦ if meta.state == registered then load_registered name meta m else done (m, false)
  ]

  unfoldable pub unload_loaded :
      String → ModelMeta → ModelManager B → Outcome (ModelManager B × Bool)
  unload_loaded name meta m = do
    conf ← deref meta.conf
    type ← backend_type_from_string conf.backend_type
    backend ← deref (get_backend type m.backends)
    (backend', was_unloaded) ← i.unload name backend
    let m' = put_backend type backend' m
    done (if was_unloaded then (set_state name meta registered m', true) else (m', false))

  unfoldable pub unload_model : String → ModelManager B → Outcome (ModelManager B × Bool)
  unfolding unload_loaded
  unload_model name m = elim (lookup name m.registry) [
    | none ↦ done (m, false)
    | some meta ↦ if meta.state == loaded then unload_loaded name meta m else done (m, false)
  ]
