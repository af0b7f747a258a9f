-- ===== src/ModelManager/Soundness.antt =====
-- What the operations of `ModelManager` keep true of the registry: the types of backend that
-- `Scheduler::execute` reads can be converted without an exception.
use gip.Prelude.{String, ◌≡◌, refl, arith, Bool, false, Option, some, ◌==◌, string_eq}
use gip.Prelude.Dict.{Dict, lookup}
use gip.Models.{model_state_eq, ModelState, registered, ModelConf, ModelMeta, done}
use gip.Backends.{IBackend}
use gip.ModelManager.{ModelManager}
use gip.ModelManager.Lifecycle.{
  Command, load, apply, Edge, loads, unloads, enables, disables, registers, removes,
}
use gip.ModelManager.Invariants.{Usable, IsEstablished}
use gip.ModelManager.Invariants.Kept.{apply-Every}

-- Each model that is past its registration has a configuration, with a type of backend.
abbrev pub SoundEntry : String → ModelMeta → Type 0
SoundEntry name meta = (meta.state == registered) ≡ false → Usable meta

abbrev pub SoundRegistry : Dict String ModelMeta → Type 0
SoundRegistry r =
    (name : String) (meta : ModelMeta)
    → lookup name r ≡ some meta
    → (meta.state == registered) ≡ false
    → Usable meta

abbrev pub IsSound : {B : Type 0} → ModelManager B → Type 0
IsSound m = SoundRegistry m.registry

-- After an edge to a state past the registration.
Edge-Usable :
    {c : Command} {a b : Option ModelState} (meta : ModelMeta) (new : ModelState) (name : String)
    → Edge c a b
    → a ≡ some meta.state
    → b ≡ some new
    → (c ≡ load → Usable meta)
    → SoundEntry name meta
    → (new == registered) ≡ false
    → Usable meta
Edge-Usable meta new name registers p q usable h past = cc
Edge-Usable meta new name loads p q usable h past = usable refl
Edge-Usable meta new name unloads p q usable h past = ground arith
Edge-Usable meta new name enables p q usable h past = h (ground arith)
Edge-Usable meta new name disables p q usable h past = h (ground arith)
Edge-Usable meta new name (removes st n) p q usable h past = cc

SoundEntry-IsEstablished :
    (load_conf : String → Option ModelConf) → IsEstablished load_conf SoundEntry
SoundEntry-IsEstablished load_conf = record {
  on_registration = λ name path conf e past. cc;
  on_move =
      λ c name meta new edge usable h past. Edge-Usable meta new name edge refl refl usable h past;
}

-- Each operation of the model manager that returns, on any model and with any backend, keeps the
-- registry sound: a model that is past its registration has a configuration whose type of backend
-- can be converted.
pub apply-IsSound :
    {B : Type 0} ⦃i : IBackend B⦄ (load_conf : String → Option ModelConf) (c : Command)
    (name : String) (m m' : ModelManager B) (ok : Bool)
    → IsSound m
    → apply load_conf c name m ≡ done (m', ok)
    → IsSound m'
apply-IsSound load_conf c name m m' ok h e =
    apply-Every load_conf SoundEntry (SoundEntry-IsEstablished load_conf) c name m m' ok h e
