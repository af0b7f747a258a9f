-- ===== src/ModelManager/Lifecycle.antt =====
-- The life of a registered model (`ModelManager`): which states follow one another, and that an
-- operation on one model leaves the others as they are.
pub mod Steps
use gip.Prelude.{
  String, ◌≡◌, refl, ap, subst, ◌≢◌, ◌⊎◌, inl, inr, Bool, true, false, Option, none, some, ◌==◌,
  if◌then◌else◌, Bool-cases, Option-cases, eq_of_beq, ne_of_beq, string_eq,
}
use gip.Prelude.Dict.{
  lookup, insert, erase, contains, lookup-insert, lookup-insert_self, lookup-erase,
  lookup-erase_self,
}
use gip.Models.{
  BackendType, ModelState, model_state_eq, registered, loaded, enabled, ModelConf, ModelMeta,
  Outcome, done, throws, null_dereference, self_deadlock, ◌>>=◌,
}
use gip.Backends.{IBackend, backend_type_from_string, get_backend}
use gip.ModelManager.{
  ModelManager, register_model, unregister_model, enable_model, disable_model, load_registered,
  load_model, unload_loaded, unload_model, after_load, set_state, put_backend, deref,
}

-- The public operations that change the registry.
pub data Command : Type 0 where
  register : Command
  unregister : Command
  load : Command
  unload : Command
  enable : Command
  disable : Command

-- The state of a model, if it is registered, before and after a successful operation.
pub data Edge : Command → Option ModelState → Option ModelState → Type 0 where
  registers : Edge register none (some registered)
  loads : Edge load (some registered) (some loaded)
  unloads : Edge unload (some loaded) (some registered)
  enables : Edge enable (some loaded) (some enabled)
  disables : Edge disable (some enabled) (some loaded)
  removes : (st : ModelState) → st ≢ registered → Edge unregister (some st) none

abbrev pub state_in : Option ModelMeta → Option ModelState
state_in none = none
state_in (some meta) = some meta.state

module _ {B : Type 0} where
  abbrev pub state_of : String → ModelManager B → Option ModelState
  state_of name m = state_in (lookup name m.registry)

  -- The model of the operation goes along an edge, and all others stay as they are.
  pub record Moves (c : Command) (name : String) (m m' : ModelManager B) : Type 0 where
    pub edge : Edge c (state_of name m) (state_of name m')
    pub others : (j : String) → (name == j) ≡ false → lookup j m'.registry ≡ lookup j m.registry

module _ {B : Type 0} ⦃i : IBackend B⦄ where
  unfoldable pub apply :
      (String → Option ModelConf)
      → Command
      → String
      → ModelManager B
      → Outcome (ModelManager B × Bool)
  apply load_conf register name m = done (register_model load_conf name m)
  apply load_conf unregister name m = done (unregister_model name m)
  apply load_conf load name m = load_model name m
  apply load_conf unload name m = unload_model name m
  apply load_conf enable name m = done (enable_model name m)
  apply load_conf disable name m = done (disable_model name m)

-- What holds of the value of a call, where it returns.
abbrev pub Returned {ℓ κ} : {A : Type ℓ} → (A → Type κ) → Outcome A → Type κ
Returned P (done a) = P a
Returned P _ = Unit

pub Returned-bind {ℓ ι κ} :
    {A : Type ℓ} {B : Type ι} (P : B → Type κ) (o : Outcome A) (f : A → Outcome B)
    → ((a : A) → Returned P (f a))
    → Returned P (o >>= f)
Returned-bind P (done a) f h = h a
Returned-bind P (throws e) f h = tt
Returned-bind P null_dereference f h = tt
Returned-bind P self_deadlock f h = tt

module _ {B : Type 0} where
  -- An operation that answers `true` takes its model along an edge, but a model that is registered
  -- already; one that answers `false` leaves the registry as it is.
  abbrev pub Answer : Command → String → ModelManager B → ModelManager B × Bool → Type 0
  Answer c name m r =
      ((r.1 ≡ true) × Moves c name m r.0)
      ⊎ ((r.1 ≡ false) × (r.0.registry ≡ m.registry))
      ⊎ ((c ≡ register) × (r ≡ (m, true)))
