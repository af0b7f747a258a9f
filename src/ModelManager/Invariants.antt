-- ===== src/ModelManager/Invariants.antt =====
-- Invariants of the registry (`ModelManager`): a property of each entry that the operations
-- establish and keep.
pub mod Kept
use Prim.Native.String.{◌++◌ as str_append}
use gip.Prelude.{
  String, ◌≡◌, refl, sym, subst, ◌∙◌, inl, inr, Bool, true, false, Option, none, some, ◌==◌,
  if◌then◌else◌, Bool-cases, Option-cases, eq_of_beq, string_eq,
}
use gip.Prelude.Dict.{Dict, lookup, insert, erase, contains, lookup-insert, lookup-erase}
use gip.Models.{
  BackendType, ModelState, model_state_eq, registered, loaded, enabled, ModelConf, ModelMeta,
  Outcome, done, throws, null_dereference, self_deadlock, ◌>>=◌,
}
use gip.Backends.{IBackend, backend_type_from_string, get_backend}
use gip.ModelManager.{
  ModelManager, register_model, unregister_model, enable_model, disable_model, load_registered,
  load_model, unload_loaded, unload_model, after_load, set_state, put_backend, deref,
}
use gip.ModelManager.Lifecycle.{
  Command, register, unregister, load, unload, enable, disable, apply, Returned, Edge, unloads,
  enables, disables, loads,
}

abbrev pub Usable : ModelMeta → Type 0
Usable meta =
    (conf : ModelConf) × (type : BackendType) × (meta.conf ≡ some conf)
    × (backend_type_from_string conf.backend_type ≡ done type)

module _ (P : String → ModelMeta → Type 0) where
  abbrev pub Every : Dict String ModelMeta → Type 0
  Every r = (name : String) (meta : ModelMeta) → lookup name r ≡ some meta → P name meta

  pub Every-insert :
      (k : String) (v : ModelMeta) (r : Dict String ModelMeta)
      → P k v
      → Every r
      → Every (insert k v r)
  Every-insert k v r u h name meta e = elim (Bool-cases (k == name)) [
    | inl hit ↦
        let stored : lookup name (insert k v r) ≡ some v =
          rw (lookup-insert k name v r, hit) refl in
        let same : v ≡ meta = cc in
        let same_name : k ≡ name = eq_of_beq k name hit in
        subst (λ n. P n meta) same_name (subst (P k) same u)
    | inr miss ↦
        let stored : lookup name (insert k v r) ≡ lookup name r =
          rw (lookup-insert k name v r, miss) refl in
        h name meta (sym stored ∙ e)
  ]

  pub Every-erase : (k : String) (r : Dict String ModelMeta) → Every r → Every (erase k r)
  Every-erase k r h name meta e = elim (Bool-cases (k == name)) [
    | inl hit ↦
        let gone : lookup name (erase k r) ≡ none = rw (lookup-erase k name r, hit) refl in cc
    | inr miss ↦
        let kept : lookup name (erase k r) ≡ lookup name r =
          rw (lookup-erase k name r, miss) refl in
        h name meta (sym kept ∙ e)
  ]

abbrev pub EveryAfter :
    {B : Type 0} → (String → ModelMeta → Type 0) → ModelManager B × Bool → Type 0
EveryAfter P r = Every P r.0.registry

-- What makes a property of the entries an invariant: a configuration that is read from a file has
-- it on its registration, and it survives each change of state, where a model is loaded only if
-- the type of its backend can be converted.
pub record IsEstablished (load_conf : String → Option ModelConf) (P : String → ModelMeta → Type 0)
    : Type 0 where
  pub on_registration :
      (name path : String) (conf : ModelConf)
      → load_conf path ≡ some conf
      → P name (record { model_name = name; conf = some conf; state = registered })
  pub on_move :
      (c : Command) (name : String) (meta : ModelMeta) (new : ModelState)
      → Edge c (some meta.state) (some new)
      → (c ≡ load → Usable meta)
      → P name meta
      → P name (record meta { state = new })

-- The rest of a `do` block may use what its first call has returned.
pub Returned-then {ℓ ι κ} :
    {A : Type ℓ} {B : Type ι} (P : B → Type κ) (o : Outcome A) (f : A → Outcome B)
    → ((a : A) → o ≡ done a → Returned P (f a))
    → Returned P (o >>= f)
Returned-then P (done a) f h = h a refl
Returned-then P (throws e) f h = tt
Returned-then P null_dereference f h = tt
Returned-then P self_deadlock f h = tt

pub deref_done : {A : Type 0} (o : Option A) (a : A) → deref o ≡ done a → o ≡ some a
deref_done none a e = cc
deref_done (some b) a e = cc

module _ {B : Type 0} (load_conf : String → Option ModelConf) (P : String → ModelMeta → Type 0)
    (established : IsEstablished load_conf P) where
  next_state :
      (c : Command) (name : String) (meta : ModelMeta) (old new : ModelState) (m : ModelManager B)
      → Edge c (some old) (some new)
      → (c ≡ load → ⊥)
      → Every P m.registry
      → lookup name m.registry ≡ some meta
      → EveryAfter P (if meta.state == old then (set_state name meta new m, true) else (m, false))
  next_state c name meta old new m edge no_load h e = elim (Bool-cases (meta.state == old)) [
    | inr miss ↦ simp miss h
    | inl hit ↦
        let is_old : meta.state ≡ old = eq_of_beq meta.state old hit in
        simp hit (
          Every-insert P name _ m.registry
            (established.on_move c name meta new (rw is_old edge) (λ l. absurd (no_load l))
              (h name meta e))
            h)
  ]

  pub enable_keeps :
      (name : String) (m : ModelManager B) → Every P m.registry → EveryAfter P (enable_model name m)
  unfolding enable_model
  enable_keeps name m h = elim (Option-cases (lookup name m.registry)) [
    | inl e ↦ rw (e, enable_model) h
    | inr (meta, e) ↦
        rw (e, enable_model) (next_state enable name meta loaded enabled m enables (λ l. cc) h e)
  ]

  pub disable_keeps :
      (name : String) (m : ModelManager B)
      → Every P m.registry
      → EveryAfter P (disable_model name m)
  unfolding disable_model
  disable_keeps name m h = elim (Option-cases (lookup name m.registry)) [
    | inl e ↦ rw (e, disable_model) h
    | inr (meta, e) ↦
        rw (e, disable_model) (next_state disable name meta enabled loaded m disables (λ l. cc) h e)
  ]

  pub unregister_keeps :
      (name : String) (m : ModelManager B)
      → Every P m.registry
      → EveryAfter P (unregister_model name m)
  unfolding unregister_model
  unregister_keeps name m h = elim (Option-cases (lookup name m.registry)) [
    | inl e ↦ rw (e, unregister_model) h
    | inr (meta, e) ↦ elim (Bool-cases (meta.state == registered)) [
      | inl hit ↦ rw (e, unregister_model) (simp hit h)
      | inr miss ↦ rw (e, unregister_model) (simp miss (Every-erase P name m.registry h))
    ]
  ]

  pub register_keeps :
      (name : String) (m : ModelManager B)
      → Every P m.registry
      → EveryAfter P (register_model load_conf name m)
  unfolding register_model contains
  register_keeps name m h = elim (Option-cases (lookup name m.registry)) [
    | inr (meta, e) ↦ rw (e, register_model) h
    | inl e ↦
        rw (e, register_model)
          (from_file (load_conf (str_append (str_append m.conf_path_prefix name) ".json")) refl)
  ]
    where
      from_file :
          (found : Option ModelConf)
          → load_conf (str_append (str_append m.conf_path_prefix name) ".json") ≡ found
          → EveryAfter {B = B} P (elim found [
            | none ↦ (m, false)
            | some conf ↦ (
              record m {
                registry =
                    insert name
                      (record { model_name = name; conf = some conf; state = registered })
                      m.registry;
              },
              true,
            )
          ])
      from_file none e = h
      from_file (some conf) e =
          Every-insert P name _ m.registry (established.on_registration name _ conf e) h
