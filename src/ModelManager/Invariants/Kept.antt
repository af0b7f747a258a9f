-- ===== src/ModelManager/Invariants/Kept.antt =====
-- Every operation of `ModelManager` keeps an established property of the entries.
use gip.Prelude.{
  String, ◌≡◌, subst, inl, inr, Bool, true, false, Option, some, ◌==◌, if◌then◌else◌, Bool-cases,
  Option-cases, eq_of_beq, string_eq,
}
use gip.Prelude.Dict.{lookup}
use gip.Models.{BackendType, model_state_eq, registered, loaded, ModelConf, ModelMeta, done}
use gip.Backends.{IBackend, backend_type_from_string, get_backend}
use gip.ModelManager.{
  ModelManager, load_registered, load_model, unload_loaded, unload_model, after_load, set_state,
  put_backend, deref,
}
use gip.ModelManager.Lifecycle.{
  Command, register, unregister, load, unload, enable, disable, apply, Returned, unloads, loads,
}
use gip.ModelManager.Invariants.{
  Every, EveryAfter, IsEstablished, Returned-then, Every-insert, deref_done, enable_keeps,
  disable_keeps, unregister_keeps, register_keeps,
}

module _ {B : Type 0} ⦃i : IBackend B⦄ (load_conf : String → Option ModelConf)
    (P : String → ModelMeta → Type 0) (established : IsEstablished load_conf P) where
  load_keeps :
      (name : String) (m : ModelManager B)
      → Every P m.registry
      → Returned (EveryAfter P) (load_model name m)
  unfolding load_model load_registered
  load_keeps name m h = elim (Option-cases (lookup name m.registry)) [
    | inl e ↦ rw (e, load_model) h
    | inr (meta, e) ↦ elim (Bool-cases (meta.state == registered)) [
      | inr miss ↦ rw (e, load_model) (rw miss h)
      | inl hit ↦ rw (e, load_model) (rw hit (opened meta e hit))
    ]
  ]
    where
      warmed :
          (meta : ModelMeta) (type : BackendType)
          → P name (record meta { state = loaded })
          → (m' : ModelManager B) → Every P m'.registry
          → (backend' : B) (warm : Bool)
          → EveryAfter P (
              if warm
              then (set_state name meta loaded (put_backend type backend' m'), true)
              else (put_backend type backend' m', false))
      warmed meta type u m' h' backend' true = Every-insert P name _ m'.registry u h'
      warmed meta type u m' h' backend' false = h'

      finished :
          (meta : ModelMeta) (type : BackendType)
          → P name (record meta { state = loaded })
          → (m' : ModelManager B) → Every P m'.registry
          → (was_loaded : Bool) (backend : B)
          → Returned (EveryAfter P) (after_load name meta type was_loaded m' backend)
      finished meta type u m' h' false backend = h'
      finished meta type u m' h' true backend =
          Returned-then (EveryAfter P) (i.warmup name backend) _
            (λ r _. warmed meta type u m' h' r.0 r.1)

      opened :
          (meta : ModelMeta)
          → lookup name m.registry ≡ some meta
          → (meta.state == registered) ≡ true
          → Returned (EveryAfter P) (load_registered name meta m)
      opened meta e hit = Returned-then (EveryAfter P) (deref meta.conf) _ (λ conf c.
          Returned-then (EveryAfter P) (backend_type_from_string conf.backend_type) _ (λ type p.
            Returned-then (EveryAfter P) (deref (get_backend type m.backends)) _ (λ backend _.
              Returned-then (EveryAfter P) (i.load conf backend) _ (λ r _.
                finished meta type
                  (established.on_move load name meta loaded
                    (rw (eq_of_beq meta.state registered hit) loads)
                    (λ _. (conf, type, deref_done meta.conf conf c, p)) (h name meta e))
                  (put_backend type r.0 m) h r.1 r.0))))

  unload_keeps :
      (name : String) (m : ModelManager B)
      → Every P m.registry
      → Returned (EveryAfter P) (unload_model name m)
  unfolding unload_model unload_loaded
  unload_keeps name m h = elim (Option-cases (lookup name m.registry)) [
    | inl e ↦ rw (e, unload_model) h
    | inr (meta, e) ↦ elim (Bool-cases (meta.state == loaded)) [
      | inr miss ↦ rw (e, unload_model) (rw miss h)
      | inl hit ↦ rw (e, unload_model) (rw hit (opened meta e hit))
    ]
  ]
    where
      ended :
          (meta : ModelMeta)
          → P name (record meta { state = registered })
          → (type : BackendType) (backend' : B) (was_unloaded : Bool)
          → EveryAfter P (
              if was_unloaded
              then (set_state name meta registered (put_backend type backend' m), true)
              else (put_backend type backend' m, false))
      ended meta u type backend' true = Every-insert P name _ m.registry u h
      ended meta u type backend' false = h

      opened :
          (meta : ModelMeta)
          → lookup name m.registry ≡ some meta
          → (meta.state == loaded) ≡ true
          → Returned (EveryAfter P) (unload_loaded name meta m)
      opened meta e hit = Returned-then (EveryAfter P) (deref meta.conf) _ (λ conf _.
          Returned-then (EveryAfter P) (backend_type_from_string conf.backend_type) _ (λ type _.
            Returned-then (EveryAfter P) (deref (get_backend type m.backends)) _ (λ backend _.
              Returned-then (EveryAfter P) (i.unload name backend) _ (λ r _.
                ended meta
                  (established.on_move unload name meta registered
                    (rw (eq_of_beq meta.state loaded hit) unloads) (λ l. cc) (h name meta e))
                  type r.0 r.1))))

  -- Each operation that returns keeps an established property true of every entry.
  pub apply-Every :
      (c : Command) (name : String) (m m' : ModelManager B) (ok : Bool)
      → Every P m.registry
      → apply load_conf c name m ≡ done (m', ok)
      → Every P m'.registry
  unfolding apply
  apply-Every c name m m' ok h e = subst (Returned (EveryAfter P)) e (after c)
    where
      after : (c' : Command) → Returned (EveryAfter P) (apply load_conf c' name m)
      after register = register_keeps load_conf P established name m h
      after unregister = unregister_keeps load_conf P established name m h
      after load = load_keeps name m h
      after unload = unload_keeps name m h
      after enable = enable_keeps load_conf P established name m h
      after disable = disable_keeps load_conf P established name m h
