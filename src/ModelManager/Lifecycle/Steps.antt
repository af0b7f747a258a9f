-- ===== src/ModelManager/Lifecycle/Steps.antt =====
-- Each operation of `ModelManager` against the life cycle.
use gip.Prelude.{
  String, ◌≡◌, refl, ap, subst, ◌≢◌, inl, inr, Bool, true, false, Option, none, some, ◌==◌,
  if◌then◌else◌, Bool-cases, Option-cases, eq_of_beq, ne_of_beq, string_eq,
}
use gip.Prelude.Dict.{
  lookup, insert, erase, contains, lookup-insert, lookup-insert_self, lookup-erase,
  lookup-erase_self,
}
use gip.Models.{
  BackendType, ModelState, model_state_eq, registered, loaded, enabled, ModelConf, ModelMeta, done,
}
use gip.Backends.{IBackend, backend_type_from_string, get_backend}
use gip.ModelManager.{
  ModelManager, register_model, unregister_model, enable_model, disable_model, load_registered,
  load_model, unload_loaded, unload_model, after_load, set_state, put_backend, deref,
}
use gip.ModelManager.Lifecycle.{
  Command, register, unregister, load, unload, enable, disable, Edge, registers, loads, unloads,
  enables, disables, removes, state_in, Moves, apply, Returned, Returned-bind, Answer,
}

module _ {B : Type 0} where
  stored-Moves :
      (c : Command) (name : String) (before : Option ModelMeta) (after : ModelMeta)
      (m m' : ModelManager B)
      → lookup name m.registry ≡ before
      → m'.registry ≡ insert name after m.registry
      → Edge c (state_in before) (some after.state)
      → Moves c name m m'
  stored-Moves c name before after m m' e q h = record {
    edge = rw (e, q, lookup-insert_self name after m.registry) h;
    others = λ j n. rw (q, lookup-insert name j after m.registry, n) refl;
  }

  erased-Moves :
      (name : String) (meta : ModelMeta) (m m' : ModelManager B)
      → lookup name m.registry ≡ some meta
      → m'.registry ≡ erase name m.registry
      → meta.state ≢ registered
      → Moves unregister name m m'
  erased-Moves name meta m m' e q h = record {
    edge = rw (e, q, lookup-erase_self name m.registry) (removes meta.state h);
    others = λ j n. rw (q, lookup-erase name j m.registry, n) refl;
  }

  set_state-Moves :
      (c : Command) (name : String) (meta : ModelMeta) (old new : ModelState)
      (m m' : ModelManager B)
      → lookup name m.registry ≡ some meta
      → (meta.state == old) ≡ true
      → m'.registry ≡ m.registry
      → Edge c (some old) (some new)
      → Moves c name m (set_state name meta new m')
  set_state-Moves c name meta old new m m' e h q edge =
      stored-Moves c name (some meta) (record meta { state = new }) m _ e
        (ap (insert name (record meta { state = new })) q) (rw (eq_of_beq meta.state old h) edge)

  guarded :
      (c : Command) (name : String) (meta : ModelMeta) (old new : ModelState) (m : ModelManager B)
      → lookup name m.registry ≡ some meta
      → Edge c (some old) (some new)
      → Answer c name m
          (if meta.state == old then (set_state name meta new m, true) else (m, false))
  guarded c name meta old new m e edge = elim (Bool-cases (meta.state == old)) [
    | inl h ↦ simp h (inl (refl, set_state-Moves c name meta old new m m e h refl edge))
    | inr h ↦ simp h (inr (inl (refl, refl)))
  ]

  enable-Answer : (name : String) (m : ModelManager B) → Answer enable name m (enable_model name m)
  unfolding enable_model
  enable-Answer name m = elim (Option-cases (lookup name m.registry)) [
    | inl e ↦ rw (e, enable_model) (inr (inl (refl, refl)))
    | inr (meta, e) ↦ rw (e, enable_model) (guarded enable name meta loaded enabled m e enables)
  ]

  disable-Answer :
      (name : String) (m : ModelManager B) → Answer disable name m (disable_model name m)
  unfolding disable_model
  disable-Answer name m = elim (Option-cases (lookup name m.registry)) [
    | inl e ↦ rw (e, disable_model) (inr (inl (refl, refl)))
    | inr (meta, e) ↦ rw (e, disable_model) (guarded disable name meta enabled loaded m e disables)
  ]

  unregister-Answer :
      (name : String) (m : ModelManager B) → Answer unregister name m (unregister_model name m)
  unfolding unregister_model
  unregister-Answer name m = elim (Option-cases (lookup name m.registry)) [
    | inl e ↦ rw (e, unregister_model) (inr (inl (refl, refl)))
    | inr (meta, e) ↦ elim (Bool-cases (meta.state == registered)) [
      | inl h ↦ rw (e, unregister_model) (rw h (inr (inl (refl, refl))))
      | inr h ↦
          rw (e, unregister_model)
            (rw h
              (inl (refl, erased-Moves name meta m _ e refl (ne_of_beq meta.state registered h))))
    ]
  ]

  register-Answer :
      (load_conf : String → Option ModelConf) (name : String) (m : ModelManager B)
      → Answer register name m (register_model load_conf name m)
  unfolding contains register_model
  register-Answer load_conf name m = elim (Option-cases (lookup name m.registry)) [
    | inr (meta, e) ↦ rw (e, register_model) (inr (inr (refl, refl)))
    | inl e ↦ rw (e, register_model) (from_file e _)
  ]
    where
      from_file :
          lookup name m.registry ≡ none
          → (found : Option ModelConf)
          → Answer register name m (elim found [
            | none ↦ (m, false)
            | some conf ↦ (
              record m {
                registry =
                    insert name
                      (record { model_name = name; conf = some conf; state = registered })
                      m.registry;
              },
              true,
            )
          ])
      from_file e none = inr (inl (refl, refl))
      from_file e (some conf) = inl (refl, stored-Moves register name none _ m _ e refl registers)

module _ {B : Type 0} ⦃i : IBackend B⦄ where
  after_load-Answer :
      (name : String) (meta : ModelMeta) (type : BackendType) (was_loaded : Bool) (backend : B)
      (m m' : ModelManager B)
      → lookup name m.registry ≡ some meta
      → (meta.state == registered) ≡ true
      → m'.registry ≡ m.registry
      → Returned (Answer load name m) (after_load name meta type was_loaded m' backend)
  after_load-Answer name meta type false backend m m' e h q = inr (inl (refl, q))
  after_load-Answer name meta type true backend m m' e h q =
      Returned-bind (Answer load name m) (i.warmup name backend) _ (λ r. warmed r.0 r.1)
    where
      warmed :
          (backend' : B) (warm : Bool)
          → Answer load name m (
              if warm
              then (set_state name meta loaded (put_backend type backend' m'), true)
              else (put_backend type backend' m', false))
      warmed backend' true =
          inl (refl, set_state-Moves load name meta registered loaded m _ e h q loads)
      warmed backend' false = inr (inl (refl, q))

  load-Answer :
      (name : String) (m : ModelManager B) → Returned (Answer load name m) (load_model name m)
  unfolding load_model load_registered
  load-Answer name m = elim (Option-cases (lookup name m.registry)) [
    | inl e ↦ rw (e, load_model) (inr (inl (refl, refl)))
    | inr (meta, e) ↦ elim (Bool-cases (meta.state == registered)) [
      | inr h ↦ rw (e, load_model) (rw h (inr (inl (refl, refl))))
      | inl h ↦ rw (e, load_model) (rw h (opened meta e h))
    ]
  ]
    where
      opened :
          (meta : ModelMeta)
          → lookup name m.registry ≡ some meta
          → (meta.state == registered) ≡ true
          → Returned (Answer load name m) (load_registered name meta m)
      opened meta e h = Returned-bind (Answer load name m) (deref meta.conf) _ (λ conf.
          Returned-bind (Answer load name m) (backend_type_from_string conf.backend_type) _ (λ type.
            Returned-bind (Answer load name m) (deref (get_backend type m.backends)) _ (λ backend.
              Returned-bind (Answer load name m) (i.load conf backend) _
                (λ r. after_load-Answer name meta type r.1 r.0 m _ e h refl))))

  unload-Answer :
      (name : String) (m : ModelManager B) → Returned (Answer unload name m) (unload_model name m)
  unfolding unload_model unload_loaded
  unload-Answer name m = elim (Option-cases (lookup name m.registry)) [
    | inl e ↦ rw (e, unload_model) (inr (inl (refl, refl)))
    | inr (meta, e) ↦ elim (Bool-cases (meta.state == loaded)) [
      | inr h ↦ rw (e, unload_model) (rw h (inr (inl (refl, refl))))
      | inl h ↦ rw (e, unload_model) (rw h (opened meta e h))
    ]
  ]
    where
      ended :
          (meta : ModelMeta) (type : BackendType)
          → lookup name m.registry ≡ some meta
          → (meta.state == loaded) ≡ true
          → (backend' : B) (was_unloaded : Bool)
          → Answer unload name m (
              if was_unloaded
              then (set_state name meta registered (put_backend type backend' m), true)
              else (put_backend type backend' m, false))
      ended meta type e h backend' true =
          inl (refl, set_state-Moves unload name meta loaded registered m _ e h refl unloads)
      ended meta type e h backend' false = inr (inl (refl, refl))

      opened :
          (meta : ModelMeta)
          → lookup name m.registry ≡ some meta
          → (meta.state == loaded) ≡ true
          → Returned (Answer unload name m) (unload_loaded name meta m)
      opened meta e h = Returned-bind (Answer unload name m) (deref meta.conf) _ (λ conf.
          Returned-bind (Answer unload name m) (backend_type_from_string conf.backend_type) _
            (λ type.
              Returned-bind (Answer unload name m) (deref (get_backend type m.backends)) _
                (λ backend.
                  Returned-bind (Answer unload name m) (i.unload name backend) _
                    (λ r. ended meta type e h r.0 r.1))))

  -- An operation of the model manager that returns `true` takes its model along an edge of the
  -- life cycle and leaves all other models as they are, but for the registration of a registered
  -- model, which changes nothing; one that returns `false` leaves the registry as it is. This holds
  -- for every backend, and every file of configuration.
  pub apply-FollowsLifecycle :
      (load_conf : String → Option ModelConf) (c : Command) (name : String) (m m' : ModelManager B)
      (ok : Bool)
      → apply load_conf c name m ≡ done (m', ok)
      → Answer c name m (m', ok)
  unfolding apply
  apply-FollowsLifecycle load_conf c name m m' ok e =
      subst (Returned (Answer c name m)) e (answer c)
    where
      answer : (c' : Command) → Returned (Answer c' name m) (apply load_conf c' name m)
      answer register = register-Answer load_conf name m
      answer unregister = unregister-Answer name m
      answer load = load-Answer name m
      answer unload = unload-Answer name m
      answer enable = enable-Answer name m
      answer disable = disable-Answer name m
