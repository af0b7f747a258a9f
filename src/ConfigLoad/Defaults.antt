-- ===== src/ConfigLoad/Defaults.antt =====
-- What a configuration that comes from a file does not say, and what the platform does of it: the
-- composition of `ConfigLoad`, `ModelManager` and the default policy.
use Prim.Native.String.{◌++◌ as str_append}
use gip.Prelude.{
  ℕ, String, ◌≡◌, refl, sym, ap, inl, inr, subst, Bool, false, Option, none, some, [], ◌==◌,
  string_eq, Bool-cases, Option-cases, arith,
}
use gip.Prelude.Dict.{lookup}
use gip.Models.{ModelConf, ModelMeta, done, fifo}
use gip.Json.{JsonLibrary, Read, got, exception, ◌>>=◌, Gives, Gives-bind}
use gip.Convertors.{conf_from_json}
use gip.Convertors.RoundTrip.{kept_in_json}
use gip.ConfigLoad.{load, read_conf}
use gip.Backends.{IBackend}
use gip.Policy.{select_strategy, SchedulingContext}
use gip.Strategy.{Strategy}
use gip.ModelManager.{ModelManager, resolve_model}
use gip.ModelManager.Lifecycle.{Command, apply}
use gip.ModelManager.Invariants.{Every, IsEstablished}
use gip.ModelManager.Invariants.Kept.{apply-Every}
use gip.Scheduler.State.{Scheduler, build_admission_context}
use gip.Scheduler.Admission.{must_drop}

-- The seven members that `from_json` does not read have their defaults.
abbrev pub IsPlain : ModelConf → Type 0
IsPlain conf = kept_in_json conf ≡ conf

abbrev pub PlainEntry : String → ModelMeta → Type 0
PlainEntry name meta = (conf : ModelConf) → meta.conf ≡ some conf → IsPlain conf

module _ {J O : Type 0} (json : JsonLibrary J O) where
  conf_from_json-IsPlain : (j : J) → Gives IsPlain (conf_from_json json j)
  unfolding conf_from_json
  conf_from_json-IsPlain j = ground arith

  -- A configuration that `ConfigLoad::load` returns, from any file and with any JSON library, has
  -- the defaults of the seven members that `from_json` does not read.
  pub load-IsPlain :
      (read_file : String → Option String) (path : String) (conf : ModelConf)
      → load json read_file path ≡ some conf
      → IsPlain conf
  unfolding load read_conf
  load-IsPlain read_file path conf e = from_read (read_conf json read_file path) plain e
    where
      on_file :
          (file : Option String)
          → Gives IsPlain (elim file [
            | none ↦ exception (str_append "Could not open config file: " path)
            | some text ↦ (do json_data ← json.read_stream text; conf_from_json json json_data)
          ])
      on_file none = tt
      on_file (some text) =
          Gives-bind IsPlain (json.read_stream text) _ (λ j. conf_from_json-IsPlain j)

      plain : Gives IsPlain (read_conf json read_file path)
      plain = on_file (read_file path)

      from_read :
          (r : Read ModelConf)
          → Gives IsPlain r
          → elim r [ got c ↦ some c | exception m ↦ none ] ≡ some conf
          → IsPlain conf
      from_read (got c) p e = let same : c ≡ conf = cc in subst IsPlain same p
      from_read (exception m) p e = cc

  PlainEntry-IsEstablished :
      (read_file : String → Option String) → IsEstablished (load json read_file) PlainEntry
  PlainEntry-IsEstablished read_file = record {
    on_registration = λ name path conf e c same.
        let equal : conf ≡ c = cc in subst IsPlain equal (load-IsPlain read_file path conf e);
    on_move = λ c name meta new edge usable h. h;
  }

-- The managers that operations lead to, those that return.
pub data Reaches {B : Type 0} ⦃i : IBackend B⦄ (load_conf : String → Option ModelConf)
    (start : ModelManager B) : ModelManager B → Type 0 where
  here : Reaches load_conf start start
  step :
      (c : Command) (name : String) (m m' : ModelManager B) (ok : Bool)
      → Reaches load_conf start m
      → apply load_conf c name m ≡ done (m', ok)
      → Reaches load_conf start m'

module _ {B : Type 0} ⦃i : IBackend B⦄ (load_conf : String → Option ModelConf)
    (P : String → ModelMeta → Type 0) (established : IsEstablished load_conf P) where
  reached-Every :
      (start m : ModelManager B)
      → Every P start.registry
      → Reaches load_conf start m
      → Every P m.registry
  reached-Every start _ h here = h
  reached-Every start _ h (step c name m m' ok r e) =
      apply-Every load_conf P established c name m m' ok (reached-Every start m h r) e

resolve-PlainEntry :
    {B : Type 0} (name : String) (m : ModelManager B)
    → Every PlainEntry m.registry
    → PlainEntry name (resolve_model name m)
unfolding resolve_model
resolve-PlainEntry name m h = elim (Option-cases (lookup name m.registry)) [
  | inl e ↦ rw (e, resolve_model) (λ conf same. cc)
  | inr (meta, e) ↦ rw (e, resolve_model) (h name meta e)
]

plain_routed :
    (name : String) (context : SchedulingContext) (strat : Strategy)
    → PlainEntry name context.model_meta
    → (select_strategy context ≡ fifo) × (must_drop context strat ≡ false)
unfolding select_strategy must_drop
plain_routed name context strat plain = elim (Option-cases context.model_meta.conf) [
  | inl e ↦ rw e (refl, refl)
  | inr (conf, e) ↦
      let kept : IsPlain conf = plain conf e in
      let preferred : conf.schedule_strategy ≡ fifo = ap (λ c. c.schedule_strategy) (sym kept) in
      let patient : conf.drop_if_queue_full ≡ false = ap (λ c. c.drop_if_queue_full) (sym kept) in
      ground arith
]

context-PlainEntry :
    {B : Type 0} (now : ℕ) (name : String) (s : Scheduler B)
    → Every PlainEntry s.model_manager.registry
    → PlainEntry name (build_admission_context now name s).model_meta
unfolding build_admission_context
context-PlainEntry now name s h = elim (Bool-cases (name == "")) [
  | inl e ↦ rw e (λ conf same. cc)
  | inr e ↦ rw e (resolve-PlainEntry name s.model_manager h)
]

none_stored : (j : String) (meta : ModelMeta) → lookup j [] ≡ some meta → ⊥
unfolding lookup
none_stored j meta e = cc

module _ {J O B : Type 0} (json : JsonLibrary J O) ⦃i : IBackend B⦄ where
  -- In a scheduler whose model manager started with no models and got to its state by operations
  -- that read their configurations with `ConfigLoad::load`, the default policy routes a request for
  -- any name to FIFO, and no request is dropped for a full queue.
  pub loaded_models_route :
      (read_file : String → Option String) (start : ModelManager B) (now : ℕ) (name : String)
      (strat : Strategy) (s : Scheduler B)
      → start.registry ≡ []
      → Reaches (load json read_file) start s.model_manager
      → (select_strategy (build_admission_context now name s) ≡ fifo)
        × (must_drop (build_admission_context now name s) strat ≡ false)
  loaded_models_route read_file start now name strat s none_yet r =
      let empty : Every PlainEntry start.registry =
        rw none_yet (λ j meta e. absurd (none_stored j meta e)) in
      plain_routed name (build_admission_context now name s) strat (
        context-PlainEntry now name s (
          reached-Every (load json read_file) PlainEntry (PlainEntry-IsEstablished json read_file)
            start s.model_manager empty r))
