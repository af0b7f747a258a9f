-- ===== src/InferenceScenario/Outcomes.antt =====
-- The steps of a scenario, one after the other, up to its end.
use mathlib.Core.Option.{map}
use gip.Prelude.{
  ℕ, suc, String, ◌≡◌, refl, sym, ap, ◌∙◌, ◌⊎◌, inl, inr, Bool, true, false, Option, none, some,
  Bool-cases,
}
use gip.Models.{RequestInfo}
use gip.Json
use gip.Json.{JsonLibrary, Read, got, exception}
use gip.Scheduler.State.{Scheduler}
use gip.InferService.{Code, accepted, service_unavailable, Answer}
use gip.InferenceScenario.{
  dispatching, finalizing, finished, InferenceScenario, lacks_payload, preprocess_request,
  report_failure, fail, dispatch_step, build_accepted_message, is_ok, goes_on, returns, advance,
  process, after_process,
}

abbrev pub stopped : Answer
stopped = got (service_unavailable, "Inference scenario stopped")

abbrev pub no_payload : String
no_payload = "Inference request has no input payload"

abbrev pub not_submitted : String
not_submitted = "Failed to submit inference request to scheduler"

pub preprocess_passes :
    (request : RequestInfo) → lacks_payload request ≡ false → preprocess_request request ≡ none
unfolding preprocess_request
preprocess_passes request full = simp full

module _ {J O B : Type 0} (json : JsonLibrary J O)
    (submit : RequestInfo → Scheduler B → Scheduler B × Bool) (signal : ℕ → Bool) where
  -- The run from the k-th test of the signal on.
  abbrev pub final : ℕ → ℕ → InferenceScenario × Scheduler B → Option (Scheduler B × Answer)
  final fuel k st = map (after_process json submit) (process json submit fuel signal k st)

  -- The run ends in a state, with an answer or with that of a stop.
  abbrev pub Ended : Option (Scheduler B × Answer) → Scheduler B → Answer → Type 0
  Ended r s answer = (r ≡ some (s, answer)) ⊎ (r ≡ some (s, stopped))

  pub final_stop :
      (fuel k : ℕ) (sc : InferenceScenario) (s : Scheduler B)
      → signal k ≡ true
      → final (suc fuel) k (sc, s) ≡ some (s, stopped)
  unfolding process after_process
  final_stop fuel k sc s e = rw e refl

  pub final_go :
      (fuel k : ℕ) (sc : InferenceScenario) (s : Scheduler B) (st : InferenceScenario × Scheduler B)
      → signal k ≡ false
      → advance json submit sc.current_step sc s ≡ goes_on st
      → final (suc fuel) k (sc, s) ≡ final fuel (suc k) st
  unfolding process
  final_go fuel k sc s st e step = rw (e, process) (rw step refl)

  final_return :
      (fuel k : ℕ) (sc : InferenceScenario) (s : Scheduler B) (st : InferenceScenario × Scheduler B)
      (answer : Answer)
      → signal k ≡ false
      → advance json submit sc.current_step sc s ≡ returns st answer
      → final (suc fuel) k (sc, s) ≡ some (after_process json submit (st.0, st.1, answer))
  unfolding process
  final_return fuel k sc s st answer e step = rw (e, process) (rw step refl)

  Ended-at :
      (fuel k : ℕ) (sc : InferenceScenario) (s : Scheduler B) (answer : Answer)
      → (signal k ≡ false → final (suc fuel) k (sc, s) ≡ some (s, answer))
      → Ended (final (suc fuel) k (sc, s)) s answer
  Ended-at fuel k sc s answer h = elim (Bool-cases (signal k)) [
    | inl e ↦ inr (final_stop fuel k sc s e)
    | inr e ↦ inl (h e)
  ]

  pub failed-Ended :
      (fuel k : ℕ) (code : Code) (message : String) (sc : InferenceScenario) (s : Scheduler B)
      → is_ok code ≡ false
      → Ended
          (final (suc fuel) k (fail code message sc s))
          (report_failure sc message s)
          (got (code, message))
  unfolding fail after_process advance
  failed-Ended fuel k code message sc s bad =
      Ended-at fuel k _ (report_failure sc message s) (got (code, message))
        (λ e. final_return fuel k _ _ _ _ e refl ∙ rw bad refl)

  -- `{Code::Accepted, buildAcceptedMessage()}`
  abbrev pub accepted_answer : InferenceScenario → Answer
  accepted_answer sc =
      Json.◌>>=◌ (build_accepted_message json sc) (λ message. got (accepted, message))

  pub Ended-along :
      (o o' : Option (Scheduler B × Answer)) (s : Scheduler B) (a a' : Answer)
      → o ≡ o'
      → a ≡ a'
      → Ended o' s a'
      → Ended o s a
  Ended-along o o' s a a' e f (inl h) = inl (e ∙ h ∙ ap (λ x. some (s, x)) (sym f))
  Ended-along o o' s a a' e f (inr h) = inr (e ∙ h)

  finished-Ended :
      (fuel k : ℕ) (message : String) (sc : InferenceScenario) (s : Scheduler B)
      → Ended
          (final (suc fuel) k (
            record sc {
              terminal_code = accepted;
              terminal_message = message;
              current_step = finished;
            },
            s,
          ))
          s
          (got (accepted, message))
  unfolding after_process advance
  finished-Ended fuel k message sc s =
      Ended-at fuel k _ s (got (accepted, message)) (λ e. final_return fuel k _ _ _ _ e refl)

  finalizing-Ended :
      (fuel k : ℕ) (sc : InferenceScenario) (s : Scheduler B)
      → sc.current_step ≡ finalizing
      → Ended (final (suc (suc fuel)) k (sc, s)) s (accepted_answer sc)
  unfolding advance after_process
  finalizing-Ended fuel k sc s at = elim (Bool-cases (signal k)) [
    | inl e ↦ inr (final_stop (suc fuel) k _ s e)
    | inr e ↦ by_message (build_accepted_message json sc) refl e
  ]
    where
      by_message :
          (built : Read String)
          → build_accepted_message json sc ≡ built
          → signal k ≡ false
          → Ended (final (suc (suc fuel)) k (sc, s)) s (accepted_answer sc)
      by_message (got message) b e =
          Ended-along _ _ s _ (got (accepted, message))
            (final_go (suc fuel) k sc s _ e (simp (at, b, advance))) (rw b refl)
            (finished-Ended fuel (suc k) message sc s)
      by_message (exception m) b e = inl (
          final_return (suc fuel) k sc s (record sc { terminal_code = accepted }, s) (exception m) e
            (simp (at, b, advance))
          ∙ rw b refl)

  -- The scheduler has answered the submission, with `true` or `false`.
  abbrev pub SubmitEnds :
      InferenceScenario → Scheduler B × Bool → Option (Scheduler B × Answer) → Type 0
  SubmitEnds sc (s, true) r = Ended r s (accepted_answer sc)
  SubmitEnds sc (s, false) r =
      Ended r (report_failure sc not_submitted s) (got (service_unavailable, not_submitted))

  pub dispatching-Ends :
      (fuel k : ℕ) (sc : InferenceScenario) (s : Scheduler B)
      → (final (suc (suc (suc fuel))) k (record sc { current_step = dispatching }, s)
          ≡ some (s, stopped))
        ⊎ SubmitEnds sc
            (submit sc.request s)
            (final (suc (suc (suc fuel))) k (record sc { current_step = dispatching }, s))
  unfolding advance dispatch_step build_accepted_message report_failure
  dispatching-Ends fuel k sc s = elim (Bool-cases (signal k)) [
    | inl e ↦ inl (final_stop (suc (suc fuel)) k _ s e)
    | inr e ↦ inr (by_answer (submit sc.request s) refl e)
  ]
    where
      by_answer :
          (q : Scheduler B × Bool)
          → submit sc.request s ≡ q
          → signal k ≡ false
          → SubmitEnds sc q
              (final (suc (suc (suc fuel))) k (record sc { current_step = dispatching }, s))
      by_answer (s', true) q e =
          let next : InferenceScenario = record sc { current_step = finalizing } in
          Ended-along _ _ s' _ (accepted_answer next)
            (final_go (suc (suc fuel)) k _ s (next, s') e (rw (q, dispatch_step) refl)) refl
            (finalizing-Ended fuel (suc k) next s' refl)
      by_answer (s', false) q e =
          let here : InferenceScenario = record sc { current_step = dispatching } in
          Ended-along _ _ (report_failure here not_submitted s') _
            (got (service_unavailable, not_submitted))
            (final_go (suc (suc fuel)) k here s (fail service_unavailable not_submitted here s') e
              (rw (q, dispatch_step) refl))
            refl (failed-Ended (suc fuel) (suc k) service_unavailable not_submitted here s' refl)
