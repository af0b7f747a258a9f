-- ===== src/InferenceScenario/Runs.antt =====
-- How a run of a scenario ends.
use gip.Prelude.{ℕ, ◌≡◌, refl, ◌∙◌, ◌⊎◌, Bool, true, false, Option, some}
use gip.Models.{RequestInfo}
use gip.Json.{JsonLibrary, got}
use gip.Scheduler.State.{Scheduler}
use gip.InferService.{bad_request, Answer}
use gip.InferenceScenario.{
  preprocessing, dispatching, finalizing, InferenceScenario, new_scenario, lacks_payload, precheck,
  report_failure, validate_step, preprocess_step, dispatch_step, is_ok, stop_process, advance, run,
}
use gip.InferenceScenario.Outcomes.{
  stopped, no_payload, final, final_stop, final_go, preprocess_passes, SubmitEnds,
}

module _ {J O B : Type 0} (json : JsonLibrary J O)
    (submit : RequestInfo → Scheduler B → Scheduler B × Bool) (signal : ℕ → Bool) where
  -- How a run may end that has not been refused by `precheck`.
  abbrev pub ProcessEnds : InferenceScenario → Scheduler B → Option (Scheduler B × Answer) → Type 0
  ProcessEnds sc s r =
      (r ≡ some (s, stopped))
      ⊎ ((lacks_payload sc.request ≡ true)
          × (r ≡ some (report_failure sc no_payload s, got (bad_request, no_payload))
              ⊎ (r ≡ some (report_failure sc no_payload s, stopped))))
      ⊎ ((lacks_payload sc.request ≡ false)
          × SubmitEnds json submit signal sc (submit sc.request s) r)

  -- The stop is read first at the fourth test.
  fourth_stop :
      (has_scheduler has_updater : Bool) (request : RequestInfo) (s s' : Scheduler B)
      → is_ok (precheck (new_scenario has_scheduler has_updater request)).0 ≡ true
      → lacks_payload request ≡ false
      → submit request s ≡ (s', true)
      → signal 0 ≡ false
      → signal 1 ≡ false
      → signal 2 ≡ false
      → signal 3 ≡ true
      → run json submit 5 signal (new_scenario has_scheduler has_updater request) s
        ≡ some (s', stopped)
  unfolding run new_scenario advance validate_step preprocess_step dispatch_step
  fourth_stop has_scheduler has_updater request s s' pass full q e₀ e₁ e₂ e₃ =
      let first = new_scenario has_scheduler has_updater request in
      let second : InferenceScenario = record first { current_step = preprocessing } in
      let third : InferenceScenario = record first { current_step = dispatching } in
      let fourth : InferenceScenario = record first { current_step = finalizing } in
      let run : final json submit signal 5 0 (first, s) ≡ some (s', stopped) =
        final_go json submit signal 4 0 first s (second, s) e₀ (simp full)
        ∙ final_go json submit signal 3 1 second s (third, s) e₁
            (rw (preprocess_passes request full, preprocess_step) refl)
        ∙ final_go json submit signal 2 2 third s (fourth, s') e₂ (rw (q, dispatch_step) refl)
        ∙ final_stop json submit signal 1 3 fourth s' e₃ in
      simp pass run

-- A request that passes `precheck` and has an input, which the scheduler accepts, and whose scenario
-- is stopped between the third and the fourth test of its signal, is answered like one that was
-- never submitted, though the scheduler keeps the task.
pub stop_comes_late :
    {J O B : Type 0} (json : JsonLibrary J O)
    (submit : RequestInfo → Scheduler B → Scheduler B × Bool) (has_scheduler has_updater : Bool)
    (request : RequestInfo) (s s' : Scheduler B)
    → is_ok (precheck (new_scenario has_scheduler has_updater request)).0 ≡ true
    → lacks_payload request ≡ false
    → submit request s ≡ (s', true)
    → run json submit 5 (stop_process 3) (new_scenario has_scheduler has_updater request) s
      ≡ some (s', stopped)
stop_comes_late json submit has_scheduler has_updater request s s' pass full q =
    fourth_stop json submit (stop_process 3) has_scheduler has_updater request s s' pass full q refl
      refl refl refl
