-- ===== src/Tests/Steps.antt =====
-- The run of Tests.Run, as what happens to the platform.
use gip.Prelude.{ℕ, String, ◌≡◌, refl, true, false, List, Option, none, some, [], ◌∷◌, string_eq}
use gip.Prelude.Dict.{lookup, insert}
use gip.Models.{OperationInfo, ModelConf, Task, done, registered, loaded}
use gip.ConfigLoad.{load}
use gip.Backends.Onnx.{OnnxBackend, onnx_backend}
use gip.Scheduler.State.{Scheduler, set_operation}
use gip.HttpApi.Routes.{Handler, model_register, model_load, model_enable, inference_submit}
use gip.Operations.{get_operation}
use gip.Scheduler.Execution.Conclusion.{operation_of}
use gip.Scheduler.Places.Work.{takes, marks}
use gip.Scheduler.State.{cell_of}
use gip.Models.{ongoing}
use gip.Platform.Runs.{works, Happens, rests, requests, selects, executes}
use gip.Tests.Fixtures.{echo_ort}
use gip.Tests.Library.{library}
use gip.Tests.Service.{parser, some_file}
use gip.Tests.Run.{
  fresh, task, accepted, queued, finished, moment, naming, call, answer, with_model, session, ready,
  registers, loads, enables, submits, unit, sends,
}

abbrev pub conf_files : String → Option ModelConf
conf_files = load (library parser) some_file

-- What the requests of a client lead to, with no other thread at work meanwhile.
asks :
    (h : Handler) (taken : List Task) (s s' s'' : Scheduler (OnnxBackend ℕ))
    → call h s ≡ done (s', answer h s)
    → Happens (library parser) conf_files [] s' taken s''
    → Happens (library parser) conf_files [] s taken s''
asks h taken s s' s'' e rest =
    requests moment h naming [] taken s s' s'' (answer h s) (λ gap. rests) rests e rest

pub serves :
    (taken : List Task) (s : Scheduler (OnnxBackend ℕ))
    → Happens (library parser) conf_files [] accepted taken s
    → Happens (library parser) conf_files [] fresh taken s
serves taken s rest = asks model_register taken fresh (with_model registered []) s registers (
    asks model_load taken (with_model registered []) (with_model loaded session) s loads (
      asks model_enable taken (with_model loaded session) ready s enables
        (asks inference_submit taken ready accepted s submits rest)))

-- The dispatcher's round, and what follows.
pub sent :
    (taken : List Task) (s : Scheduler (OnnxBackend ℕ))
    → Happens (library parser) conf_files [] queued taken s
    → Happens (library parser) conf_files [] fresh taken s
sent taken s rest = serves taken s (selects true 0 [] taken accepted queued s false sends rest)

pub finishes : Happens (library parser) conf_files [] fresh [] finished
finishes = sent [] finished (executes (λ s. s) [] [] queued finished rests (rests [] finished))

-- A worker has the task in hand, and is about to call `infer`.
abbrev job_taken : Scheduler (OnnxBackend ℕ)
job_taken = record queued { thread_pool = [] }

abbrev pub started : Scheduler (OnnxBackend ℕ)
started = set_operation "op-7" ongoing (cell_of task job_taken).response none job_taken

pub starts : Happens (library parser) conf_files [] fresh (task ∷ []) started
starts = sent (task ∷ []) started (
    works [] (task ∷ []) (task ∷ []) queued job_taken started (takes [] unit [] queued refl) (
      works (task ∷ []) (task ∷ []) (task ∷ []) job_taken started started
        (marks [] [] task job_taken) (rests (task ∷ []) started)))

abbrev pub under_way : OperationInfo
under_way = operation_of "op-7" ongoing (cell_of task job_taken).response none

pub is_ongoing : get_operation "op-7" started.op_repository ≡ some under_way
unfolding get_operation lookup set_operation insert
is_ongoing = refl
