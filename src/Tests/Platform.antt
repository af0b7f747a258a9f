-- ===== src/Tests/Platform.antt =====
-- What holds of the platform, on the run of Tests.Run and Tests.Steps.
use gip.Prelude.{◌≡◌, refl, false, none, [], ◌∷◌, ◌++◌, string_eq}
use mathlib.Core.List.{Mem}
use gip.Models.{Task, done, request_id}
use gip.Backends.Onnx.{onnx_backend}
use gip.Scheduler.State.{tracked_task}
use gip.Scheduler.Cancellation.Search.{all_waiting}
use gip.Scheduler.Execution.{run_job}
use gip.Scheduler.Places.{job_tasks}
use gip.Scheduler.Places.Operations.{is_open}
use gip.Platform.Runs.{rests, Happens-Accounts, Happens-Owes, Happens-settled, Happens-run_job}
use gip.Tests.Fixtures.{echo_ort}
use gip.Tests.Library.{library}
use gip.Tests.Scheduling.{always-Responds}
use gip.Tests.Service.{parser}
use gip.Tests.Run.{task, accepted, finished, queued, failed, ended, tracks}
use gip.Tests.Steps.{conf_files, serves, sent, finishes, starts, started, under_way, is_ongoing}

Happens-Owes_example :
    (t : Task) × (request_id t ≡ "op-7")
    × Mem t (task ∷ all_waiting started.strategies ++ job_tasks started.thread_pool)
Happens-Owes_example =
    Happens-Owes (library parser) conf_files always-Responds [] "configs" 4 (task ∷ []) started
      starts "op-7" under_way is_ongoing refl

Happens-Accounts_example :
    (request_id task ≡ "op-7")
    × Mem task (all_waiting accepted.strategies ++ job_tasks accepted.thread_pool)
Happens-Accounts_example =
    Happens-Accounts (library parser) conf_files always-Responds [] "configs" 4 [] accepted
      (serves [] accepted (rests [] accepted)) "op-7" task tracks

Happens-settled_example : (is_open failed.state ≡ false) × (tracked_task "op-7" finished ≡ none)
Happens-settled_example =
    Happens-settled (library parser) conf_files always-Responds [] "configs" 4 [] finished finishes
      refl ended.0 ended.1 "op-7" failed ended.2

Happens-run_job_example : (run_job (λ s. s) queued).1 ≡ done tt
Happens-run_job_example =
    Happens-run_job (library parser) conf_files always-Responds [] "configs" 4 [] queued
      (sent [] queued (rests [] queued)) (λ s. s) rests
