-- ===== src/Models/Tasks.antt =====
-- `Task` and `DispatchUnit` of include/common/models/InternalModels.hpp. The queues, the table of
-- tracked tasks and the dispatch units share one task through a `std::shared_ptr<Task>`. Such a
-- pointer is the record `Task`: the address of the object with the members that never change once
-- it is built. The members that do change are a `TaskCell`, which a function from addresses holds.
-- Where the pointer may be null it is an `Option Task`. A time is a count of nanoseconds.
use gip.Prelude.{ℕ, String, Bool, false, List, ◌==◌, nat_eq, if◌then◌else◌}
use gip.Models.Enums.{ScheduleStrategy, fifo}
use gip.Models.Request.{RequestInfo, ResponseInfo, empty_response}

pub record Task : Type 0 where
  pub address : ℕ
  pub request : RequestInfo
  pub enqueued_at : ℕ

pub record TaskCell : Type 0 where
  pub response : ResponseInfo
  pub strategy : ScheduleStrategy
  pub cancel_requested : Bool

abbrev pub TaskCells : Type 0
TaskCells = ℕ → TaskCell

abbrev pub request_id : Task → String
request_id t = t.request.request_id

abbrev pub model_name : Task → String
model_name t = t.request.model_name

-- What the constructor of `Task` puts into the members that change.
abbrev pub new_cell : TaskCell
new_cell = record { response = empty_response; strategy = fifo; cancel_requested = false }

abbrev pub set_cell : Task → TaskCell → TaskCells → TaskCells
set_cell t c cells a = if a == t.address then c else cells a

pub record DispatchUnit : Type 0 where
  pub model_name : String
  pub strategy : ScheduleStrategy
  pub tasks : List Task
