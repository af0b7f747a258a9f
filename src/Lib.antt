-- ===== src/Lib.antt =====
-- The inference platform: a server that takes inference requests, schedules them over the models
-- that are enabled, and runs them on ONNX Runtime.
--
-- `InferServiceApiImpl` takes HTTP requests and calls `InferService`, which works on the model
-- manager, the scheduler and the operation repository. A request becomes a `Task`. `Scheduler` asks
-- the policy for a strategy, which keeps the waiting tasks and hands them out as dispatch units; a
-- worker of the thread pool executes a unit on the backend of its model and writes the outcome to
-- the operation repository, where the client reads it. `ModelManager` keeps the registry of models,
-- and loads and unloads their sessions through `BackendManager`.
--
-- The files, with the sources that they model:
--   Prelude           shared names, Booleans, words of 64 bits, integers, maps
--   Models            include/common/ModelDef.hpp, include/common/models/*.hpp
--   Operations        include/core/OperationRepository.hpp, src/core/OperationRepository.cpp,
--                     src/core/operations/OperationUpdater.cpp
--   Fifo              include/scheduler/strategies/StrategyFIFO.hpp and its .cpp
--   Batch             include/scheduler/strategies/StrategyBatch.hpp,
--                     src/scheduler/strategies/StratrgyBatch.cpp
--   Strategy          include/scheduler/strategies/IStrategy.hpp
--   Policy            include/scheduler/PolicySelector.hpp
--   Backends          include/backends/*.hpp, src/backends/BackendManager.cpp, and the conversions
--                     of backend types of src/common/Convertors.cpp
--   Backends.Onnx     src/backends/ONNXRuntimeBackend.cpp
--   Json, Convertors  src/common/Convertors.cpp, over the JSON library that it uses
--   ConfigLoad        src/common/ConfigLoad.cpp
--   Logger            include/common/Logger.hpp
--   ThreadPool        include/common/ThreadPool.hpp, src/common/ThreadPool.cpp
--   ModelManager      include/model_manager/ModelManager.hpp, src/model_manager/ModelManager.cpp
--   Scheduler         include/scheduler/Scheduler.hpp, src/scheduler/Scheduler.cpp
--   InferService      include/server/InferService.hpp, src/server/InferService.cpp
--   HttpApi           src/server/http/InferServiceApiImpl.cpp
--   InferenceScenario include/core/scenario/*.hpp, src/core/scenario/*.cpp,
--                     src/core/preprocess/InferencePreprocessor.cpp
--   Platform          src/core/Inference.cpp, and the platform as a whole
--   Tests             the theorems at concrete inputs
-- A method `fooBar` is the function `foo_bar`, with the object as its last argument; where a method
-- changes the object, the function returns the new one beside the result. `Scheduler.State` holds
-- the objects that the scheduler shares with the service through pointers. A task that is shared is
-- an address with its constant members, and its mutable members stand in a table of cells.
--
-- Numbers: counters are 64-bit words that wrap around; a time is a count of nanoseconds and an age
-- an integer of milliseconds; `size_t` sums of list lengths are not reduced, since memory bounds
-- them. Every loop is a recursion on the list that it runs over, but two: the workers of the pool
-- are a step relation, and the loop of a scenario runs on fuel, of which five is always enough.
--
-- Threads: every function under one lock is one step, and so is the rest of a method where no other
-- thread is let in: an admission, the end of a worker's round on a task, the end of a cancellation.
-- `ModelManager` has no mutex; its methods are steps all the same, and what a data race there does is
-- not modelled. Where a method holds no lock from one call to the next, it takes what the others do in
-- between as a function on the state: `during` is what happens while a worker is inside `infer`,
-- `between` what happens in each gap of `cancelTask` and before it (`Scheduler.Cancellation.Gap`),
-- `later` what happens between its return and the second look of `cancelInference`; `updater_update`
-- has a `between` of its own. `Platform.Runs` composes all parts: from a new platform on, requests,
-- rounds of the dispatcher, jobs and stops follow each other in any order. A job is executed at once,
-- or step by step, so that executions overlap in any way; what is in the hands of the workers is part
-- of the state, and `Scheduler.Places.Steps` is about the steps that an execution is made of. All of
-- this may happen again where `during`, `between` or `later` stand, as long as it ends with the same
-- tasks in hand as it begins with.
--
-- Parameters: ONNX Runtime is the record `Ort`, a backend the record `IBackend`, and nlohmann::json
-- the record `JsonLibrary`, with what it documents as `IsLawful`. A file is its text, a request of
-- Pistache is what the handlers read of it, and an answer what they send. `ConfigLoad::load` is a
-- function from paths for `ModelManager`; `ConfigLoad.Defaults` puts the two together. The text of
-- the clock's count, and the addresses of new tasks, are arguments.
--
-- The dispatcher's wait takes the tests of its predicate, with their times and the states that they
-- read, as an argument. Its round locks `strategies_mutex_`, which is a part of the state, and never
-- returns unless it ends the loop, since the code locks that mutex twice. So that what is shown of all
-- runs does not rest on this, a run may also contain rounds that give the mutex back before they
-- select (`Platform.Runs.selects`), as the code does not. A round takes the answer of
-- the thread pool. The scheduler keeps the units of the pool's jobs in `thread_pool`; the pool
-- itself, with its workers, is the module ThreadPool, and `Platform.Pool` puts the two together. An
-- exception that leaves a handler is an answer of the model, which Pistache turns into a status.
--
-- Not modelled: the routing inside of Pistache, and which lines the modelled functions log.
mod Prelude
pub mod Models
pub mod Operations
pub mod Json
pub mod Convertors
pub mod ConfigLoad
pub mod ThreadPool
pub mod Logger
pub mod Fifo
pub mod Policy
pub mod Batch
pub mod Backends
pub mod ModelManager
pub mod Strategy
pub mod Scheduler
pub mod InferService
pub mod HttpApi
pub mod InferenceScenario
pub mod Platform
mod Tests
