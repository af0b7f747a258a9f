-- ===== src/Models.antt =====
-- The data model: include/common/ModelDef.hpp, include/common/models/ConfigModels.hpp and
-- include/common/models/InternalModels.hpp. A `std::shared_ptr` that may be null and a
-- `std::optional` are an `Option`.
mod Enums
mod Config
mod Request
mod Tasks
mod Pending
mod Snapshot
mod Faults
pub use Enums.*
pub use Config.*
pub use Request.*
pub use Tasks.*
pub use Pending.*
pub use Snapshot.*
pub use Faults.*
