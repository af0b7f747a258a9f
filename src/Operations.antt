-- ===== src/Operations.antt =====
-- `OpRepository` (include/core/OperationRepository.hpp, src/core/OperationRepository.cpp) and
-- `OperationUpdater` (src/core/operations/OperationUpdater.cpp): the table of operations by id,
-- which the service, the scheduler and the scenarios share.
pub mod Updates
use gip.Prelude.{String, Bool, true, false, Option, none, some, string_eq}
use gip.Prelude.Dict.{Dict, lookup, insert, erase}
use gip.Models.{OperationState, ongoing, success, failure, OperationInfo, ResponseInfo}

abbrev pub OpRepository : Type 0
OpRepository = Dict String OperationInfo

unfoldable pub add_operation : OperationInfo → OpRepository → OpRepository
add_operation op_info r = insert op_info.id op_info r

-- `none` is `{false, {}}`.
unfoldable pub get_operation : String → OpRepository → Option OperationInfo
get_operation op_id r = lookup op_id r

unfoldable pub update_operation : String → OperationInfo → OpRepository → OpRepository
update_operation op_id op_info r = insert op_id op_info r

unfoldable pub remove_operation : String → OpRepository → OpRepository
remove_operation op_id r = erase op_id r

unfoldable pub covert_state : OperationState → String
covert_state ongoing = "ONGOING"
covert_state success = "SUCCESS"
covert_state failure = "FAILURE"
covert_state _ = "UNKNOWN"

-- `OperationUpdater::update` on a repository that is there. The mutex is free between its look and
-- its write: `between` is what the other threads do to the repository meanwhile.
unfoldable pub update_found :
    (OpRepository → OpRepository)
    → String
    → OperationState
    → ResponseInfo
    → Option String
    → OpRepository
    → OpRepository × Bool
unfolding get_operation update_operation
update_found between id new_state response message r = elim (get_operation id r) [
  | none ↦ (r, false)
  | some existing ↦ (
    update_operation id
        (record existing { state = new_state; response = response; message = message }) (between r),
    true,
  )
]

-- `OperationUpdater::update`; `none` is a null repository.
unfoldable pub updater_update :
    (OpRepository → OpRepository)
    → String
    → OperationState
    → ResponseInfo
    → Option String
    → Option OpRepository
    → Option OpRepository × Bool
unfolding update_found
updater_update between id new_state response message none = (none, false)
updater_update between id new_state response message (some r) =
    let (r', updated) = update_found between id new_state response message r in (some r', updated)
