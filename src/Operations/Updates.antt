-- ===== src/Operations/Updates.antt =====
-- What `OperationUpdater::update` leaves in the repository.
use gip.Prelude.{
  String, ◌≡◌, refl, ◌⊎◌, inl, inr, true, false, Option, none, some, ◌==◌, string_eq, if◌then◌else◌,
  Option-cases,
}
use gip.Prelude.Dict.{lookup-insert}
use gip.Models.{OperationState, OperationInfo, ResponseInfo}
use gip.Operations.{OpRepository, get_operation, update_operation, update_found, updater_update}

-- The repository is there, and afterwards the operation with the id reads as it was found, with the
-- new state, response and message; every other operation reads as the other threads have left it.
pub record IsUpdated (between : OpRepository → OpRepository) (id : String) (state : OperationState)
    (response : ResponseInfo) (message : Option String) (r : OpRepository)
    (after : Option OpRepository) : Type 0 where
  pub existing : OperationInfo
  pub left : OpRepository
  pub found : get_operation id r ≡ some existing
  pub is_left : after ≡ some left
  pub reads :
      (j : String)
      → get_operation j left ≡ (
          if id == j
          then some (record existing { state = state; response = response; message = message })
          else get_operation j (between r))

-- No repository, or no operation with the id in it.
abbrev pub IsMissing : String → Option OpRepository → Type 0
IsMissing id none = Unit
IsMissing id (some r) = get_operation id r ≡ none

abbrev pub UpdateResult :
    (OpRepository → OpRepository)
    → String
    → OperationState
    → ResponseInfo
    → Option String
    → Option OpRepository
    → Type 0
UpdateResult between id state response message before =
    let result = updater_update between id state response message before in
    ((result.1 ≡ true)
      × (r : OpRepository) × (before ≡ some r)
      × IsUpdated between id state response message r result.0)
    ⊎ (IsMissing id before × (result ≡ (before, false)))

-- `update` answers `true`, and afterwards the operation with the id has the id and the type that were
-- found and the new state, response and message, whatever other threads have made of it between the
-- look and the write, and every other operation is as they have left it; or the repository is null or
-- has no such operation, and `update` answers `false` and changes nothing.
pub updater_update-UpdateResult :
    (between : OpRepository → OpRepository) (id : String) (state : OperationState)
    (response : ResponseInfo) (message : Option String) (before : Option OpRepository)
    → UpdateResult between id state response message before
unfolding updater_update update_found get_operation update_operation
updater_update-UpdateResult between id state response message none = inr (tt, refl)
updater_update-UpdateResult between id state response message (some r) =
    elim (Option-cases (get_operation id r)) [
      | inl e ↦ rw (e, update_found) (inr (refl, refl))
      | inr (existing, e) ↦
          rw (e, update_found)
            (inl (
              refl,
              r,
              refl,
              record {
                existing = existing;
                left =
                    update_operation id
                      (record existing { state = state; response = response; message = message })
                      (between r);
                found = e;
                is_left = refl;
                reads = λ j. lookup-insert id j _ (between r);
              },
            ))
    ]
