-- ===== src/Application/Services.antt =====
-- crates/application/src/services: what the services share: the steps of a handler that runs in one unit of work.
pub mod Delivery
pub mod Publication
pub mod Feedback
pub mod Recovery
use quantalithos_bus.Base.{String, Option, none, some, Result, ok, err}
use quantalithos_bus.Base.Actions.{
  Action, pure, raise, gets, action_map_err, attempt, map_err, ◌>>=◌, ◌>>◌,
}
use quantalithos_bus.Base.Text.{Text}
use quantalithos_bus.Contracts.Core.{Core}
use quantalithos_bus.Application.Ports.{
  UnitOfWorkPurpose, UnitOfWorkHandle, CommitReceipt, RollbackReason, RepositoryError,
  BusRecordKind,
}
use quantalithos_bus.Application.Errors.{ApplicationError, error_code}
use quantalithos_bus.Application.Errors.From.{
  from_repository, from_unit_of_work, from_id_generation,
}
use quantalithos_bus.Infra.System.{System, begin, commit, rollback, next_record_id}

module _ ⦃core : Core⦄ where
  open core use {ActorContext, Timestamp}

  abbrev pub App : Type 0 → Type 0
  App A = Action System ApplicationError A

  -- `self.deps.unit_of_work.begin(purpose, actor).await?` and `….commit(handle).await.map_err(ApplicationError::from)?`
  unfoldable pub begin_unit : UnitOfWorkPurpose → ActorContext → App UnitOfWorkHandle
  unfolding begin action_map_err from_unit_of_work
  begin_unit purpose actor = action_map_err from_unit_of_work (begin purpose actor)

  unfoldable pub commit_unit : UnitOfWorkHandle → App CommitReceipt
  unfolding commit action_map_err from_unit_of_work
  commit_unit handle = action_map_err from_unit_of_work (commit handle)

  -- `self.deps.clock.now()`
  unfoldable pub clock_now : App Timestamp
  unfolding gets
  clock_now = gets System.now

  -- `repository.method(…).await?`
  unfoldable pub from_store : {A : Type 0} → Action System RepositoryError A → App A
  unfolding action_map_err from_repository
  from_store call = action_map_err from_repository call

  unfoldable pub rollback_with : {A : Type 0} → UnitOfWorkHandle → ApplicationError → App A
  unfolding rollback action_map_err ◌>>◌ raise from_unit_of_work error_code
  rollback_with handle error =
      action_map_err from_unit_of_work
        (rollback handle (RollbackReason.application_error (error_code error)))
      >> raise error

  -- `match result { Ok(value) => value, Err(error) => return self.rollback_with(handle, error.into()).await }`
  unfoldable pub settle :
      {E A : Type 0} → UnitOfWorkHandle → (E → ApplicationError) → Result E A → App A
  unfolding pure rollback_with
  settle handle from (ok value) = pure value
  settle handle from (err error) = rollback_with handle (from error)

  -- The same of the result of a call.
  unfoldable pub or_rollback :
      {E A : Type 0} → UnitOfWorkHandle → (E → ApplicationError) → Action System E A → App A
  unfolding attempt settle ◌>>=◌
  or_rollback handle from call = attempt call >>= settle handle from

  -- `match found { Some(value) => value, None => return self.rollback_with(handle, error).await }`
  unfoldable pub found_or_rollback :
      {A : Type 0} → UnitOfWorkHandle → ApplicationError → Option A → App A
  unfolding pure rollback_with
  found_or_rollback handle error (some value) = pure value
  found_or_rollback handle error none = rollback_with handle error

  -- `self.deps.id_generator.next_record_id(kind)?`
  unfoldable pub new_record_id : BusRecordKind → App Text
  unfolding next_record_id action_map_err from_id_generation
  new_record_id kind = action_map_err from_id_generation (next_record_id kind)
