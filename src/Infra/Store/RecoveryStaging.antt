-- ===== src/Infra/Store/RecoveryStaging.antt =====
-- crates/infra/src/store.rs: staging the records of recovery.
use quantalithos_bus.Base.{
  ℕ, Bool, false, not, ◌&&◌, ◌||◌, Option, none, some, if◌then◌else◌, Result, ok, err,
}
use mathlib.Core.Option.{get_or}
use mathlib.Core.List.{any}
use quantalithos_bus.Base.Text.{text_eq}
use quantalithos_bus.Base.Maps.{get, insert, contains_key, values, text_key, id_key, pair_key}
use quantalithos_bus.Contracts.Core.{Core}
use quantalithos_bus.Contracts.Status.{RetryPlanStatus, retry_eq}
use quantalithos_bus.Contracts.Metadata.{DeadLetterId, ReplayApprovalRef, RetryPlanId}
use quantalithos_bus.Application.Ports.{RepositoryError}
use quantalithos_bus.Domain.Delivery.{is_some_of}
use quantalithos_bus.Domain.Recovery.DeadLetter.{DeadLetterEntry}
use quantalithos_bus.Domain.Recovery.Failure.{FailureMaterial}
use quantalithos_bus.Domain.Recovery.Replay.{ReplayPreparation}
use quantalithos_bus.Domain.Recovery.Retry.{RetryPlan}
use quantalithos_bus.Infra.Store.{MemoryStore, StagedTransaction, version_one}
use quantalithos_bus.Infra.Store.Staging.{with_staged}

module _ ⦃core : Core⦄ where
  open core use {Version, version_zero, next_version, version_eq}

  -- The `match` on the expected version of a retry plan.
  unfoldable pub version_refused : Option Version → Version → Option RepositoryError
  version_refused (some version) committed_version =
      if not (version_eq version committed_version)
      then some RepositoryError.version_conflict
      else none
  version_refused none committed_version =
      if not (version_eq committed_version version_zero)
      then some RepositoryError.unique_violation
      else none

  -- Another plan is the committed active plan of the delivery.
  unfoldable pub has_other_active : Option RetryPlanId → RetryPlanId → Bool
  has_other_active none id = false
  has_other_active (some existing_id) id = not (text_eq existing_id id)

  unfoldable pub conflicts_with : RetryPlan → RetryPlan → Bool
  conflicts_with retry_plan candidate =
      text_eq candidate.delivery_id retry_plan.delivery_id
      && retry_eq candidate.status RetryPlanStatus.scheduled
      && not (text_eq candidate.retry_plan_id retry_plan.retry_plan_id)

  -- `stage_retry_plan_save` below its `match`.
  unfoldable pub save_plan :
      MemoryStore
      → ℕ
      → RetryPlan
      → Version
      → Option RepositoryError
      → MemoryStore × Result RepositoryError Version
  unfolding with_staged insert get has_other_active conflicts_with
  save_plan inner transaction_id retry_plan committed_version (some e) = (inner, err e)
  save_plan inner transaction_id retry_plan committed_version none =
      if retry_eq retry_plan.status RetryPlanStatus.scheduled
        && has_other_active (get retry_plan.delivery_id inner.active_retry_plans)
            retry_plan.retry_plan_id
      then (inner, err RepositoryError.unique_violation)
      else with_staged inner transaction_id (λ staged.
        if retry_eq retry_plan.status RetryPlanStatus.scheduled
          && any (values staged.retry_plans) (conflicts_with retry_plan)
        then err RepositoryError.unique_violation
        else ok (
          record staged {
            retry_plans =
                insert retry_plan.retry_plan_id
                  (record retry_plan { version = next_version committed_version })
                  staged.retry_plans;
          },
          next_version committed_version,
        ))

  unfoldable pub stage_retry_plan_save :
      MemoryStore → ℕ → RetryPlan → Option Version → MemoryStore × Result RepositoryError Version
  unfolding save_plan get version_refused
  stage_retry_plan_save inner transaction_id retry_plan expected_version =
      let committed_version =
        get_or (get retry_plan.retry_plan_id inner.retry_plan_versions) version_zero in
      save_plan inner transaction_id retry_plan committed_version
        (version_refused expected_version committed_version)

  -- `stage_dead_letter_save` on the version of the failure material that it finds.
  unfoldable pub link_found :
      MemoryStore
      → ℕ
      → DeadLetterEntry
      → FailureMaterial
      → Option Version
      → MemoryStore × Result RepositoryError Version
  unfolding with_staged insert contains_key
  link_found inner transaction_id entry material none =
      (inner, err RepositoryError.version_conflict)
  link_found inner transaction_id entry material (some current_material_version) =
      with_staged inner transaction_id (λ staged.
        if contains_key entry.dead_letter_id staged.dead_letters
          || any (values staged.dead_letters)
              (λ candidate. text_eq candidate.delivery_id entry.delivery_id)
        then err RepositoryError.unique_violation
        else ok (
          record staged {
            dead_letters =
                insert entry.dead_letter_id (record entry { version = version_one })
                  staged.dead_letters;
            failure_materials =
                insert material.failure_material_id
                  (record material {
                    dead_letter_ref = some entry.dead_letter_id;
                    version = next_version current_material_version;
                  })
                  staged.failure_materials;
          },
          version_one,
        ))

  unfoldable pub stage_dead_letter_save :
      MemoryStore
      → ℕ
      → DeadLetterEntry
      → FailureMaterial
      → MemoryStore × Result RepositoryError Version
  unfolding link_found get contains_key
  stage_dead_letter_save inner transaction_id entry material =
      if contains_key entry.dead_letter_id inner.dead_letters
        || contains_key entry.delivery_id inner.active_dead_letters
      then (inner, err RepositoryError.unique_violation)
      else link_found inner transaction_id entry material
          (get material.failure_material_id inner.failure_material_versions)

  -- The preparation's approval is taken by a committed preparation, or by a staged one.
  unfoldable pub approval_committed : MemoryStore → DeadLetterId → Option ReplayApprovalRef → Bool
  unfolding contains_key
  approval_committed inner dead_letter_id none = false
  approval_committed inner dead_letter_id (some approval_ref) =
      let key : DeadLetterId × ReplayApprovalRef = (dead_letter_id, approval_ref) in
      contains_key key inner.replay_ready_by_dead_letter_approval

  unfoldable pub approval_staged :
      StagedTransaction → DeadLetterId → Option ReplayApprovalRef → Bool
  unfolding is_some_of
  approval_staged staged dead_letter_id none = false
  approval_staged staged dead_letter_id (some approval_ref) =
      any (values staged.replay_preparations) (λ candidate.
        text_eq candidate.dead_letter_id dead_letter_id
        && is_some_of candidate.approval_ref approval_ref)

  unfoldable pub stage_replay_preparation_save :
      MemoryStore → ℕ → ReplayPreparation → MemoryStore × Result RepositoryError Version
  unfolding with_staged insert get contains_key approval_committed approval_staged
  stage_replay_preparation_save inner transaction_id preparation =
      let new_version =
        next_version
          (get_or (get preparation.replay_id inner.replay_preparation_versions) version_zero) in
      if contains_key preparation.replay_id inner.replay_preparations
      then (inner, err RepositoryError.unique_violation)
      else if approval_committed inner preparation.dead_letter_id preparation.approval_ref
      then (inner, err RepositoryError.unique_violation)
      else with_staged inner transaction_id (λ staged.
        if contains_key preparation.replay_id staged.replay_preparations
        then err RepositoryError.unique_violation
        else if approval_staged staged preparation.dead_letter_id preparation.approval_ref
        then err RepositoryError.unique_violation
        else ok (
          record staged {
            replay_preparations =
                insert preparation.replay_id (record preparation { version = new_version })
                  staged.replay_preparations;
          },
          new_version,
        ))
