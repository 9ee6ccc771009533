-- ===== src/Infra/Store/Transactions.antt =====
-- crates/infra/src/store.rs: beginning, committing and rolling back a staged transaction.
use quantalithos_bus.Base.{
  ℕ, ◌+◌, ◌%◌, not, Option, none, some, List, [], ◌∷◌, ◌++◌, if◌then◌else◌, Result, ok, err,
}
use mathlib.Core.Option.{get_or}
use quantalithos_bus.Base.Text.{Text}
use quantalithos_bus.Base.Maps.{
  Map, get, insert, remove, insert_all, map_values, text_key, id_key, pair_key,
}
use quantalithos_bus.Contracts.Core.{Core}
use quantalithos_bus.Contracts.Status.{RetryPlanStatus, DeadLetterStatus, retry_eq, dead_letter_eq}
use quantalithos_bus.Contracts.Metadata.{
  DeadLetterId, DeliveryId, ProjectionVersion, PublicationId, ReplayApprovalRef,
  ReplayPreparationId, RetryPlanId,
}
use quantalithos_bus.Contracts.Projections.{next_after, u64_mod}
use quantalithos_bus.Application.Ports.{
  UnitOfWorkPurpose, UnitOfWorkHandle, CommitReceipt, UnitOfWorkError,
}
use quantalithos_bus.Domain.Audit.{BusAuditEntry}
use quantalithos_bus.Domain.Delivery.{DeliveryRecord, is_some_of}
use quantalithos_bus.Domain.Feedback.{FeedbackResult}
use quantalithos_bus.Domain.Publication.Acceptance.{PublicationAcceptance}
use quantalithos_bus.Domain.Recovery.DeadLetter.{DeadLetterEntry}
use quantalithos_bus.Domain.Recovery.Failure.{FailureMaterial}
use quantalithos_bus.Domain.Recovery.Replay.{ReplayPreparation}
use quantalithos_bus.Domain.Recovery.Retry.{RetryPlan}
use quantalithos_bus.Infra.Store.{MemoryStore, StagedTransaction, staged_new, anchor_key}

module _ ⦃core : Core⦄ where
  open core use {Version, version_zero, next_version}

  unfoldable pub begin_transaction :
      MemoryStore → UnitOfWorkPurpose → MemoryStore × Result UnitOfWorkError UnitOfWorkHandle
  unfolding staged_new insert
  begin_transaction inner purpose =
      let transaction_id = (inner.next_transaction_id + 1) % u64_mod in
      (
        record inner {
          next_transaction_id = transaction_id;
          transactions = insert transaction_id (staged_new purpose) inner.transactions;
        },
        ok (record { transaction_id = transaction_id; purpose = purpose }),
      )

  -- The loop over the staged publications, on `publication_versions`.
  unfoldable pub publication_versions_after :
      Map PublicationId PublicationAcceptance
      → Map PublicationId Version
      → Map PublicationId Version
  unfolding get insert
  publication_versions_after [] versions = versions
  publication_versions_after ((publication_id, acceptance) ∷ staged) versions =
      publication_versions_after staged (
        insert publication_id (next_version (get_or (get publication_id versions) version_zero))
          versions)

  -- The loops over staged projections and health views, on their versions.
  unfoldable pub projection_versions_after :
      {P : Type 0} → Map Text P → Map Text ProjectionVersion → Map Text ProjectionVersion
  unfolding get insert next_after
  projection_versions_after [] versions = versions
  projection_versions_after ((id, projection) ∷ staged) versions =
      projection_versions_after staged (insert id (next_after (get id versions)) versions)

  unfoldable pub active_plans_after :
      Map RetryPlanId RetryPlan → Map DeliveryId RetryPlanId → Map DeliveryId RetryPlanId
  unfolding get insert remove is_some_of
  active_plans_after [] active = active
  active_plans_after ((retry_plan_id, plan) ∷ staged) active = active_plans_after staged (
      if retry_eq plan.status RetryPlanStatus.scheduled
      then insert plan.delivery_id retry_plan_id active
      else if is_some_of (get plan.delivery_id active) retry_plan_id
      then remove plan.delivery_id active
      else active)

  unfoldable pub active_dead_letters_after :
      Map DeadLetterId DeadLetterEntry → Map DeliveryId DeadLetterId → Map DeliveryId DeadLetterId
  unfolding get insert remove is_some_of
  active_dead_letters_after [] active = active
  active_dead_letters_after ((dead_letter_id, dead_letter) ∷ staged) active =
      active_dead_letters_after staged (
        if not (dead_letter_eq dead_letter.status DeadLetterStatus.closed)
        then insert dead_letter.delivery_id dead_letter_id active
        else if is_some_of (get dead_letter.delivery_id active) dead_letter_id
        then remove dead_letter.delivery_id active
        else active)

  unfoldable pub approvals_after :
      Map ReplayPreparationId ReplayPreparation
      → Map (DeadLetterId × ReplayApprovalRef) ReplayPreparationId
      → Map (DeadLetterId × ReplayApprovalRef) ReplayPreparationId
  unfolding insert
  approvals_after [] ready = ready
  approvals_after ((replay_id, preparation) ∷ staged) ready =
      approvals_after staged (elim preparation.approval_ref [
        | none ↦ ready
        | some approval_ref ↦ insert (preparation.dead_letter_id, approval_ref) replay_id ready
      ])

  unfoldable pub audit_sequence_after : List BusAuditEntry → ℕ → ℕ
  audit_sequence_after [] sequence = sequence
  audit_sequence_after (audit ∷ staged) sequence =
      audit_sequence_after staged ((sequence + 1) % u64_mod)

  -- The loops of `commit_transaction`: each writes tables of its own, so they are one update.
  unfoldable pub commit_staged : MemoryStore → StagedTransaction → MemoryStore
  unfolding insert_all publication_versions_after projection_versions_after active_plans_after
      active_dead_letters_after approvals_after audit_sequence_after
  commit_staged inner staged = record inner {
    deliveries = insert_all staged.deliveries inner.deliveries;
    delivery_versions =
        insert_all (map_values DeliveryRecord.version staged.deliveries) inner.delivery_versions;
    feedbacks = insert_all staged.feedbacks inner.feedbacks;
    feedback_versions =
        insert_all (map_values FeedbackResult.version staged.feedbacks) inner.feedback_versions;
    feedback_sources = insert_all staged.feedback_sources inner.feedback_sources;
    publications = insert_all staged.publications inner.publications;
    publication_versions =
        publication_versions_after staged.publications inner.publication_versions;
    publication_materials = insert_all staged.publication_materials inner.publication_materials;
    transport_view_projections =
        insert_all staged.transport_view_projections inner.transport_view_projections;
    failure_summary_projections =
        insert_all staged.failure_summary_projections inner.failure_summary_projections;
    failure_summary_versions =
        projection_versions_after staged.failure_summary_projections inner.failure_summary_versions;
    backend_health_views = insert_all staged.backend_health_views inner.backend_health_views;
    backend_health_versions =
        projection_versions_after staged.backend_health_views inner.backend_health_versions;
    retry_plans = insert_all staged.retry_plans inner.retry_plans;
    retry_plan_versions =
        insert_all (map_values RetryPlan.version staged.retry_plans) inner.retry_plan_versions;
    active_retry_plans = active_plans_after staged.retry_plans inner.active_retry_plans;
    dead_letters = insert_all staged.dead_letters inner.dead_letters;
    dead_letter_versions =
        insert_all (map_values DeadLetterEntry.version staged.dead_letters)
          inner.dead_letter_versions;
    active_dead_letters = active_dead_letters_after staged.dead_letters inner.active_dead_letters;
    replay_preparations = insert_all staged.replay_preparations inner.replay_preparations;
    replay_preparation_versions =
        insert_all (map_values ReplayPreparation.version staged.replay_preparations)
          inner.replay_preparation_versions;
    replay_ready_by_dead_letter_approval =
        approvals_after staged.replay_preparations inner.replay_ready_by_dead_letter_approval;
    failure_materials = insert_all staged.failure_materials inner.failure_materials;
    failure_material_versions =
        insert_all (map_values FailureMaterial.version staged.failure_materials)
          inner.failure_material_versions;
    anchors = insert_all ⦃key = anchor_key⦄ staged.anchors inner.anchors;
    conflicts = inner.conflicts ++ staged.conflicts;
    audits = inner.audits ++ staged.audits;
    next_audit_sequence = audit_sequence_after staged.audits inner.next_audit_sequence;
  }

  -- What follows `transactions.remove(&id)`, on the transaction that it returned.
  unfoldable pub commit_removed :
      MemoryStore
      → UnitOfWorkHandle
      → Option StagedTransaction
      → MemoryStore × Result UnitOfWorkError CommitReceipt
  unfolding commit_staged
  commit_removed inner handle none = (inner, err UnitOfWorkError.invalid_handle)
  commit_removed inner handle (some staged) =
      (commit_staged inner staged, ok (record { transaction_id = handle.transaction_id }))

  unfoldable pub commit_transaction :
      MemoryStore → UnitOfWorkHandle → MemoryStore × Result UnitOfWorkError CommitReceipt
  unfolding commit_removed get remove
  commit_transaction inner handle =
      commit_removed
        (record inner { transactions = remove handle.transaction_id inner.transactions }) handle
        (get handle.transaction_id inner.transactions)

  -- `transactions.remove(&id).map(|_| ()).ok_or(InvalidHandle)`.
  unfoldable pub was_open : Option StagedTransaction → Result UnitOfWorkError (Unit {0})
  was_open none = err UnitOfWorkError.invalid_handle
  was_open (some staged) = ok tt

  unfoldable pub rollback_transaction :
      MemoryStore → UnitOfWorkHandle → MemoryStore × Result UnitOfWorkError (Unit {0})
  unfolding get remove was_open
  rollback_transaction inner handle = (
    record inner { transactions = remove handle.transaction_id inner.transactions },
    was_open (get handle.transaction_id inner.transactions),
  )
