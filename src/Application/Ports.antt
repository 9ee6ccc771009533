-- ===== src/Application/Ports.antt =====
-- crates/application/src/ports and errors.rs: the data of the ports, and the errors of the store.
use quantalithos_bus.Base.{ℕ, Bool, String}
use quantalithos_bus.Contracts.Core.{Core}
use quantalithos_bus.Contracts.Status.{JobTriggerSource}
use quantalithos_bus.Contracts.Metadata.{JobMetadata, BackendCapabilityRef}
use quantalithos_bus.Contracts.Projections.{BackendId}

pub data UnitOfWorkPurpose : Type 0 where
  accept_publication consume_committed_outbox_fact run_delivery_progression : UnitOfWorkPurpose
  record_delivery_feedback consume_backend_delivery_signal : UnitOfWorkPurpose
  consume_timeout_signal request_retry run_retry_cycle : UnitOfWorkPurpose
  move_delivery_to_dead_letter prepare_replay : UnitOfWorkPurpose

pub record UnitOfWorkHandle : Type 0 where
  pub transaction_id : ℕ
  pub purpose : UnitOfWorkPurpose

pub record CommitReceipt : Type 0 where
  pub transaction_id : ℕ

pub data RepositoryError : Type 0 where
  unavailable version_conflict unique_violation sequence_conflict corrupted_record : RepositoryError

pub data UnitOfWorkError : Type 0 where
  begin_failed commit_failed commit_uncertain rollback_failed invalid_handle : UnitOfWorkError

pub data RollbackReason : Type 0 where
  application_error : String → RollbackReason

pub data BusRecordKind : Type 0 where
  audit_entry idempotency_anchor : BusRecordKind

module _ ⦃core : Core⦄ where
  open core use {JobRunId, TraceId}

  pub record BackendDispatchContext : Type 0 where
    pub job_run_id : JobRunId
    pub trace_ref : TraceId
    pub trigger_source : JobTriggerSource
    pub backend_id : BackendId

  abbrev pub context_from_job : JobMetadata → BackendId → BackendDispatchContext
  context_from_job meta backend_id = record {
    job_run_id = meta.job_run_id;
    trace_ref = meta.trace_ref;
    trigger_source = meta.trigger_source;
    backend_id = backend_id;
  }

pub record BackendCapabilityReport : Type 0 where
  pub capability_ref : BackendCapabilityRef
  pub available : Bool
