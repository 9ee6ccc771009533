-- ===== src/Infra/System.antt =====
-- crates/infra/src: the state of the in-memory adapters, which share the store, with the adapters of the unit of work
-- (uow.rs), the clock (time.rs) and the record ids (id.rs).
pub mod Repositories
pub mod Backend
use quantalithos_bus.Base.{
  ℕ, ◌+◌, ◌%◌, ◌++◌, Bool, Option, none, some, Result, ok, err, ltb, if◌then◌else◌,
}
use quantalithos_bus.Base.Actions.{Action}
use quantalithos_bus.Base.Text.{Text, codes, show}
use quantalithos_bus.Base.Maps.{Map}
use quantalithos_bus.Contracts.Core.{Core}
use quantalithos_bus.Contracts.Metadata.{BackendCapabilityRef, DeliveryId}
use quantalithos_bus.Contracts.Projections.{u64_mod}
use quantalithos_bus.Application.Ports.{
  UnitOfWorkPurpose, UnitOfWorkHandle, CommitReceipt, RepositoryError, UnitOfWorkError,
  BusRecordKind, RollbackReason,
}
use quantalithos_bus.Application.Errors.{TransportPortError, IdGenerationError}
use quantalithos_bus.Infra.Store.{MemoryStore}
use quantalithos_bus.Infra.Store.Transactions.{
  begin_transaction, commit_transaction, rollback_transaction,
}

pub record InMemoryTransportBackendAdapter : Type 0 where
  pub capability_ref : BackendCapabilityRef
  pub available : Bool
  pub failures : Map DeliveryId TransportPortError

-- The counters of `DeterministicIdGenerator`, one for each record kind.
pub record DeterministicIdGenerator : Type 0 where
  pub audit_entry : ℕ
  pub idempotency_anchor : ℕ

-- `{counter:04}`.
unfoldable pub pad_4 : ℕ → Text
pad_4 n =
    (if ltb n 10
      then codes "000"
      else if ltb n 100
      then codes "00"
      else if ltb n 1000
      then codes "0"
      else codes "")
    ++ show n

module _ ⦃core : Core⦄ where
  open core use {ActorContext, Timestamp}

  pub record System : Type 0 where
    pub store : MemoryStore
    pub now : Timestamp
    pub id_generator : DeterministicIdGenerator
    pub backend : InMemoryTransportBackendAdapter
    -- The failpoints of the audit repository and of the unit of work.
    pub fail_next_append : Option RepositoryError
    pub fail_next_commit : Option UnitOfWorkError

  -- A call of the store, on the system.
  unfoldable pub on_store :
      {E A : Type 0} → (MemoryStore → MemoryStore × Result E A) → Action System E A
  on_store call system =
      let (store, result) = call system.store in (record system { store = store }, result)

  unfoldable pub begin :
      UnitOfWorkPurpose → ActorContext → Action System UnitOfWorkError UnitOfWorkHandle
  unfolding on_store begin_transaction
  begin purpose actor = on_store (λ store. begin_transaction store purpose)

  -- `commit`, on what `fail_next_commit.take()` gives.
  unfoldable pub commit_taken :
      UnitOfWorkHandle → Option UnitOfWorkError → Action System UnitOfWorkError CommitReceipt
  unfolding on_store commit_transaction
  commit_taken handle (some error) system = (record system { fail_next_commit = none }, err error)
  commit_taken handle none system = on_store (λ store. commit_transaction store handle) system

  unfoldable pub commit : UnitOfWorkHandle → Action System UnitOfWorkError CommitReceipt
  unfolding commit_taken
  commit handle system = commit_taken handle system.fail_next_commit system

  unfoldable pub rollback :
      UnitOfWorkHandle → RollbackReason → Action System UnitOfWorkError (Unit {0})
  unfolding on_store rollback_transaction
  rollback handle reason = on_store (λ store. rollback_transaction store handle)

  unfoldable pub next_record_id : BusRecordKind → Action System IdGenerationError Text
  unfolding pad_4
  next_record_id BusRecordKind.audit_entry system =
      let counter = (system.id_generator.audit_entry + 1) % u64_mod in
      (
        record system { id_generator = record system.id_generator { audit_entry = counter } },
        ok (codes "audit_" ++ pad_4 counter),
      )
  next_record_id BusRecordKind.idempotency_anchor system =
      let counter = (system.id_generator.idempotency_anchor + 1) % u64_mod in
      (
        record system {
          id_generator = record system.id_generator { idempotency_anchor = counter };
        },
        ok (codes "anchor_" ++ pad_4 counter),
      )
