-- ===== src/Domain/Recovery/Replay.antt =====
-- crates/domain/src/recovery.rs: replay preparations.
use quantalithos_bus.Base.{not, Option, none, some, ◌++◌, if◌then◌else◌, Result, ok, err}
use quantalithos_bus.Base.Text.{codes, is_blank}
use quantalithos_bus.Contracts.Core.{Core}
use quantalithos_bus.Contracts.Status.{
  DeadLetterStatus, ReplayPreparationStatus, dead_letter_eq, replay_eq,
}
use quantalithos_bus.Contracts.Metadata.{
  AuditChainRef, DeadLetterId, ReplayApprovalRef, ReplayPreparationId, ReplayPreparationRef,
  ReplayRejectReason, sanitize,
}
use quantalithos_bus.Domain.Errors.{DomainError}
use quantalithos_bus.Domain.Recovery.DeadLetter.{DeadLetterEntry, has_trusted_chain}

module _ ⦃core : Core⦄ where
  open core use {ActorContext, Version, version_zero}

  pub record ReplayPreparation : Type 0 where
    pub replay_id : ReplayPreparationId
    pub dead_letter_id : DeadLetterId
    pub status : ReplayPreparationStatus
    pub audit_chain_ref : AuditChainRef
    pub approval_ref : Option ReplayApprovalRef
    pub version : Version

  unfoldable pub prepare : DeadLetterEntry → ActorContext → Result DomainError ReplayPreparation
  unfolding has_trusted_chain
  prepare entry actor =
      if dead_letter_eq entry.status DeadLetterStatus.closed
      then err DomainError.dead_letter_closed
      else if not (has_trusted_chain entry)
      then err DomainError.replay_preparation_not_allowed
      else ok (record {
        replay_id = codes "replay_preparation_" ++ sanitize entry.dead_letter_id;
        dead_letter_id = entry.dead_letter_id;
        status = ReplayPreparationStatus.draft;
        audit_chain_ref = entry.audit_chain_ref;
        approval_ref = none;
        version = version_zero;
      })

  -- The error of the three methods that leave `draft`.
  abbrev not_draft :
      ReplayPreparation
      → ReplayPreparationStatus
      → ReplayPreparation × Result DomainError (Unit {0})
  not_draft self target =
      (self, err (DomainError.invalid_replay_preparation_transition self.status target))

  unfoldable pub mark_ready :
      ReplayPreparation
      → ReplayApprovalRef
      → ActorContext
      → ReplayPreparation × Result DomainError (Unit {0})
  mark_ready self approval_ref actor =
      if is_blank approval_ref
      then (self, err (DomainError.invalid_replay_preparation "approval_ref"))
      else if not (replay_eq self.status ReplayPreparationStatus.draft)
      then not_draft self ReplayPreparationStatus.ready
      else if is_blank self.audit_chain_ref
      then (self, err (DomainError.invalid_replay_preparation "audit_chain_ref"))
      else (
        record self { status = ReplayPreparationStatus.ready; approval_ref = some approval_ref },
        ok tt,
      )

  unfoldable pub reject :
      ReplayPreparation
      → ReplayRejectReason
      → ActorContext
      → ReplayPreparation × Result DomainError (Unit {0})
  reject self reason actor =
      if is_blank reason
      then (self, err (DomainError.invalid_replay_preparation "reject_reason"))
      else if not (replay_eq self.status ReplayPreparationStatus.draft)
      then not_draft self ReplayPreparationStatus.rejected
      else (record self { status = ReplayPreparationStatus.rejected }, ok tt)

  unfoldable pub supersede :
      ReplayPreparation
      → ReplayPreparationRef
      → ActorContext
      → ReplayPreparation × Result DomainError (Unit {0})
  supersede self new_ref actor =
      if is_blank new_ref
      then (self, err (DomainError.invalid_replay_preparation "replacement_ref"))
      else if not (replay_eq self.status ReplayPreparationStatus.draft)
      then not_draft self ReplayPreparationStatus.superseded
      else (record self { status = ReplayPreparationStatus.superseded }, ok tt)

  unfoldable pub set_version : ReplayPreparation → Version → ReplayPreparation
  set_version self version = record self { version = version }
