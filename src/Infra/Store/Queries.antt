-- ===== src/Infra/Store/Queries.antt =====
-- crates/infra/src/store.rs: reads of committed storage.
use quantalithos_bus.Base.{
  ℕ, zero, suc, Bool, true, false, not, ◌&&◌, ◌||◌, Option, List, [], ◌∷◌, if◌then◌else◌,
}
use mathlib.Core.List.{any}
use quantalithos_bus.Base.Text.{Text, text_eq, text_lt}
use quantalithos_bus.Base.Maps.{get, values, text_key, id_key, pair_key}
use quantalithos_bus.Contracts.Core.{Core}
use quantalithos_bus.Contracts.Status.{DeliveryStatus, RetryPlanStatus, retry_eq, delivery_eq}
use quantalithos_bus.Contracts.Metadata.{
  AuditChainRef, DeliveryId, PublicationId, audit_chain_ref_from,
}
use quantalithos_bus.Domain.Audit.{BusAuditEntry}
use quantalithos_bus.Domain.Delivery.{DeliveryRecord}
use quantalithos_bus.Domain.Feedback.{FeedbackResult}
use quantalithos_bus.Domain.Idempotency.Scope.{IdempotencyScope}
use quantalithos_bus.Domain.Idempotency.Digest.{IdempotencyAnchor}
use quantalithos_bus.Domain.Publication.Acceptance.{PublicationAcceptance}
use quantalithos_bus.Domain.Recovery.Retry.{RetryPlan}
use quantalithos_bus.Infra.Store.{MemoryStore, anchor_key}

abbrev pub take {ℓ} : {A : Type ℓ} → ℕ → List A → List A
take zero xs = []
take (suc n) [] = []
take (suc n) (x ∷ xs) = x ∷ take n xs

abbrev filter {ℓ} : {A : Type ℓ} → (A → Bool) → List A → List A
filter p [] = []
filter p (x ∷ xs) = if p x then x ∷ filter p xs else filter p xs

abbrev no_entries : {A : Type 0} → List A → Bool
no_entries [] = true
no_entries (x ∷ xs) = false

module _ ⦃core : Core⦄ where
  open core use {Timestamp, time_as_str, IdempotencyKey}

  pub record AuditChain : Type 0 where
    pub chain_ref : AuditChainRef
    pub entries : List BusAuditEntry

  unfoldable pub is_empty : AuditChain → Bool
  is_empty self = no_entries self.entries

  unfoldable pub publication : MemoryStore → PublicationId → Option PublicationAcceptance
  unfolding get
  publication inner publication_id = get publication_id inner.publications

  unfoldable pub idempotency_anchor :
      MemoryStore → IdempotencyScope → IdempotencyKey → Option IdempotencyAnchor
  unfolding get
  idempotency_anchor inner scope key = get ⦃key = anchor_key⦄ (scope, key) inner.anchors

  unfoldable pub delivery : MemoryStore → DeliveryId → Option DeliveryRecord
  unfolding get
  delivery inner delivery_id = get delivery_id inner.deliveries

  unfoldable pub is_due : Text → Timestamp → RetryPlan → Bool
  is_due cursor now plan =
      retry_eq plan.status RetryPlanStatus.scheduled
      && not (text_lt (time_as_str now) (time_as_str plan.next_attempt_at))
      && text_lt cursor plan.retry_plan_id

  -- `limit` is a u32, which the cast to usize keeps.
  unfoldable pub due_retry_plans : MemoryStore → Text → ℕ → Timestamp → List RetryPlan
  unfolding is_due
  due_retry_plans inner cursor limit now =
      take limit (filter (is_due cursor now) (values inner.retry_plans))

  unfoldable pub schedulable_deliveries : MemoryStore → Text → ℕ → List DeliveryRecord
  schedulable_deliveries inner cursor limit =
      let has_after_cursor = any inner.deliveries (λ entry. text_lt cursor entry.0) in
      take limit (
        filter
          (λ d.
            delivery_eq d.status DeliveryStatus.scheduled
            && (not has_after_cursor || text_lt cursor d.delivery_id))
          (values inner.deliveries))

  -- The stable sort of `feedbacks_by_delivery`.
  unfoldable pub insert_by_time : FeedbackResult → List FeedbackResult → List FeedbackResult
  insert_by_time f [] = f ∷ []
  insert_by_time f (g ∷ rest) =
      if text_lt (time_as_str g.observed_at) (time_as_str f.observed_at)
      then g ∷ insert_by_time f rest
      else f ∷ g ∷ rest

  unfoldable pub sort_by_time : List FeedbackResult → List FeedbackResult
  unfolding insert_by_time
  sort_by_time [] = []
  sort_by_time (f ∷ rest) = insert_by_time f (sort_by_time rest)

  unfoldable pub feedbacks_by_delivery : MemoryStore → DeliveryId → List FeedbackResult
  unfolding sort_by_time
  feedbacks_by_delivery inner delivery_id =
      sort_by_time (filter (λ f. text_eq f.delivery_id delivery_id) (values inner.feedbacks))

  unfoldable pub audit_chain : MemoryStore → AuditChainRef → AuditChain
  audit_chain inner chain_ref = record {
    chain_ref = chain_ref;
    entries =
        filter (λ entry. text_eq (audit_chain_ref_from entry.audit_ref) chain_ref) inner.audits;
  }
