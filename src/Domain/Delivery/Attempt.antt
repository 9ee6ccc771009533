-- ===== src/Domain/Delivery/Attempt.antt =====
-- crates/domain/src/delivery.rs: a dispatch attempt, and the searches in the list of attempts.
use quantalithos_bus.Base.{
  Bool, true, false, Option, none, some, List, [], ◌∷◌, ◌++◌, if◌then◌else◌, Result, ok, err,
}
use quantalithos_bus.Base.Text.{codes, text_eq, text_lt, show}
use quantalithos_bus.Contracts.Core.{Core}
use quantalithos_bus.Contracts.Status.{BackendDeliveryStatus, backend_delivery_eq}
use quantalithos_bus.Contracts.Metadata.{
  BackendDeliveryRef, DeliveryAttemptId, DeliveryId, AttemptNo, sanitize, BackendDeliveryResult,
}
use quantalithos_bus.Domain.Errors.{DomainError}

-- `is_some()`, and `result_status == Some(BackendDeliveryStatus::Delivered)`.
abbrev pub is_some {ℓ} : {A : Type ℓ} → Option A → Bool
is_some none = false
is_some (some x) = true

abbrev pub is_delivered : Option BackendDeliveryStatus → Bool
is_delivered none = false
is_delivered (some status) = backend_delivery_eq status BackendDeliveryStatus.delivered

unfoldable pub attempt_id_of : DeliveryId → AttemptNo → DeliveryAttemptId
attempt_id_of delivery_id attempt_no =
    codes "attempt_" ++ sanitize delivery_id ++ codes "_" ++ show attempt_no

module _ ⦃core : Core⦄ where
  open core use {Timestamp, time_as_str}

  pub record DeliveryAttempt : Type 0 where
    pub attempt_id : DeliveryAttemptId
    pub delivery_id : DeliveryId
    pub attempt_no : AttemptNo
    pub backend_ref : Option BackendDeliveryRef
    pub started_at : Timestamp
    pub finished_at : Option Timestamp
    pub result_status : Option BackendDeliveryStatus

  unfoldable pub start : DeliveryId → AttemptNo → Timestamp → DeliveryAttempt
  unfolding attempt_id_of
  start delivery_id attempt_no started_at = record {
    attempt_id = attempt_id_of delivery_id attempt_no;
    delivery_id = delivery_id;
    attempt_no = attempt_no;
    backend_ref = none;
    started_at = started_at;
    finished_at = none;
    result_status = none;
  }

  unfoldable pub is_finished : DeliveryAttempt → Bool
  is_finished self = is_some self.finished_at

  unfoldable pub has_delivered : DeliveryAttempt → Bool
  has_delivered self = is_delivered self.result_status

  unfoldable pub finish :
      DeliveryAttempt
      → BackendDeliveryResult
      → Timestamp
      → DeliveryAttempt × Result DomainError (Unit {0})
  unfolding is_finished
  finish self result occurred_at =
      if is_finished self
      then (self, err DomainError.attempt_already_finished)
      else if text_lt (time_as_str occurred_at) (time_as_str self.started_at)
      then (self, err DomainError.attempt_finished_before_start)
      else (
        record self {
          backend_ref = result.backend_ref;
          finished_at = some occurred_at;
          result_status = some result.status;
        },
        ok tt,
      )

  -- `.iter().find(|candidate| candidate.attempt_id == id)`.
  unfoldable pub find_attempt : DeliveryAttemptId → List DeliveryAttempt → Option DeliveryAttempt
  find_attempt id [] = none
  find_attempt id (a ∷ attempts) =
      if text_eq a.attempt_id id then some a else find_attempt id attempts

  -- A write through the reference that `.iter_mut().find(…)` gives.
  unfoldable pub replace_attempt :
      DeliveryAttemptId → DeliveryAttempt → List DeliveryAttempt → List DeliveryAttempt
  replace_attempt id b [] = []
  replace_attempt id b (a ∷ attempts) =
      if text_eq a.attempt_id id then b ∷ attempts else a ∷ replace_attempt id b attempts
