-- ===== src/Domain/Delivery/History.antt =====
-- crates/domain/src/delivery.rs: the transition policy of a delivery and the entries of its history.
use quantalithos_bus.Base.{Bool, true, false, not, ◌&&◌, ◌++◌}
use quantalithos_bus.Base.Text.{Text, codes, to_ascii_lowercase}
use quantalithos_bus.Contracts.Core.{Core}
use quantalithos_bus.Contracts.Status.{DeliveryStatus, delivery_eq}
use quantalithos_bus.Contracts.Metadata.{DeliveryHistoryId, DeliveryId, HistoryReason, sanitize}

-- The `matches!` of `DeliveryLifecycle::can_transition`.
unfoldable pub can_transition : DeliveryStatus → DeliveryStatus → Bool
can_transition DeliveryStatus.scheduled DeliveryStatus.dispatching = true
can_transition DeliveryStatus.scheduled DeliveryStatus.failed = true
can_transition DeliveryStatus.dispatching DeliveryStatus.delivered = true
can_transition DeliveryStatus.dispatching DeliveryStatus.failed = true
can_transition DeliveryStatus.delivered DeliveryStatus.completed = true
can_transition DeliveryStatus.delivered DeliveryStatus.failed = true
can_transition DeliveryStatus.failed DeliveryStatus.scheduled = true
can_transition DeliveryStatus.failed DeliveryStatus.dead_lettered = true
can_transition _ _ = false

unfoldable pub requires_history : DeliveryStatus → DeliveryStatus → Bool
unfolding can_transition
requires_history from_status to_status =
    can_transition from_status to_status && not (delivery_eq from_status to_status)

-- `DeliveryStatus::Completed | DeliveryStatus::DeadLettered`.
abbrev pub is_terminal : DeliveryStatus → Bool
is_terminal DeliveryStatus.completed = true
is_terminal DeliveryStatus.dead_lettered = true
is_terminal _ = false

-- `format!("{status:?}")`.
unfoldable pub debug_name : DeliveryStatus → Text
debug_name DeliveryStatus.scheduled = codes "Scheduled"
debug_name DeliveryStatus.dispatching = codes "Dispatching"
debug_name DeliveryStatus.delivered = codes "Delivered"
debug_name DeliveryStatus.failed = codes "Failed"
debug_name DeliveryStatus.dead_lettered = codes "DeadLettered"
debug_name DeliveryStatus.completed = codes "Completed"

module _ ⦃core : Core⦄ where
  open core use {Timestamp, time_as_str}

  pub record DeliveryHistoryEntry : Type 0 where
    pub history_id : DeliveryHistoryId
    pub delivery_id : DeliveryId
    pub from_status : DeliveryStatus
    pub to_status : DeliveryStatus
    pub reason : HistoryReason
    pub occurred_at : Timestamp

  unfoldable pub transition :
      DeliveryId
      → DeliveryStatus
      → DeliveryStatus
      → HistoryReason
      → Timestamp
      → DeliveryHistoryEntry
  unfolding debug_name
  transition delivery_id from_status to_status reason occurred_at = record {
    history_id =
        codes "history_"
        ++ sanitize delivery_id
        ++ codes "_"
        ++ to_ascii_lowercase (debug_name from_status)
        ++ codes "_"
        ++ to_ascii_lowercase (debug_name to_status)
        ++ codes "_"
        ++ sanitize (time_as_str occurred_at);
    delivery_id = delivery_id;
    from_status = from_status;
    to_status = to_status;
    reason = reason;
    occurred_at = occurred_at;
  }

  unfoldable pub describes_transition :
      DeliveryHistoryEntry → DeliveryStatus → DeliveryStatus → Bool
  describes_transition entry from_status to_status =
      delivery_eq entry.from_status from_status && delivery_eq entry.to_status to_status
