-- ===== src/Domain/Idempotency/Scope.antt =====
-- crates/domain/src/idempotency.rs: the scope in which an idempotency key is unique.
use quantalithos_bus.Base.{◌≡◌, ◌↔◌, Bool, true, false, ◌&&◌, Option, none, some, ◌++◌, arith}
use quantalithos_bus.Base.Text.{Text, codes, text_eq}
use quantalithos_bus.Base.Text.Laws.{text_eq_iff}
use quantalithos_bus.Contracts.Core.{Core}
use quantalithos_bus.Contracts.Inputs.{
  AcceptPublicationCommand, RecordDeliveryFeedbackCommand, CommittedOutboxFactInput,
  BackendDeliverySignalInput, DeliveryTimeoutSignalInput,
}

pub data IdempotencyEntryKind : Type 0 where
  command event : IdempotencyEntryKind

pub data IdempotencyAction : Type 0 where
  accept_publication record_delivery_feedback consume_committed_outbox_fact : IdempotencyAction
  consume_backend_delivery_signal consume_timeout_signal : IdempotencyAction

pub record IdempotencyScope : Type 0 where
  pub entry_kind : IdempotencyEntryKind
  pub action : IdempotencyAction
  pub boundary_ref : Option Text

-- The derived equalities.
unfoldable pub entry_kind_eq : IdempotencyEntryKind → IdempotencyEntryKind → Bool
entry_kind_eq command command = true
entry_kind_eq event event = true
entry_kind_eq _ _ = false

unfoldable pub action_eq : IdempotencyAction → IdempotencyAction → Bool
action_eq accept_publication accept_publication = true
action_eq record_delivery_feedback record_delivery_feedback = true
action_eq consume_committed_outbox_fact consume_committed_outbox_fact = true
action_eq consume_backend_delivery_signal consume_backend_delivery_signal = true
action_eq consume_timeout_signal consume_timeout_signal = true
action_eq _ _ = false

unfoldable pub boundary_eq : Option Text → Option Text → Bool
boundary_eq none none = true
boundary_eq (some a) (some b) = text_eq a b
boundary_eq _ _ = false

unfoldable pub scope_eq : IdempotencyScope → IdempotencyScope → Bool
unfolding entry_kind_eq action_eq boundary_eq
scope_eq a b =
    entry_kind_eq a.entry_kind b.entry_kind
    && action_eq a.action b.action
    && boundary_eq a.boundary_ref b.boundary_ref

entry_kind_eq_iff : (a b : IdempotencyEntryKind) → (entry_kind_eq a b ≡ true) ↔ (a ≡ b)
unfolding entry_kind_eq
entry_kind_eq_iff a b = ground arith

action_eq_iff : (a b : IdempotencyAction) → (action_eq a b ≡ true) ↔ (a ≡ b)
unfolding action_eq
action_eq_iff a b = ground arith

boundary_eq_iff : (a b : Option Text) → (boundary_eq a b ≡ true) ↔ (a ≡ b)
unfolding boundary_eq
boundary_eq_iff none none = ground arith
boundary_eq_iff none (some b) = ground arith
boundary_eq_iff (some a) none = ground arith
boundary_eq_iff (some a) (some b) = ground (arith, text_eq_iff a b)

pub scope_eq_iff : (a b : IdempotencyScope) → (scope_eq a b ≡ true) ↔ (a ≡ b)
unfolding scope_eq
scope_eq_iff a b = ground (
  arith,
  entry_kind_eq_iff a.entry_kind b.entry_kind,
  action_eq_iff a.action b.action,
  boundary_eq_iff a.boundary_ref b.boundary_ref,
)

unfoldable pub for_accept_publication_command : AcceptPublicationCommand → IdempotencyScope
for_accept_publication_command c = record {
  entry_kind = command;
  action = accept_publication;
  boundary_ref = some (c.target_scope.project_id ++ codes "::" ++ c.target_scope.topic);
}

module _ ⦃core : Core⦄ where
  unfoldable pub for_record_delivery_feedback : RecordDeliveryFeedbackCommand → IdempotencyScope
  for_record_delivery_feedback c = record {
    entry_kind = command;
    action = record_delivery_feedback;
    boundary_ref = some c.delivery_id;
  }

  unfoldable pub for_outbox_fact : CommittedOutboxFactInput → IdempotencyScope
  for_outbox_fact input = record {
    entry_kind = event;
    action = consume_committed_outbox_fact;
    boundary_ref = some (input.source_ref ++ codes "::" ++ input.event_id);
  }

  unfoldable pub for_backend_signal : BackendDeliverySignalInput → IdempotencyScope
  for_backend_signal input = record {
    entry_kind = IdempotencyEntryKind.event;
    action = IdempotencyAction.consume_backend_delivery_signal;
    boundary_ref = some (input.source_ref ++ codes "::" ++ input.event_id);
  }

  unfoldable pub for_timeout_signal : DeliveryTimeoutSignalInput → IdempotencyScope
  for_timeout_signal input = record {
    entry_kind = IdempotencyEntryKind.event;
    action = IdempotencyAction.consume_timeout_signal;
    boundary_ref = some (input.source_ref ++ codes "::" ++ input.event_id);
  }
